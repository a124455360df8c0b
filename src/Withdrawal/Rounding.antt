-- ===== src/Withdrawal/Rounding.antt =====
-- What the columns of withdrawal.service.ts keep of an amount with more than two decimals.
use winmelon_card.Base.{ℕ, ◌+◌, ◌*◌, ◌%◌, ◌≤◌, ◌≡◌, arith}
use winmelon_card.Base.Int.{ℤ, pos, pos_part, neg_part, ◌+ℤ◌, ◌-ℤ◌, ◌≤ℤ◌, int_laws}
use winmelon_card.Withdrawal.{millionths, to_fen}

pub millionths_parts :
    (a : ℤ)
    → pos_part (millionths a) + neg_part a * 10000 ≡ neg_part (millionths a) + pos_part a * 10000
unfolding millionths
millionths_parts a = ground arith

-- The rounding moves a value by half a fen at most.
pub to_fen_near :
    (a : ℤ)
    → (pos_part (to_fen a) * 10000 + neg_part a ≤ neg_part (to_fen a) * 10000 + pos_part a + 5000)
      × (neg_part (to_fen a) * 10000 + pos_part a ≤ pos_part (to_fen a) * 10000 + neg_part a + 5000)
unfolding to_fen
to_fen_near (ℤ.pos n) = (ground arith, ground arith)
to_fen_near (ℤ.negsuc n) = (ground arith, ground arith)

pub ruleset fen_laws = (int_laws, millionths_parts, to_fen_near)

-- On a balance that is not negative the frozen amount grows by what the request records.
pub freeze_fen : (b : ℤ) (a : ℕ) → pos 0 ≤ℤ b → to_fen (millionths b +ℤ pos a) ≡ b +ℤ to_fen (pos a)
unfolding millionths to_fen ◌+ℤ◌
freeze_fen b a h = ground arith

pub to_fen_positive : (a : ℕ) → pos 0 ≤ℤ to_fen (pos a)
unfolding to_fen
to_fen_positive a = ground arith

-- The sum of a balance and a frozen amount moves by a fen at most, and not at all for whole fen.
pub freeze_near :
    (b f : ℤ) (a : ℕ)
    → (to_fen (millionths b -ℤ pos a) +ℤ to_fen (millionths f +ℤ pos a) ≤ℤ b +ℤ f +ℤ pos 1)
      × (b +ℤ f ≤ℤ to_fen (millionths b -ℤ pos a) +ℤ to_fen (millionths f +ℤ pos a) +ℤ pos 1)
freeze_near b f a = (omega fen_laws, omega fen_laws)

pub freeze_whole :
    (b f : ℤ) (a : ℕ)
    → a % 10000 ≡ 0
    → (to_fen (millionths b -ℤ pos a) +ℤ to_fen (millionths f +ℤ pos a) ≤ℤ b +ℤ f)
      × (b +ℤ f ≤ℤ to_fen (millionths b -ℤ pos a) +ℤ to_fen (millionths f +ℤ pos a))
freeze_whole b f a h = (omega (fen_laws, h), omega (fen_laws, h))
