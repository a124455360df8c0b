-- ===== src/Withdrawal/Conservation.antt =====
-- Withdrawals move a merchant's money between three places and create or lose none of it but what
-- the rounding of amounts that are not whole fen makes.
use winmelon_card.Base.{
  ℕ, ◌+◌, ◌%◌, ◌≡◌, refl, inl, inr, some, List, [], ◌∷◌, arith, ◌==◌, if◌then◌else◌, Bool-cases,
  ==_iff,
}
use winmelon_card.Base.Int.{ℤ, pos, ◌+ℤ◌, ◌≤ℤ◌, int_laws}
use winmelon_card.Base.Table.{Table, find, adjust, find-adjust_self, find-adjust_ne}
use winmelon_card.Schema.{Merchant}
use winmelon_card.Schema.Store.{Store}
use winmelon_card.Withdrawal.{freeze, unfreeze, pay_out}
use winmelon_card.Withdrawal.Rounding.{freeze_near, freeze_whole}
use winmelon_card.Withdrawal.Step.{
  Step, skip, ask, endorse, refuse, pay, clean, Call, asked_of, perform, perform_all, perform-Step,
}

-- All that the platform owes a merchant or has paid out to it.
abbrev pub worth : Merchant → ℤ
worth r = r.balance +ℤ r.freeze_balance +ℤ r.total_withdrawn

-- At most `n` fen apart.
abbrev pub IsWithin : ℕ → ℤ → ℤ → Type 0
IsWithin n a b = (a ≤ℤ b +ℤ pos n) × (b ≤ℤ a +ℤ pos n)

-- What an amount of millionths may move: a fen, unless it is whole fen.
abbrev pub drift : ℕ → ℕ
drift asked = if asked % 10000 == 0 then 0 else 1

abbrev pub drifts : List Call → ℕ
drifts [] = 0
drifts (c ∷ cs) = drift (asked_of c) + drifts cs

-- Merchant `k` is still there, worth as much up to `n` fen.
abbrev pub Keeps : ℕ → ℕ → ℤ → Table Merchant → Type 0
Keeps n k v ms = (r : Merchant) × (find k ms ≡ some r) × (IsWithin n (worth r) v)

IsWithin-trans : (m n : ℕ) (a b c : ℤ) → IsWithin m a b → IsWithin n b c → IsWithin (m + n) a c
IsWithin-trans m n a b c (h, h') (g, g') = (omega (int_laws, h, g), omega (int_laws, h', g'))

IsWithin-refl : (n : ℕ) (a b : ℤ) → a ≡ b → IsWithin n a b
IsWithin-refl n a b h = rw h (omega int_laws, omega int_laws)

adjust-Keeps :
    (n k j : ℕ) (g : Merchant → Merchant) (ms : Table Merchant) (r s : Merchant)
    → find j ms ≡ some s
    → IsWithin n (worth (g s)) (worth s)
    → find k ms ≡ some r
    → Keeps n k (worth r) (adjust j g ms)
adjust-Keeps n k j g ms r s found near there = elim (Bool-cases (k == j)) [
  | inl e ↦
      let one : s ≡ r = ground (arith, (==_iff k j).0 e) in
      (g r, ground (arith, find-adjust_self j g ms s found, (==_iff k j).0 e), rw one at near)
  | inr e ↦ (r, ground (arith, find-adjust_ne k j g ms), IsWithin-refl n (worth r) (worth r) refl)
]

worth-freeze : (a : ℕ) (r : Merchant) → IsWithin (drift a) (worth (freeze a r)) (worth r)
worth-freeze a r = elim (Bool-cases (a % 10000 == 0)) [
  | inl e ↦
      let (up, down) = freeze_whole r.balance r.freeze_balance a ((==_iff (a % 10000) 0).0 e) in
      rw e (omega (int_laws, up), omega (int_laws, down))
  | inr e ↦
      let (up, down) = freeze_near r.balance r.freeze_balance a in
      rw e (omega (int_laws, up), omega (int_laws, down))
]

worth-unfreeze : (a : ℤ) (r : Merchant) → worth (unfreeze a r) ≡ worth r
worth-unfreeze a r = omega int_laws

worth-pay_out : (a : ℤ) (r : Merchant) → worth (pay_out a r) ≡ worth r
worth-pay_out a r = omega int_laws

same-Keeps :
    (n k : ℕ) (ms : Table Merchant) (r : Merchant) → find k ms ≡ some r → Keeps n k (worth r) ms
same-Keeps n k ms r h = (r, h, IsWithin-refl n (worth r) (worth r) refl)

Step-Keeps :
    (k asked : ℕ) (r : Merchant) {db db' : Store}
    → Step asked db db'
    → find k db.merchants ≡ some r
    → Keeps (drift asked) k (worth r) db'.merchants
Step-Keeps k a r {db} (skip em ew) h = rw em (same-Keeps (drift a) k db.merchants r h)
Step-Keeps k a r {db} (ask id w s found new fresh amount least cover em ew) h =
    rw em (
      adjust-Keeps (drift a) k w.merchant_id (freeze a) db.merchants r s found (worth-freeze a s) h)
Step-Keeps k a r {db} (endorse id admin now w found was em ew) h =
    rw em (same-Keeps (drift a) k db.merchants r h)
Step-Keeps k a r {db} (refuse id admin now reason w s found mine was em ew) h = rw em (
    adjust-Keeps (drift a) k w.merchant_id (unfreeze w.amount) db.merchants r s mine
      (IsWithin-refl (drift a) (worth (unfreeze w.amount s)) (worth s) (worth-unfreeze w.amount s))
      h)
Step-Keeps k a r {db} (pay id ref w s found mine was em ew) h = rw em (
    adjust-Keeps (drift a) k w.merchant_id (pay_out w.amount) db.merchants r s mine
      (IsWithin-refl (drift a) (worth (pay_out w.amount s)) (worth s) (worth-pay_out w.amount s)) h)
Step-Keeps k a r {db} (clean cutoff closed em ew) h =
    rw em (same-Keeps (drift a) k db.merchants r h)

-- After any list of calls every merchant is still there, and the sum of its balance, its frozen
-- balance and its total of payouts is the same as before, up to one fen for each call that asks for
-- an amount that is not a whole number of fen.
pub perform_all-worth :
    (k : ℕ) (cs : List Call) (db : Store) (r : Merchant)
    → find k db.merchants ≡ some r
    → (r' : Merchant) × (find k (perform_all cs db).merchants ≡ some r')
      × (IsWithin (drifts cs) (worth r') (worth r))
unfolding perform_all
perform_all-worth k [] db r found = (r, found, IsWithin-refl 0 (worth r) (worth r) refl)
perform_all-worth k (c ∷ cs) db r found =
    let (s, there, near) = Step-Keeps k (asked_of c) r (perform-Step c db) found in
    let (t, last, nearer) = perform_all-worth k cs (perform c db) s there in
    let far =
      IsWithin-trans (drifts cs) (drift (asked_of c)) (worth t) (worth s) (worth r) nearer near in
    (t, last, (omega (int_laws, far.0), omega (int_laws, far.1)))
