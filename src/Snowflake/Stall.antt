-- ===== src/Snowflake/Stall.antt =====
-- The wait for the next millisecond.
use Prim.Native.Nat.{bit_and}
use winmelon_card.Base.{
  ℕ, ◌≡◌, refl, ◌∙◌, ap, inl, inr, ◌+◌, Bool, true, false, Option, none, some, List, [], ◌∷◌,
  ==_iff, ltb, leb, ◌||◌, is_none, arith, Bool-cases, Option-cases,
}
use winmelon_card.Base.Result.{ok, err, failure}
use winmelon_card.Snowflake.{Snowflake, Clock, Wait, spin, next_ms, same_ms, next, id_of}
use winmelon_card.Snowflake.Ids.{ids}

-- Among the readings is one that ends the wait.
abbrev pub is_over : ℕ → ℕ → List (ℕ × ℕ) → Bool
is_over last start [] = false
is_over last start ((t, u) ∷ ts) = ltb last t || (ltb (start + 5000) u || is_over last start ts)

-- The same for a call of a generator, which waits only where it has a last timestamp.
abbrev pub wait_is_over : Option ℕ → Clock → Bool
wait_is_over none c = true
wait_is_over (some last) c = is_over last c.spin_start c.turns

abbrev is_waiting : Wait → Bool
is_waiting Wait.waiting = true
is_waiting Wait.stalled = false
is_waiting (Wait.resumed u) = false

spin-is_over :
    (last start : ℕ) (ts : List (ℕ × ℕ))
    → is_over last start ts ≡ true
    → is_waiting (spin last start ts) ≡ false
spin-is_over last start [] h = absurd (ground arith)
spin-is_over last start ((t, u) ∷ ts) h = elim (Bool-cases (leb t last)) [
  | inr e ↦ ground arith
  | inl e ↦ elim (Bool-cases (ltb (start + 5000) u)) [
    | inl f ↦ ground arith
    | inr f ↦ ground (arith, spin-is_over last start ts)
  ]
]

next_ms-is_waiting : (w : Wait) (s : Snowflake) → is_none (next_ms w s) ≡ is_waiting w
next_ms-is_waiting Wait.waiting s = refl
next_ms-is_waiting Wait.stalled s = refl
next_ms-is_waiting (Wait.resumed u) s = refl

same_ms-is_over :
    (last : ℕ) (c : Clock) (s : Snowflake)
    → is_over last c.spin_start c.turns ≡ true
    → is_none (same_ms last c s) ≡ false
same_ms-is_over last c s over =
    let sequence = bit_and (s.sequence + 1) 4095 in
    let ended = spin-is_over last c.spin_start c.turns over in
    let reset = record s { sequence = sequence } in
    ground (arith, next_ms-is_waiting (spin last c.spin_start c.turns) reset)

-- A call returns, with an identifier or an exception, if the generator has returned none before or
-- the clock comes, while the call waits, to show a later millisecond than the last identifier's or
-- a time five seconds after the start of the wait.
pub next-is_over :
    (c : Clock) (s : Snowflake)
    → wait_is_over s.last_timestamp c ≡ true
    → is_none (next c s) ≡ false
next-is_over c s over = elim (Option-cases s.last_timestamp) [
  | inl e ↦ ground arith
  | inr (last, e) ↦
      let over' : is_over last c.spin_start c.turns ≡ true = ground arith in
      ground (arith, same_ms-is_over last c s over')
]

-- After a wait that failed because the clock stood still, a call in the same millisecond returns the
-- identifier that was the second of this millisecond, number 1, once more: the failed call has left
-- the sequence at 0 and the last timestamp as it was.
pub ids_stalled :
    (t : ℕ) (c c' : Clock) (cs : List Clock) (s : Snowflake)
    → s.last_timestamp ≡ some t
    → s.sequence ≡ 4095
    → c.now ≡ t
    → spin t c.spin_start c.turns ≡ Wait.stalled
    → c'.now ≡ t
    → ids (c ∷ c' ∷ cs) s ≡ id_of t s.machine_id 1 ∷ ids cs (record s { sequence = 1 })
ids_stalled t c c' cs s here end now stop now' =
    let stalled : Snowflake = record s { sequence = 0 } in
    let wrap : bit_and (s.sequence + 1) 4095 ≡ 0 = ap (λ q. bit_and (q + 1) 4095) end in
    let first : next c s ≡ some (err failure, stalled) = ground (arith, ==_iff c.now t) in
    let second : next c' stalled ≡ some (ok (id_of t s.machine_id 1), record s { sequence = 1 }) =
      ground (arith, ==_iff c'.now t) in
    let then_second : ids (c ∷ c' ∷ cs) s ≡ ids (c' ∷ cs) stalled = ground arith in
    then_second ∙ ground arith
