-- ===== src/Penalty/Deadline.antt =====
-- The deadline of an appeal.
use winmelon_card.Base.{
  ℕ, zero, suc, ◌+◌, ◌*◌, ◌/◌, ◌≤◌, ◌≡◌, sym, ◌∙◌, ap, inl, inr, true, false, some, if◌then◌else◌,
  is_none, arith, Bool-cases, Option-cases,
}
use winmelon_card.Penalty.{
  is_workday, add_days, appeal_business_days, days_fuel, deadline_of, ms_per_day,
}

-- The workdays among the `n` days after `day`.
abbrev pub workdays : ℕ → ℕ → ℕ
workdays zero day = 0
workdays (suc n) day = (if is_workday (suc day) then 1 else 0) + workdays n (suc day)

-- `n` days later, the last of them a workday, `left` of them workdays.
pub record IsDue (fuel left day r : ℕ) : Type 0 where
  pub after : ℕ
  pub day_after : r ≡ day + after
  pub counted : workdays after day ≡ left
  pub last : is_workday r ≡ true
  pub near : after ≤ fuel

-- A day that counts for `c`, before `left` others.
before-IsDue :
    (fuel left c n day r : ℕ)
    → n ≡ c + left
    → c ≡ (if is_workday (suc day) then 1 else 0)
    → IsDue fuel left (suc day) r
    → IsDue (suc fuel) n day r
before-IsDue fuel left c n day r sum here h = record {
  after = suc h.after;
  day_after = let later = h.day_after in omega arith;
  counted =
      ap (λ x. (if is_workday (suc day) then 1 else 0) + x) h.counted
      ∙ ap (λ x. x + left) (sym here)
      ∙ sym sum;
  last = h.last;
  near = let later = h.near in omega arith;
}

add_days-IsDue :
    (fuel left day r : ℕ) → add_days fuel (suc left) day ≡ some r → IsDue fuel (suc left) day r
add_days-IsDue zero left day r h = absurd (ground arith)
add_days-IsDue (suc fuel) zero day r h = elim (Bool-cases (is_workday (suc day))) [
  | inr e ↦
      before-IsDue fuel 1 0 1 day r (omega arith) (ground arith)
        (add_days-IsDue fuel zero (suc day) r (ground arith))
  | inl e ↦
      let is : suc day ≡ r = ground arith in
      record {
        after = 1;
        day_after = omega arith;
        counted = ground arith;
        last = ap is_workday (sym is) ∙ e;
        near = omega arith;
      }
]
add_days-IsDue (suc fuel) (suc left) day r h = elim (Bool-cases (is_workday (suc day))) [
  | inr e ↦
      before-IsDue fuel (suc (suc left)) 0 (suc (suc left)) day r (omega arith) (ground arith)
        (add_days-IsDue fuel (suc left) (suc day) r (ground arith))
  | inl e ↦
      before-IsDue fuel (suc left) 1 (suc (suc left)) day r (omega arith) (ground arith)
        (add_days-IsDue fuel left (suc day) r (ground arith))
]

add_days-is_none : (day : ℕ) → is_none (add_days 5 3 day) ≡ false
add_days-is_none day = ground arith

-- Every penalty gets a deadline, on fuel for five days: the end of a workday, the third workday after
-- the day of the penalty, and at most five days after it.
pub deadline_of-IsDue :
    (now : ℕ)
    → (r : ℕ) × (deadline_of now ≡ some (r * ms_per_day + 86399999))
      × IsDue days_fuel appeal_business_days (now / ms_per_day) r
deadline_of-IsDue now =
    let some_day = add_days-is_none (now / ms_per_day) in
    elim (Option-cases (add_days 5 3 (now / ms_per_day))) [
      | inl e ↦ absurd (ground arith)
      | inr (r, e) ↦ (r, ground arith, add_days-IsDue 5 2 (now / ms_per_day) r e)
    ]
