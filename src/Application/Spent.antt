-- ===== src/Application/Spent.antt =====
-- A verification code is used once: what is left for an address after a code has been accepted.
use winmelon_card.Base.{
  ℕ, ◌≤◌, ◌≡◌, refl, ap, inl, inr, Bool, false, none, some, List, [], ◌∷◌, arith, ◌==◌, Bool-cases,
  Option-cases, ==_iff, ==_refl,
}
use winmelon_card.Base.Table.{
  Table, find, find_first, adjust, update_many, count, IsKeyed, find_first-find,
}
use winmelon_card.Base.Result.{ok, err, bad_request, bad_code}
use winmelon_card.Schema.{EmailVerification}
use winmelon_card.Schema.Store.{Store}
use winmelon_card.Schema.Action.{⊤}
use winmelon_card.Application.Email.{
  send_code, verify_code, cleanup_expired, unused_for, set_used, is_valid, is_cooling,
}
use winmelon_card.Application.Codes.{
  AreSingle, Call, sends, verifies, cleans, perform, perform_all, perform_all-AreSingle,
  count-update_many-less, count-adjust-used, count-delete_many,
}

no_code :
    (email code now : ℕ) (t : Table EmailVerification)
    → count (unused_for email) t ≡ 0
    → find_first (is_valid email code now) t ≡ none
no_code email code now [] h = refl
no_code email code now ((j, v) ∷ t) h = ground (arith, no_code email code now t)

found_unused :
    (email code now : ℕ) (t : Table EmailVerification) (row : ℕ × EmailVerification)
    → find_first (is_valid email code now) t ≡ some row
    → 1 ≤ count (unused_for email) t
found_unused email code now [] row h = absurd (ground arith)
found_unused email code now ((j, v) ∷ t) row h = elim (Bool-cases (unused_for email j v)) [
  | inl e ↦ ground arith
  | inr e ↦ ground (arith, found_unused email code now t row)
]

-- The row that a code is found in is not unused afterwards.
used_up :
    (email code now : ℕ) (t : Table EmailVerification) (row : ℕ × EmailVerification)
    → find_first (is_valid email code now) t ≡ some row
    → count (unused_for email) t ≤ 1
    → IsKeyed t
    → count (unused_for email) (adjust row.0 (set_used now) t) ≡ 0
used_up email code now [] row h one keyed = absurd (ground arith)
used_up email code now ((j, v) ∷ t) row h one (new, keyed) =
    elim (Bool-cases (is_valid email code now j v)) [
      | inl e ↦ ground (arith, ==_refl j)
      | inr e ↦ elim (Bool-cases (j == row.0)) [
        | inl f ↦
            let (there, valid) =
              find_first-find (is_valid email code now) t row.0 row.1 (ground arith) keyed in
            absurd (ground (arith, ==_iff j row.0, ap (λ k. find k t) ((==_iff j row.0).0 f)))
        | inr f ↦
            let later : find_first (is_valid email code now) t ≡ some row = ground arith in
            let more = found_unused email code now t row later in
            elim (Bool-cases (unused_for email j v)) [
              | inl g ↦ absurd (ground arith)
              | inr g ↦
                  let rest = used_up email code now t row later (ground arith) keyed in ground arith
            ]
      ]
    ]

-- The calls send no code to `email`.
abbrev pub sends_to : ℕ → Call → Bool
sends_to email (sends id code e now) = e == email
sends_to email (verifies e code now) = false
sends_to email (cleans now) = false

abbrev pub AreSilent : ℕ → List Call → Type 0
AreSilent email [] = ⊤
AreSilent email (c ∷ cs) = (sends_to email c ≡ false) × AreSilent email cs

zero_of : {a b : ℕ} → a ≤ b → b ≡ 0 → a ≡ 0
zero_of f g = omega (arith, f, g)

send_code-spent :
    (email id code e now : ℕ) (db : Store)
    → (e == email) ≡ false
    → count (unused_for email) db.email_verifications ≡ 0
    → count (unused_for email) (send_code id code e now db).1.email_verifications ≡ 0
unfolding send_code
send_code-spent email id code e now db other h =
    let less = zero_of (count-update_many-less email e now db.email_verifications) h in
    elim (Bool-cases (is_cooling (find e db.email_cooldowns) now)) [
      | inl f ↦ ground arith
      | inr f ↦
          elim (Option-cases
            (find id (update_many (unused_for e) (set_used now) db.email_verifications))) [
              | inl g ↦ ground arith
              | inr (v, g) ↦ ground arith
            ]
    ]

verify_code-spent :
    (email e code now : ℕ) (db : Store)
    → count (unused_for email) db.email_verifications ≡ 0
    → count (unused_for email) (verify_code e code now db).1.email_verifications ≡ 0
unfolding verify_code
verify_code-spent email e code now db h =
    elim (Option-cases (find_first (is_valid e code now) db.email_verifications)) [
      | inl f ↦ ground arith
      | inr (row, f) ↦
          let less = zero_of (count-adjust-used email row.0 now db.email_verifications) h in
          ground arith
    ]

perform-spent :
    (email : ℕ) (c : Call) (db : Store)
    → sends_to email c ≡ false
    → count (unused_for email) db.email_verifications ≡ 0
    → count (unused_for email) (perform c db).email_verifications ≡ 0
unfolding perform cleanup_expired
perform-spent email (sends id code e now) db other h =
    send_code-spent email id code e now db other h
perform-spent email (verifies e code now) db other h = verify_code-spent email e code now db h
perform-spent email (cleans now) db other h =
    zero_of (count-delete_many email now db.email_verifications) h

perform_all-spent :
    (email : ℕ) (cs : List Call) (db : Store)
    → AreSilent email cs
    → count (unused_for email) db.email_verifications ≡ 0
    → count (unused_for email) (perform_all cs db).email_verifications ≡ 0
unfolding perform_all
perform_all-spent email [] db silent h = h
perform_all-spent email (c ∷ cs) db (other, silent) h =
    perform_all-spent email cs (perform c db) silent (perform-spent email c db other h)

spent_after :
    (email code now : ℕ) (db : Store)
    → AreSingle db.email_verifications
    → (verify_code email code now db).0 ≡ ok tt
    → count (unused_for email) (verify_code email code now db).1.email_verifications ≡ 0
unfolding verify_code
spent_after email code now db safe good =
    elim (Option-cases (find_first (is_valid email code now) db.email_verifications)) [
      | inl e ↦ absurd (ground arith)
      | inr (row, e) ↦
          let used =
            used_up email code now db.email_verifications row e (safe.single email) safe.keyed in
          ground arith
    ]

spent_refused :
    (email code now : ℕ) (db : Store)
    → count (unused_for email) db.email_verifications ≡ 0
    → (verify_code email code now db).0 ≡ err (bad_request bad_code)
unfolding verify_code
spent_refused email code now db h =
    let gone = no_code email code now db.email_verifications h in ground arith

-- Take a store in which every address has one unused code at most, any calls about codes, the
-- verification of a code that is accepted for an address, and any further calls of which none sends a
-- code to this address. After these no code is accepted for the address.
pub verify_code-verify_code :
    (cs more : List Call) (db : Store) (email code again now later : ℕ)
    → AreSingle db.email_verifications
    → (verify_code email code now (perform_all cs db)).0 ≡ ok tt
    → AreSilent email more
    → (verify_code email again later
        (perform_all more (verify_code email code now (perform_all cs db)).1)).0
      ≡ err (bad_request bad_code)
verify_code-verify_code cs more db email code again now later h good silent =
    let start = perform_all cs db in
    let used = spent_after email code now start (perform_all-AreSingle cs db h) good in
    let after = (verify_code email code now start).1 in
    spent_refused email again later (perform_all more after)
      (perform_all-spent email more after silent used)
