-- ===== src/Application/Codes.antt =====
-- An address has one unused verification code at most.
use winmelon_card.Base.{
  ℕ, ◌+◌, ◌*◌, ◌≤◌, ◌≡◌, refl, sym, subst, inl, inr, none, List, [], ◌∷◌, arith, Bool-cases,
  Option-cases, ==_iff,
}
use winmelon_card.Base.Table.{
  Table, find, find_first, insert, adjust, update_many, delete_many, count, IsKeyed, adjust-IsKeyed,
  update_many-IsKeyed,
}
use winmelon_card.Schema.{EmailVerification}
use winmelon_card.Schema.Store.{Store}
use winmelon_card.Application.Email.{
  send_code, verify_code, cleanup_expired, code_ttl_sec, unused_for, set_used, is_valid, is_old,
  is_cooling,
}

-- An address has one unused code at most.
pub record AreSingle (t : Table EmailVerification) : Type 0 where
  pub keyed : IsKeyed t
  pub single : (email : ℕ) → count (unused_for email) t ≤ 1

pub le_trans : {a b c : ℕ} → a ≤ b → b ≤ c → a ≤ c
le_trans f g = omega (arith, f, g)

count-update_many-used :
    (email now : ℕ) (t : Table EmailVerification)
    → count (unused_for email) (update_many (unused_for email) (set_used now) t) ≡ 0
count-update_many-used email now [] = refl
count-update_many-used email now ((j, v) ∷ t) = ground (arith, count-update_many-used email now t)

pub count-update_many-less :
    (e email now : ℕ) (t : Table EmailVerification)
    → count (unused_for e) (update_many (unused_for email) (set_used now) t)
      ≤ count (unused_for e) t
count-update_many-less e email now [] = ground arith
count-update_many-less e email now ((j, v) ∷ t) =
    ground (arith, count-update_many-less e email now t)

pub count-adjust-used :
    (e id now : ℕ) (t : Table EmailVerification)
    → count (unused_for e) (adjust id (set_used now) t) ≤ count (unused_for e) t
count-adjust-used e id now [] = ground arith
count-adjust-used e id now ((j, v) ∷ t) = ground (arith, count-adjust-used e id now t)

pub count-delete_many :
    (e now : ℕ) (t : Table EmailVerification)
    → count (unused_for e) (delete_many (is_old now) t) ≤ count (unused_for e) t
count-delete_many e now [] = ground arith
count-delete_many e now ((j, v) ∷ t) = ground (arith, count-delete_many e now t)

delete_many-absent :
    (k now : ℕ) (t : Table EmailVerification)
    → find k t ≡ none
    → find k (delete_many (is_old now) t) ≡ none
delete_many-absent k now [] h = refl
delete_many-absent k now ((j, v) ∷ t) h = ground (arith, delete_many-absent k now t)

delete_many-IsKeyed :
    (now : ℕ) (t : Table EmailVerification) → IsKeyed t → IsKeyed (delete_many (is_old now) t)
delete_many-IsKeyed now [] h = tt
delete_many-IsKeyed now ((j, v) ∷ t) (new, h) =
    let rest = delete_many-IsKeyed now t h in
    let kept = delete_many (is_old now) t in
    elim (Bool-cases (is_old now j v)) [
      | inl e ↦
          let same : delete_many (is_old now) ((j, v) ∷ t) ≡ kept = ground arith in
          subst IsKeyed (sym same) rest
      | inr e ↦
          let same : delete_many (is_old now) ((j, v) ∷ t) ≡ (j, v) ∷ kept = ground arith in
          subst IsKeyed (sym same) (delete_many-absent j now t new, rest)
    ]

send_code-AreSingle :
    (id code email now : ℕ) (db : Store)
    → AreSingle db.email_verifications
    → AreSingle (send_code id code email now db).1.email_verifications
unfolding send_code
send_code-AreSingle id code email now db h =
    let t = update_many (unused_for email) (set_used now) db.email_verifications in
    let keyed =
      update_many-IsKeyed (unused_for email) (set_used now) db.email_verifications h.keyed in
    let left = (send_code id code email now db).1.email_verifications in
    let less = λ (e : ℕ).
      le_trans (count-update_many-less e email now db.email_verifications) (h.single e) in
    elim (Bool-cases (is_cooling (find email db.email_cooldowns) now)) [
      | inl f ↦
          let same : left ≡ db.email_verifications = ground arith in subst AreSingle (sym same) h
      | inr f ↦ elim (Option-cases (find id t)) [
        | inr (v, g) ↦
            let same : left ≡ t = ground arith in
            subst AreSingle (sym same) (record { keyed = keyed; single = less })
        | inl g ↦
            let v : EmailVerification = record {
              email = email;
              code = code;
              expires_at = now + code_ttl_sec * 1000;
              used_at = none;
            } in
            let same : left ≡ insert id v t = ground arith in
            subst AreSingle (sym same) (record {
              keyed = (g, keyed);
              single = λ e.
                  let old = less e in
                  let none_left = count-update_many-used email now db.email_verifications in
                  ground (arith, ==_iff email e);
            })
      ]
    ]

verify_code-AreSingle :
    (email code now : ℕ) (db : Store)
    → AreSingle db.email_verifications
    → AreSingle (verify_code email code now db).1.email_verifications
unfolding verify_code
verify_code-AreSingle email code now db h =
    let left = (verify_code email code now db).1.email_verifications in
    elim (Option-cases (find_first (is_valid email code now) db.email_verifications)) [
      | inl f ↦
          let same : left ≡ db.email_verifications = ground arith in subst AreSingle (sym same) h
      | inr (row, f) ↦
          let same : left ≡ adjust row.0 (set_used now) db.email_verifications = ground arith in
          subst AreSingle (sym same) (record {
            keyed = adjust-IsKeyed row.0 (set_used now) db.email_verifications h.keyed;
            single =
                λ e. le_trans (count-adjust-used e row.0 now db.email_verifications) (h.single e);
          })
    ]

-- The calls about codes.
pub data Call : Type 0 where
  sends : (id code email now : ℕ) → Call
  verifies : (email code now : ℕ) → Call
  cleans : (now : ℕ) → Call

unfoldable pub perform : Call → Store → Store
unfolding send_code verify_code cleanup_expired
perform (sends id code email now) db = (send_code id code email now db).1
perform (verifies email code now) db = (verify_code email code now db).1
perform (cleans now) db = (cleanup_expired now db).1

unfoldable pub perform_all : List Call → Store → Store
unfolding perform
perform_all [] db = db
perform_all (c ∷ cs) db = perform_all cs (perform c db)

perform-AreSingle :
    (c : Call) (db : Store)
    → AreSingle db.email_verifications
    → AreSingle (perform c db).email_verifications
unfolding perform
perform-AreSingle (sends id code email now) db h = send_code-AreSingle id code email now db h
perform-AreSingle (verifies email code now) db h = verify_code-AreSingle email code now db h
perform-AreSingle (cleans now) db h = record {
  keyed = delete_many-IsKeyed now db.email_verifications h.keyed;
  single = λ e. le_trans (count-delete_many e now db.email_verifications) (h.single e);
}

pub perform_all-AreSingle :
    (cs : List Call) (db : Store)
    → AreSingle db.email_verifications
    → AreSingle (perform_all cs db).email_verifications
unfolding perform_all
perform_all-AreSingle [] db h = h
perform_all-AreSingle (c ∷ cs) db h =
    perform_all-AreSingle cs (perform c db) (perform-AreSingle c db h)
