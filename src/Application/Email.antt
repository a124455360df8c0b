-- ===== src/Application/Email.antt =====
-- apps/api/src/modules/merchant-application/email-verification.service.ts: the codes that an
-- applicant gets by e-mail. The random code, the identifier of its row and the time are arguments;
-- the e-mail itself is left out. The mark of the cooldown in Redis carries the time of its end.
use winmelon_card.Base.{
  ℕ, ◌+◌, ◌*◌, Bool, true, false, ◌&&◌, Option, none, some, ◌==◌, ltb, if◌then◌else◌, is_none,
}
use winmelon_card.Base.Table.{find, find_first, insert, adjust, update_many, delete_many}
use winmelon_card.Base.Result.{bad_request, unique_violation, bad_code, cooling}
use winmelon_card.Schema.{EmailVerification}
use winmelon_card.Schema.Action.{Action, ⊤, pure, gets, or_throw, throw_if, modify, ◌>>=◌, ◌>>◌}

abbrev pub code_ttl_sec : ℕ
code_ttl_sec = 10 * 60

abbrev pub resend_cooldown_sec : ℕ
resend_cooldown_sec = 60

-- `ttl > 0`
abbrev pub is_cooling : Option ℕ → ℕ → Bool
is_cooling none now = false
is_cooling (some until) now = ltb now until

-- `{ email, usedAt: null }`
abbrev pub unused_for : ℕ → ℕ → EmailVerification → Bool
unused_for email id v = v.email == email && is_none v.used_at

abbrev pub set_used : ℕ → EmailVerification → EmailVerification
set_used now v = record v { used_at = some now }

-- `sendCode`
unfoldable pub send_code : ℕ → ℕ → ℕ → ℕ → Action ℕ
send_code id code email now = do
  throw_if (← gets (λ db. is_cooling (find email db.email_cooldowns) now)) (bad_request cooling)
  modify (λ db. record db {
    email_verifications = update_many (unused_for email) (set_used now) db.email_verifications;
  })
  clash ← gets (λ db. find id db.email_verifications)
  throw_if (if is_none clash then false else true) unique_violation
  modify (λ db. record db {
    email_verifications =
        insert id
          (record {
            email = email;
            code = code;
            expires_at = now + code_ttl_sec * 1000;
            used_at = none;
          })
          db.email_verifications;
  })
  modify (λ db. record db {
    email_cooldowns = insert email (now + resend_cooldown_sec * 1000) db.email_cooldowns;
  })
  pure resend_cooldown_sec

-- `{ email, code, usedAt: null, expiresAt: { gt: now } }`
abbrev pub is_valid : ℕ → ℕ → ℕ → ℕ → EmailVerification → Bool
is_valid email code now id v = unused_for email id v && v.code == code && ltb now v.expires_at

-- `verifyCode`
unfoldable pub verify_code : ℕ → ℕ → ℕ → Action ⊤
verify_code email code now = do
  row ←
      or_throw (← gets (λ db. find_first (is_valid email code now) db.email_verifications))
        (bad_request bad_code)
  modify
      (λ db. record db { email_verifications = adjust row.0 (set_used now) db.email_verifications })

abbrev pub is_old : ℕ → ℕ → EmailVerification → Bool
is_old now id v = ltb (v.expires_at + 24 * 60 * 60 * 1000) now

-- `cleanupExpired`
unfoldable pub cleanup_expired : ℕ → Action ⊤
cleanup_expired now =
    modify
      (λ db. record db { email_verifications = delete_many (is_old now) db.email_verifications })
