-- ===== src/Application/Token.antt =====
-- apps/api/src/modules/auth/activation.service.ts: the links with which an approved merchant sets a
-- password. The random token, the hashes and the time are arguments; the access token of the reply
-- is left out.
use winmelon_card.Base.{
  ℕ, ◌+◌, ◌*◌, Bool, true, false, Option, none, some, ◌==◌, ◌&&◌, ltb, if◌then◌else◌, is_none,
  length,
}
use winmelon_card.Base.Text.{Text}
use winmelon_card.Base.Table.{find_first, insert, adjust}
use winmelon_card.Base.Result.{
  bad_request, unique_violation, bad_token, bad_password, row_missing, inactive,
}
use winmelon_card.Schema.{ActivationToken, User}
use winmelon_card.Schema.Store.{auth_activate}
use winmelon_card.Schema.Action.{
  Action, ⊤, pure, gets, or_throw, throw_if, modify, record_audit, ◌>>=◌, ◌>>◌,
}

abbrev pub token_ttl_hours : ℕ
token_ttl_hours = 48

abbrev pub with_token : ℕ → ℕ → ActivationToken → Bool
with_token hash id t = t.token == hash

abbrev same_token : ℕ → ℕ → ℕ → ActivationToken → Bool
same_token id hash j t = if j == id then true else t.token == hash

-- `generate`, under the hash of the token.
unfoldable pub generate : ℕ → ℕ → ℕ → Option ℕ → ℕ → Action ⊤
generate id hash email user now = do
  clash ← gets (λ db. find_first (same_token id hash) db.activation_tokens)
  throw_if (if is_none clash then false else true) unique_violation
  modify (λ db. record db {
    activation_tokens =
        insert id
          (record {
            token = hash;
            email = email;
            user_id = user;
            expires_at = now + token_ttl_hours * 60 * 60 * 1000;
            used_at = none;
          })
          db.activation_tokens;
  })

-- `validate`
unfoldable pub validate : ℕ → ℕ → Action (ℕ × ActivationToken)
validate hash now = do
  row ←
      or_throw (← gets (λ db. find_first (with_token hash) db.activation_tokens))
        (bad_request bad_token)
  throw_if (if is_none row.1.used_at then false else true) (bad_request bad_token)
  throw_if (ltb row.1.expires_at now) (bad_request bad_token)
  pure row

abbrev pub live_user : ℕ → ℕ → User → Bool
live_user email id u = u.email == email && is_none u.deleted_at

abbrev pub set_token_used : ℕ → ℕ → ActivationToken → ActivationToken
set_token_used user now t = record t { used_at = some now; user_id = some user }

abbrev pub set_password : ℕ → User → User
set_password hash u = record u { password_hash = hash; token_epoch = u.token_epoch + 1 }

-- `activate`
unfoldable pub activate_user : (ℕ → ℕ) → (Text → ℕ) → ℕ → Text → ℕ → Action ⊤
unfolding validate
activate_user sha256 bcrypt token password now = do
  throw_if (ltb (length password) 8) (bad_request bad_password)
  row ← validate (sha256 token) now
  user ←
      or_throw (← gets (λ db. find_first (live_user row.1.email) db.users))
        (bad_request row_missing)
  throw_if (if user.1.is_active then false else true) (bad_request inactive)
  modify (λ db. record db {
    activation_tokens = adjust row.0 (set_token_used user.0 now) db.activation_tokens;
    users = adjust user.0 (set_password (bcrypt password)) db.users;
  })
  record_audit auth_activate user.0
