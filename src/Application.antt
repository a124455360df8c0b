-- ===== src/Application.antt =====
-- apps/api/src/modules/merchant-application/merchant-application.service.ts: an application for a
-- merchant's account, and its activation, approval or rejection. The hashes, the identifiers and
-- tokens of new rows and the time are arguments; e-mails, names of shops and the fields that only
-- describe an applicant are left out.
pub mod Email
pub mod Token
pub mod Step
pub mod Calls
pub mod Granted
pub mod Taken
pub mod Inviter
pub mod Codes
pub mod Spent
mod Tests
use winmelon_card.Base.{
  ℕ, ◌+◌, ◌*◌, Bool, true, false, ◌&&◌, ◌||◌, Option, none, some, List, [], ◌∷◌, ◌==◌, ltb, leb,
  if◌then◌else◌, is_none, length,
}
use winmelon_card.Base.Int.{pos}
use winmelon_card.Base.Text.{Text}
use winmelon_card.Base.Table.{Table, find, find_first, insert, adjust}
use winmelon_card.Base.Result.{
  bad_request, not_found, unique_violation, code_taken, email_taken, bad_token, bad_password,
  bad_status, row_missing,
}
use winmelon_card.Schema.{
  Merchant, MerchantStatus, LeaderboardMode, Shop, User, UserRole, InviteCode, MerchantApplication,
  ApplicationStatus,
}
use winmelon_card.Schema.Store.{
  Store, merchant_activate, merchant_approve, merchant_reject, merchant_approved,
}
use winmelon_card.Schema.Action.{
  Action, ⊤, pure, gets, or_throw, throw_if, modify, transaction, record_audit, emit, ◌>>=◌, ◌>>◌,
}
use winmelon_card.Application.Email.{verify_code}
use winmelon_card.Application.Token.{generate, live_user}

abbrev pub activation_token_ttl_min : ℕ
activation_token_ttl_min = 30

-- `ApplyMerchantDto` with the verification code.
pub record ApplyMerchant : Type 0 where
  pub contact_email : ℕ
  pub merchant_name : Text
  pub shop_code : ℕ
  pub verification_code : ℕ
  pub invite_code : Option ℕ

abbrev pub applied_for : ℕ → ℕ → MerchantApplication → Bool
applied_for code id a = a.shop_code == code

abbrev pub shop_coded : ℕ → ℕ → Shop → Bool
shop_coded code id s = s.code == code

abbrev pub invite_coded : ℕ → ℕ → InviteCode → Bool
invite_coded code id c = c.code == code

abbrev pub exists : {A : Type 0} → Option A → Bool
exists o = if is_none o then false else true

-- Step 3.5 of `apply`.
abbrev pub check_invite : Option ℕ → Action ⊤
check_invite none = pure tt
check_invite (some c) = do
  throw_if (← gets (λ db. is_none (find_first (invite_coded c) db.invite_codes)))
      (bad_request row_missing)

abbrev pub new_application : ApplyMerchant → ℕ → ℕ → MerchantApplication
new_application dto hash now = record {
  contact_email = dto.contact_email;
  merchant_name = dto.merchant_name;
  shop_code = dto.shop_code;
  status = ApplicationStatus.pending;
  reject_reason = none;
  reviewed_by_id = none;
  reviewed_at = none;
  approved_merchant_id = none;
  invite_code = dto.invite_code;
  activation_token_hash = some hash;
  activation_expires_at = some (now + activation_token_ttl_min * 60 * 1000);
  activated_at = none;
}

abbrev pub same_application : ℕ → ℕ → ℕ → MerchantApplication → Bool
same_application id code j a = if j == id then true else a.shop_code == code

-- `apply`
unfoldable pub apply : (ℕ → ℕ) → ℕ → ℕ → ApplyMerchant → ℕ → Action ⊤
unfolding verify_code
apply sha256 id token dto now = do
  throw_if (← gets (λ db. exists (find_first (applied_for dto.shop_code) db.applications)))
      (bad_request code_taken)
  throw_if (← gets (λ db. exists (find_first (shop_coded dto.shop_code) db.shops)))
      (bad_request code_taken)
  throw_if (← gets (λ db. exists (find_first (live_user dto.contact_email) db.users)))
      (bad_request email_taken)
  verify_code dto.contact_email dto.verification_code now
  check_invite dto.invite_code
  throw_if (← gets (λ db. exists (find_first (same_application id dto.shop_code) db.applications)))
      unique_violation
  modify (λ db. record db {
    applications = insert id (new_application dto (sha256 token) now) db.applications;
  })

abbrev pub is_pending : ApplicationStatus → Bool
is_pending ApplicationStatus.pending = true
is_pending ApplicationStatus.approved = false
is_pending ApplicationStatus.rejected = false

-- The checks of the link that `validateActivationToken` and `activate` share.
unfoldable pub check_token : (ℕ → ℕ) → ℕ → MerchantApplication → ℕ → Action ⊤
check_token sha256 token a now = do
  throw_if (if is_pending a.status then false else true) (bad_request bad_status)
  hash ← or_throw a.activation_token_hash (bad_request bad_token)
  expires ← or_throw a.activation_expires_at (bad_request bad_token)
  throw_if (ltb expires now) (bad_request bad_token)
  throw_if (if sha256 token == hash then false else true) (bad_request bad_token)

-- `validateActivationToken`
unfoldable pub validate_activation_token : (ℕ → ℕ) → ℕ → ℕ → ℕ → Action MerchantApplication
unfolding check_token
validate_activation_token sha256 id token now = do
  a ← or_throw (← gets (λ db. find id db.applications)) (bad_request bad_token)
  check_token sha256 token a now
  pure a

-- The identifiers of the rows of a new account.
pub record AccountKeys : Type 0 where
  pub merchant_id : ℕ
  pub shop_id : ℕ
  pub user_id : ℕ

abbrev pub new_merchant : MerchantApplication → Option ℕ → ℕ → Merchant
new_merchant a inviter now = record {
  code = a.shop_code;
  contact_email = a.contact_email;
  balance = pos 0;
  freeze_balance = pos 0;
  total_withdrawn = pos 0;
  name = a.merchant_name;
  inviter_merchant_id = inviter;
  invited_at = if is_none inviter then none else some now;
  allow_buyer_invite_code = false;
  distribution_suspended_at = none;
  withdrawal_suspended_at = none;
  leaderboard_display_mode = LeaderboardMode.top10;
  leaderboard_name = none;
  status = MerchantStatus.active;
  frozen_at = none;
  penalty_status = none;
  penalty_reason = none;
  penalty_started_at = none;
  deleted_at = none;
}

abbrev pub new_shop : AccountKeys → MerchantApplication → Shop
new_shop keys a = record { merchant_id = keys.merchant_id; code = a.shop_code; is_online = false }

abbrev pub same_merchant : ℕ → ℕ → ℕ → Merchant → Bool
same_merchant id code j m = if j == id then true else m.code == code

abbrev pub same_shop : ℕ → ℕ → ℕ → Shop → Bool
same_shop id code j s = if j == id then true else s.code == code

abbrev pub same_user : ℕ → ℕ → ℕ → User → Bool
same_user id email j u = if j == id then true else u.username == email || u.email == email

-- The three `create` calls of the transactions; a row that clashes with a unique index is refused.
unfoldable pub create_account : AccountKeys → MerchantApplication → ℕ → Option ℕ → ℕ → Action ⊤
create_account keys a password_hash inviter now = do
  throw_if
      (← gets (λ db. exists (find_first (same_merchant keys.merchant_id a.shop_code) db.merchants)))
      unique_violation
  throw_if (← gets (λ db. exists (find_first (same_shop keys.shop_id a.shop_code) db.shops)))
      unique_violation
  throw_if (← gets (λ db. exists (find_first (same_user keys.user_id a.contact_email) db.users)))
      unique_violation
  modify (λ db. record db {
    merchants = insert keys.merchant_id (new_merchant a inviter now) db.merchants;
    shops = insert keys.shop_id (new_shop keys a) db.shops;
    users =
        insert keys.user_id
          (record {
            username = a.contact_email;
            email = a.contact_email;
            password_hash = password_hash;
            role = UserRole.merchant;
            merchant_id = some keys.merchant_id;
            is_active = true;
            token_epoch = 0;
            deleted_at = none;
          })
          db.users;
  })

abbrev pub set_activated : AccountKeys → ℕ → MerchantApplication → MerchantApplication
set_activated keys now a = record a {
  status = ApplicationStatus.approved;
  reviewed_at = some now;
  reviewed_by_id = some keys.user_id;
  approved_merchant_id = some keys.merchant_id;
  activated_at = some now;
  activation_token_hash = none;
  activation_expires_at = none;
}

abbrev pub is_letter : ℕ → Bool
is_letter c = (leb 65 c && leb c 90) || (leb 97 c && leb c 122)

abbrev pub is_digit : ℕ → Bool
is_digit c = leb 48 c && leb c 57

abbrev pub any_of : (ℕ → Bool) → Text → Bool
any_of p [] = false
any_of p (c ∷ s) = p c || any_of p s

abbrev pub is_weak : Text → Bool
is_weak p =
    ltb (length p) 8
    || ltb 64 (length p)
    || (if any_of is_letter p then false else true)
    || (if any_of is_digit p then false else true)

abbrev pub inviter_of_code : Option ℕ → Table InviteCode → Option ℕ
inviter_of_code none t = none
inviter_of_code (some c) t = elim (find_first (invite_coded c) t) [
  | none ↦ none
  | some row ↦ some row.1.inviter_merchant_id
]

-- `activate`
unfoldable pub activate : (ℕ → ℕ) → (Text → ℕ) → AccountKeys → ℕ → ℕ → Text → ℕ → Action ⊤
unfolding check_token create_account
activate sha256 bcrypt keys id token password now = do
  throw_if (is_weak password) (bad_request bad_password)
  a ← or_throw (← gets (λ db. find id db.applications)) (not_found row_missing)
  check_token sha256 token a now
  throw_if (← gets (λ db. exists (find_first (shop_coded a.shop_code) db.shops)))
      (bad_request code_taken)
  throw_if (← gets (λ db. exists (find_first (live_user a.contact_email) db.users)))
      (bad_request email_taken)
  inviter ← gets (λ db. inviter_of_code a.invite_code db.invite_codes)
  transaction (do
    create_account keys a (bcrypt password) inviter now
    modify (λ db. record db { applications = adjust id (set_activated keys now) db.applications }))
  record_audit merchant_activate id

abbrev pub set_approved : AccountKeys → ℕ → ℕ → MerchantApplication → MerchantApplication
set_approved keys admin now a = record a {
  status = ApplicationStatus.approved;
  reviewed_at = some now;
  reviewed_by_id = some admin;
  approved_merchant_id = some keys.merchant_id;
}

-- `approve`; `secret` is the hash of a random password, `token_id` and `token` are of the link.
unfoldable pub approve : (ℕ → ℕ) → AccountKeys → (admin id secret token_id token now : ℕ) → Action ⊤
unfolding create_account generate
approve sha256 keys admin id secret token_id token now = do
  a ← or_throw (← gets (λ db. find id db.applications)) (not_found row_missing)
  throw_if (if is_pending a.status then false else true) (bad_request bad_status)
  transaction (do
    create_account keys a secret none now
    modify (λ db. record db {
      applications = adjust id (set_approved keys admin now) db.applications;
    }))
  record_audit merchant_approve id
  generate token_id (sha256 token) a.contact_email (some keys.user_id) now
  emit (merchant_approved a.contact_email)

abbrev pub set_rejected : Text → ℕ → ℕ → MerchantApplication → MerchantApplication
set_rejected reason admin now a = record a {
  status = ApplicationStatus.rejected;
  reject_reason = some reason;
  reviewed_by_id = some admin;
  reviewed_at = some now;
}

-- `reject`
unfoldable pub reject : ℕ → Text → ℕ → ℕ → Action ⊤
reject id reason admin now = do
  a ← or_throw (← gets (λ db. find id db.applications)) (not_found row_missing)
  throw_if (if is_pending a.status then false else true) (bad_request bad_status)
  modify
      (λ db. record db { applications = adjust id (set_rejected reason admin now) db.applications })
  record_audit merchant_reject id
