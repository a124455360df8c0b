-- ===== src/Application/Inviter.antt =====
-- The inviter of a new merchant.
use winmelon_card.Base.{ℕ, ◌≡◌, ap, ◌∙◌, Option, none, some, ◌∷◌, arith, ==_refl}
use winmelon_card.Base.Text.{Text}
use winmelon_card.Base.Table.{Table, find, insert, adjust}
use winmelon_card.Base.Result.{ok}
use winmelon_card.Schema.{Merchant, MerchantApplication, InviteCode}
use winmelon_card.Schema.Action.{Action, ⊤}
use winmelon_card.Schema.Store.{Store, merchant_approve}
use winmelon_card.Application.{
  AccountKeys, activate, approve, create_account, inviter_of_code, new_merchant, set_approved,
}
use winmelon_card.Application.Step.{create_account-IsCreated, check_token-left, generate-others}

-- The merchant of a new account.
abbrev found : AccountKeys → Store → Option Merchant
found keys db = find keys.merchant_id db.merchants

activate-found :
    (sha256 : ℕ → ℕ) (bcrypt : Text → ℕ) (keys : AccountKeys) (id token : ℕ) (password : Text)
    (now : ℕ) (db : Store) (a : MerchantApplication)
    → find id db.applications ≡ some a
    → (activate sha256 bcrypt keys id token password now db).0 ≡ ok tt
    → found keys (activate sha256 bcrypt keys id token password now db).1
      ≡ some (new_merchant a (inviter_of_code a.invite_code db.invite_codes) now)
unfolding activate
activate-found sha256 bcrypt keys id token password now db a e good =
    let (same, waits) = check_token-left sha256 token a now db in
    let inviter = inviter_of_code a.invite_code db.invite_codes in
    let run = create_account keys a (bcrypt password) inviter now db in
    let made = create_account-IsCreated keys a (bcrypt password) inviter now db (ground arith) in
    let ms = made.merchants_after in
    let is : (activate sha256 bcrypt keys id token password now db).1.merchants
        ≡ insert keys.merchant_id (new_merchant a inviter now) db.merchants =
      ground arith in
    ap (find keys.merchant_id) is ∙ ground (arith, ==_refl keys.merchant_id)

approve-found :
    (sha256 : ℕ → ℕ) (keys : AccountKeys) (admin id secret token_id token now : ℕ) (db : Store)
    (a : MerchantApplication)
    → find id db.applications ≡ some a
    → (approve sha256 keys admin id secret token_id token now db).0 ≡ ok tt
    → found keys (approve sha256 keys admin id secret token_id token now db).1
      ≡ some (new_merchant a none now)
unfolding approve
approve-found sha256 keys admin id secret token_id token now db a e good =
    let run = create_account keys a secret none now db in
    let made = create_account-IsCreated keys a secret none now db (ground arith) in
    let ms = made.merchants_after in
    let mid : Store = record run.1 {
      applications = adjust id (set_approved keys admin now) run.1.applications;
      audit_logs = record { action = merchant_approve; resource_id = id } ∷ run.1.audit_logs;
    } in
    let (apps', ms', ss') =
      generate-others token_id (sha256 token) a.contact_email (some keys.user_id) now mid in
    let is : (approve sha256 keys admin id secret token_id token now db).1.merchants
        ≡ insert keys.merchant_id (new_merchant a none now) db.merchants =
      ground arith in
    ap (find keys.merchant_id) is ∙ ground (arith, ==_refl keys.merchant_id)

-- The two ways in which an application becomes an account.
pub data Opening : Type 0 where
  by_applicant : (ℕ → ℕ) → (Text → ℕ) → AccountKeys → (id token : ℕ) → Text → (now : ℕ) → Opening
  by_admin : (ℕ → ℕ) → AccountKeys → (admin id secret token_id token now : ℕ) → Opening

unfoldable pub open_account : Opening → Action ⊤
unfolding activate approve
open_account (by_applicant sha256 bcrypt keys id token password now) =
    activate sha256 bcrypt keys id token password now
open_account (by_admin sha256 keys admin id secret token_id token now) =
    approve sha256 keys admin id secret token_id token now

abbrev pub application_of : Opening → ℕ
application_of (by_applicant sha256 bcrypt keys id token password now) = id
application_of (by_admin sha256 keys admin id secret token_id token now) = id

abbrev pub keys_of : Opening → AccountKeys
keys_of (by_applicant sha256 bcrypt keys id token password now) = keys
keys_of (by_admin sha256 keys admin id secret token_id token now) = keys

abbrev pub now_of : Opening → ℕ
now_of (by_applicant sha256 bcrypt keys id token password now) = now
now_of (by_admin sha256 keys admin id secret token_id token now) = now

-- The inviter that each way gives: that of the application's code, or none.
abbrev pub inviter_by : Opening → Option ℕ → Table InviteCode → Option ℕ
inviter_by (by_applicant sha256 bcrypt keys id token password now) code codes =
    inviter_of_code code codes
inviter_by (by_admin sha256 keys admin id secret token_id token now) code codes = none

-- Whenever an activation or an approval of an application succeeds, there is a merchant under the new
-- key with the data of the application. If the applicant activated it, its inviter is that of the
-- application's code; if an administrator approved it, it has no inviter, whatever code the
-- application has.
pub open_account-inviter_by :
    (c : Opening) (db : Store) (a : MerchantApplication)
    → find (application_of c) db.applications ≡ some a
    → (open_account c db).0 ≡ ok tt
    → find (keys_of c).merchant_id (open_account c db).1.merchants
      ≡ some (new_merchant a (inviter_by c a.invite_code db.invite_codes) (now_of c))
unfolding open_account
open_account-inviter_by (by_applicant sha256 bcrypt keys id token password now) db a e good =
    activate-found sha256 bcrypt keys id token password now db a e good
open_account-inviter_by (by_admin sha256 keys admin id secret token_id token now) db a e good =
    approve-found sha256 keys admin id secret token_id token now db a e good
