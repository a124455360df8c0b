-- ===== src/Application/Calls.antt =====
-- Any sequence of applications and decisions.
use winmelon_card.Base.{ℕ, refl, List, [], ◌∷◌, arith}
use winmelon_card.Base.Text.{Text}
use winmelon_card.Base.Table.{}
use winmelon_card.Schema.Store.{Store}
use winmelon_card.Application.{ApplyMerchant, AccountKeys, apply, activate, approve, reject}
use winmelon_card.Application.Email.{send_code, cleanup_expired}
use winmelon_card.Application.Step.{
  Step, skip, apply-Step, activate-Step, approve-Step, reject-Step,
}

pub data Call : Type 0 where
  sends : (id code email now : ℕ) → Call
  applies : (ℕ → ℕ) → (id token : ℕ) → ApplyMerchant → (now : ℕ) → Call
  activates : (ℕ → ℕ) → (Text → ℕ) → AccountKeys → (id token : ℕ) → Text → (now : ℕ) → Call
  approves : (ℕ → ℕ) → AccountKeys → (admin id secret token_id token now : ℕ) → Call
  rejects : (id : ℕ) → Text → (admin now : ℕ) → Call
  cleans : (now : ℕ) → Call

unfoldable pub perform : Call → Store → Store
unfolding send_code apply activate approve reject cleanup_expired
perform (sends id code email now) db = (send_code id code email now db).1
perform (applies sha256 id token dto now) db = (apply sha256 id token dto now db).1
perform (activates sha256 bcrypt keys id token password now) db =
    (activate sha256 bcrypt keys id token password now db).1
perform (approves sha256 keys admin id secret token_id token now) db =
    (approve sha256 keys admin id secret token_id token now db).1
perform (rejects id reason admin now) db = (reject id reason admin now db).1
perform (cleans now) db = (cleanup_expired now db).1

unfoldable pub perform_all : List Call → Store → Store
unfolding perform
perform_all [] db = db
perform_all (c ∷ cs) db = perform_all cs (perform c db)

send_code-Step : (id code email now : ℕ) (db : Store) → Step db (send_code id code email now db).1
unfolding send_code
send_code-Step id code email now db = skip (ground arith) (ground arith) (ground arith)

cleanup_expired-Step : (now : ℕ) (db : Store) → Step db (cleanup_expired now db).1
unfolding cleanup_expired
cleanup_expired-Step now db = skip refl refl refl

pub perform-Step : (c : Call) (db : Store) → Step db (perform c db)
unfolding perform
perform-Step (sends id code email now) db = send_code-Step id code email now db
perform-Step (applies sha256 id token dto now) db = apply-Step sha256 id token dto now db
perform-Step (activates sha256 bcrypt keys id token password now) db =
    activate-Step sha256 bcrypt keys id token password now db
perform-Step (approves sha256 keys admin id secret token_id token now) db =
    approve-Step sha256 keys admin id secret token_id token now db
perform-Step (rejects id reason admin now) db = reject-Step id reason admin now db
perform-Step (cleans now) db = cleanup_expired-Step now db
