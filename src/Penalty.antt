-- ===== src/Penalty.antt =====
-- apps/api/src/modules/penalty/penalty.service.ts: penalties of merchants and their appeals. Days are
-- counted so that the remainder by 7 is `getDay`; of the deadline's time of day, 23:59:59.999, the
-- model has the day's last millisecond. The time of a call and the identifier of a row are arguments.
pub mod Deadline
pub mod Single
pub mod Calls
mod Tests
use winmelon_card.Base.{
  ℕ, zero, suc, ◌+◌, ◌*◌, ◌/◌, ◌%◌, Bool, true, false, ◌&&◌, ◌||◌, Option, none, some, List, [],
  ◌∷◌, ◌==◌, ltb, if◌then◌else◌, is_none,
}
use winmelon_card.Base.Int.{ℤ}
use winmelon_card.Base.Text.{Text}
use winmelon_card.Base.Table.{Table, find, find_many, insert, adjust}
use winmelon_card.Base.Result.{
  not_found, bad_request, unique_violation, failure, merchant_missing, row_missing, bad_status,
  duplicate, foreign_card, order_expired, ok, err,
}
use winmelon_card.Schema.{
  Merchant, MerchantStatus, MerchantPenalty, MerchantPenaltyStatus, PenaltyType, PenaltyAction,
  PenaltyStatus,
}
use winmelon_card.Schema.Store.{Store, merchant_penalty_create, merchant_penalty_process}
use winmelon_card.Schema.Action.{
  Action, ⊤, pure, gets, or_throw, throw_if, modify, record_audit, update_merchant, catch, ◌>>=◌,
  ◌>>◌,
}

abbrev pub appeal_business_days : ℕ
appeal_business_days = 3

abbrev pub ms_per_day : ℕ
ms_per_day = 86400000

-- `day !== 0 && day !== 6`
abbrev pub is_workday : ℕ → Bool
is_workday day = if day % 7 == 0 then false else if day % 7 == 6 then false else true

-- The loop of `addBusinessDays`, on fuel: the day once `left` more workdays are counted; `none` where
-- the fuel is out.
abbrev pub add_days : ℕ → ℕ → ℕ → Option ℕ
add_days fuel zero day = some day
add_days zero (suc left) day = none
add_days (suc fuel) (suc left) day = elim (is_workday (suc day)) [
  | true ↦ add_days fuel left (suc day)
  | false ↦ add_days fuel (suc left) (suc day)
]

-- Enough for three workdays from any day.
abbrev pub days_fuel : ℕ
days_fuel = 5

abbrev pub deadline_of : ℕ → Option ℕ
deadline_of now = elim (add_days days_fuel appeal_business_days (now / ms_per_day)) [
  | none ↦ none
  | some day ↦ some (day * ms_per_day + 86399999)
]

-- The parameters of `createPenalty`.
pub record PenaltyRequest : Type 0 where
  pub merchant_id : ℕ
  pub kind : PenaltyType
  pub action : PenaltyAction
  pub reason : Text
  pub amount : Option ℤ

abbrev pub is_pending_penalty : Option MerchantPenaltyStatus → Bool
is_pending_penalty none = false
is_pending_penalty (some MerchantPenaltyStatus.pending_penalty) = true
is_pending_penalty (some MerchantPenaltyStatus.penalty_executed) = false

abbrev pub new_penalty : PenaltyRequest → ℕ → MerchantPenalty
new_penalty p deadline = record {
  merchant_id = p.merchant_id;
  kind = p.kind;
  action = p.action;
  status = PenaltyStatus.pending;
  reason = p.reason;
  amount = p.amount;
  appeal_deadline = deadline;
  appeal_content = none;
  appealed_at = none;
  executed_at = none;
}

abbrev pub mark_merchant : Text → ℕ → Merchant → Merchant
mark_merchant reason now m = record m {
  penalty_status = some MerchantPenaltyStatus.pending_penalty;
  penalty_reason = some reason;
  penalty_started_at = some now;
}

-- `notification.notifyMerchant`
abbrev pub notify_merchant : ℕ → Action ⊤
notify_merchant k = modify (λ db. record db { notifications = k ∷ db.notifications })

-- `tx.merchantPenalty.update({ where: { id } })`
abbrev pub update_penalty : ℕ → (MerchantPenalty → MerchantPenalty) → Action ⊤
update_penalty id f db = elim (find id db.merchant_penalties) [
  | none ↦ (err failure, db)
  | some p ↦ (ok tt, record db { merchant_penalties = adjust id f db.merchant_penalties })
]

-- `createPenalty`
unfoldable pub create_penalty : ℕ → PenaltyRequest → ℕ → Action ⊤
create_penalty id p now = do
  m ← or_throw (← gets (λ db. find p.merchant_id db.merchants)) (not_found merchant_missing)
  throw_if (is_pending_penalty m.penalty_status) (bad_request duplicate)
  deadline ← or_throw (deadline_of now) failure
  clash ← gets (λ db. find id db.merchant_penalties)
  throw_if (if is_none clash then false else true) unique_violation
  modify (λ db. record db {
    merchant_penalties = insert id (new_penalty p deadline) db.merchant_penalties;
  })
  update_merchant p.merchant_id (mark_merchant p.reason now)
  notify_merchant p.merchant_id
  record_audit merchant_penalty_create id

abbrev pub is_pending : PenaltyStatus → Bool
is_pending PenaltyStatus.pending = true
is_pending _ = false

abbrev pub is_open : PenaltyStatus → Bool
is_open PenaltyStatus.pending = true
is_open PenaltyStatus.appealed = true
is_open _ = false

abbrev pub set_appealed : Text → ℕ → MerchantPenalty → MerchantPenalty
set_appealed content now p = record p {
  status = PenaltyStatus.appealed;
  appeal_content = some content;
  appealed_at = some now;
}

-- `appealPenalty`
unfoldable pub appeal_penalty : ℕ → ℕ → Text → ℕ → Action ⊤
appeal_penalty id merchant_id content now = do
  p ← or_throw (← gets (λ db. find id db.merchant_penalties)) (not_found row_missing)
  throw_if (if p.merchant_id == merchant_id then false else true) (bad_request foreign_card)
  throw_if (if is_pending p.status then false else true) (bad_request bad_status)
  throw_if (ltb p.appeal_deadline now) (bad_request order_expired)
  update_penalty id (set_appealed content now)

abbrev pub punish : PenaltyAction → ℕ → Merchant → Merchant
punish PenaltyAction.freeze_account now m = record m {
  status = MerchantStatus.suspended;
  frozen_at = some now;
  penalty_status = some MerchantPenaltyStatus.penalty_executed;
}
punish PenaltyAction.suspend_distribution now m = record m {
  distribution_suspended_at = some now;
  allow_buyer_invite_code = false;
  penalty_status = some MerchantPenaltyStatus.penalty_executed;
}
punish PenaltyAction.reverse_commission now m = record m {
  withdrawal_suspended_at = some now;
  penalty_status = some MerchantPenaltyStatus.penalty_executed;
}

abbrev pub close : PenaltyStatus → ℕ → MerchantPenalty → MerchantPenalty
close s now p = record p { status = s; executed_at = some now }

-- `executePenalty`
unfoldable pub execute_penalty : ℕ → MerchantPenalty → ℕ → Action ⊤
execute_penalty id p now = do
  update_merchant p.merchant_id (punish p.action now)
  update_penalty id (close PenaltyStatus.executed now)
  notify_merchant p.merchant_id

abbrev pub clear_merchant : Merchant → Merchant
clear_merchant m = record m {
  penalty_status = none;
  penalty_reason = none;
  penalty_started_at = none;
}

abbrev pub dismiss_penalty : ℕ → MerchantPenalty → ℕ → Action ⊤
dismiss_penalty id p now = do
  update_penalty id (close PenaltyStatus.dismissed now)
  update_merchant p.merchant_id clear_merchant
  notify_merchant p.merchant_id

-- `processAppeal`; `dismissed` is the decision.
unfoldable pub process_appeal : ℕ → Bool → ℕ → Action ⊤
unfolding execute_penalty
process_appeal id dismissed now = do
  p ← or_throw (← gets (λ db. find id db.merchant_penalties)) (not_found row_missing)
  throw_if (if is_open p.status then false else true) (bad_request bad_status)
  if dismissed then dismiss_penalty id p now else execute_penalty id p now
  record_audit merchant_penalty_process id

-- `where: { status: { in: ['PENDING', 'APPEALED'] }, appealDeadline: { lt: now } }`
abbrev pub is_expired : ℕ → ℕ → MerchantPenalty → Bool
is_expired now id p = is_open p.status && ltb p.appeal_deadline now

-- The loop of `executeExpiredPenalties`; appealed penalties wait for a decision.
abbrev pub execute_each : Table MerchantPenalty → ℕ → Action ⊤
unfolding execute_penalty
execute_each [] now = pure tt
execute_each ((id, p) ∷ ps) now = do
  if is_pending p.status then catch (execute_penalty id p now) (λ e. pure tt) else pure tt
  execute_each ps now

-- `executeExpiredPenalties`
unfoldable pub execute_expired_penalties : ℕ → Action ⊤
unfolding execute_each
execute_expired_penalties now = do
  ps ← gets (λ db. find_many (is_expired now) db.merchant_penalties)
  execute_each ps now
