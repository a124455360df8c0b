-- ===== src/Withdrawal.antt =====
-- apps/api/src/modules/withdrawal/withdrawal.service.ts: the settlement of merchants' balances.
-- A request is taken out of `balance` and into `freeze_balance`; a rejection puts it back, a payout
-- moves it to `total_withdrawn`. An amount that is asked for is a number of yuan with any decimals
-- (`ApplyDto` asks for 1 at least): here millionths of a yuan, where the columns, Decimal(12, 2), keep
-- whole fen and round what is written to them. `toFixed(2)` rounds a binary number, so it is an
-- argument: from hundred-millionths of a yuan to fen. The e-mails that the service sends return false when they fail,
-- and change no state. Identifiers of new rows and the time are arguments.
pub mod Rounding
pub mod Step
pub mod Frozen
pub mod Conservation
pub mod Lifecycle
mod Tests
use winmelon_card.Base.{
  ℕ, ◌+◌, ◌*◌, ◌/◌, ◌-◌, Bool, true, false, ◌&&◌, ◌||◌, Option, none, some, ltb, if◌then◌else◌,
  length, is_none,
}
use winmelon_card.Base.Int.{ℤ, pos, pos_part, neg_part, sub_ℕ, scale, ◌+ℤ◌, ◌-ℤ◌, ltb_ℤ, leb_ℤ}
use winmelon_card.Base.Table.{find, insert, adjust, delete_many}
use winmelon_card.Base.Text.{Text, is_empty}
use winmelon_card.Base.Result.{
  bad_request, not_found, row_missing, bad_status, min_amount, account_missing, bank_missing,
  fee_too_high, short_funds, reason_missing, ref_missing, unique_violation,
}
use winmelon_card.Schema.{Merchant, Withdrawal, WithdrawalStatus, WithdrawalMethod, AccountInfo}
use winmelon_card.Schema.Store.{
  Store, withdrawal_created, withdrawal_status_changed, withdrawal_apply, withdrawal_approve,
  withdrawal_reject, withdrawal_paid,
}
use winmelon_card.Schema.Action.{
  Action, ⊤, pure, gets, or_throw, throw_if, modify, transaction, record_audit, emit,
  update_merchant, ◌>>=◌, ◌>>◌,
}

pub record PlatformWithdrawConfig : Type 0 where
  pub min_amount : ℤ
  pub fee_percent : ℕ
  pub fee_fixed : ℤ

-- ¥10, and no fees.
abbrev pub default_config : PlatformWithdrawConfig
default_config = record { min_amount = pos 1000; fee_percent = 0; fee_fixed = pos 0 }

pub record WithdrawalRequest : Type 0 where
  pub amount : ℕ
  pub method : WithdrawalMethod
  pub account_info : AccountInfo

abbrev is_bank : WithdrawalMethod → Bool
is_bank WithdrawalMethod.bank = true
is_bank WithdrawalMethod.alipay = false
is_bank WithdrawalMethod.wechat = false
is_bank WithdrawalMethod.usdt = false

-- `+(feeFixed + (amount * feePercent) / 100).toFixed(2)`
abbrev pub fee_of : (ℤ → ℤ) → PlatformWithdrawConfig → ℕ → ℤ
fee_of to_fixed c amount = to_fixed (scale c.fee_fixed 1000000 +ℤ pos (amount * c.fee_percent))

-- `+(amount - fee).toFixed(2)`
abbrev pub actual_of : (ℤ → ℤ) → ℕ → ℤ → ℤ
actual_of to_fixed amount fee = to_fixed (pos (amount * 100) -ℤ scale fee 1000000)

-- A column in millionths of a yuan.
unfoldable pub millionths : ℤ → ℤ
millionths a = sub_ℕ (pos_part a * 10000) (neg_part a * 10000)

-- What MySQL keeps of a value that is written to a Decimal(12, 2) column: a half fen is rounded away
-- from zero.
unfoldable pub to_fen : ℤ → ℤ
to_fen a = sub_ℕ ((pos_part a + 5000) / 10000) ((neg_part a + 5000) / 10000)

-- `Number(balance) - Number(freezeBalance)`
abbrev pub available : Merchant → ℤ
available m = m.balance -ℤ m.freeze_balance

abbrev pub freeze : ℕ → Merchant → Merchant
freeze a m = record m {
  balance = to_fen (millionths m.balance -ℤ pos a);
  freeze_balance = to_fen (millionths m.freeze_balance +ℤ pos a);
}

abbrev pub unfreeze : ℤ → Merchant → Merchant
unfreeze a m = record m { balance = m.balance +ℤ a; freeze_balance = m.freeze_balance -ℤ a }

abbrev pub pay_out : ℤ → Merchant → Merchant
pay_out a m = record m {
  total_withdrawn = m.total_withdrawn +ℤ a;
  freeze_balance = m.freeze_balance -ℤ a;
}

abbrev new_withdrawal : ℕ → WithdrawalRequest → ℤ → ℤ → ℕ → Withdrawal
new_withdrawal merchant_id p fee actual now = record {
  merchant_id = merchant_id;
  amount = to_fen (pos p.amount);
  fee = fee;
  actual = actual;
  method = p.method;
  account_info = p.account_info;
  status = WithdrawalStatus.pending;
  reject_reason = none;
  transfer_ref = none;
  processed_by_id = none;
  processed_at = none;
  created_at = now;
}

-- The transaction of `apply`: the balance is checked and moved, and the request is written (a key
-- that is taken is refused by the database).
debit : ℕ → ℕ → WithdrawalRequest → ℤ → ℤ → ℕ → Action ⊤
debit id merchant_id p fee actual now = do
  m ← or_throw (← gets (λ db. find merchant_id db.merchants)) (not_found row_missing)
  throw_if (ltb_ℤ (millionths (available m)) (pos p.amount)) (bad_request short_funds)
  update_merchant merchant_id (freeze p.amount)
  old ← gets (λ db. find id db.withdrawals)
  throw_if (if is_none old then false else true) unique_violation
  modify (λ db. record db {
    withdrawals = insert id (new_withdrawal merchant_id p fee actual now) db.withdrawals;
  })

pub apply : (ℤ → ℤ) → ℕ → ℕ → WithdrawalRequest → ℕ → Action ℕ
unfolding debit
apply to_fixed id merchant_id p now = do
  throw_if (ltb_ℤ (pos p.amount) (millionths default_config.min_amount)) (bad_request min_amount)
  throw_if (is_empty p.account_info.account || is_empty p.account_info.name)
      (bad_request account_missing)
  throw_if (is_bank p.method && is_empty p.account_info.bank_name) (bad_request bank_missing)
  let fee = fee_of to_fixed default_config p.amount
  let actual = actual_of to_fixed p.amount fee
  throw_if (leb_ℤ actual (pos 0)) (bad_request fee_too_high)
  transaction (debit id merchant_id p fee actual now)
  record_audit withdrawal_apply id
  emit (withdrawal_created id)
  pure id

abbrev pub is_pending : WithdrawalStatus → Bool
is_pending WithdrawalStatus.pending = true
is_pending WithdrawalStatus.approving = false
is_pending WithdrawalStatus.paid = false
is_pending WithdrawalStatus.rejected = false
is_pending WithdrawalStatus.failed = false

abbrev pub is_approving : WithdrawalStatus → Bool
is_approving WithdrawalStatus.approving = true
is_approving WithdrawalStatus.pending = false
is_approving WithdrawalStatus.paid = false
is_approving WithdrawalStatus.rejected = false
is_approving WithdrawalStatus.failed = false

abbrev pub set_approving : ℕ → ℕ → Withdrawal → Withdrawal
set_approving admin now w = record w {
  status = WithdrawalStatus.approving;
  processed_by_id = some admin;
  processed_at = some now;
}

-- The audit entry stands in the transaction here.
pub approve : ℕ → ℕ → ℕ → Action ⊤
approve admin id now = do
  w ← or_throw (← gets (λ db. find id db.withdrawals)) (not_found row_missing)
  throw_if (if is_pending w.status then false else true) (bad_request bad_status)
  modify (λ db. record db { withdrawals = adjust id (set_approving admin now) db.withdrawals })
  record_audit withdrawal_approve id
  emit (withdrawal_status_changed id WithdrawalStatus.approving)

abbrev pub set_rejected : ℕ → Text → ℕ → Withdrawal → Withdrawal
set_rejected admin reason now w = record w {
  status = WithdrawalStatus.rejected;
  reject_reason = some reason;
  processed_by_id = some admin;
  processed_at = some now;
}

abbrev pub set_paid : Text → Withdrawal → Withdrawal
set_paid ref w = record w { status = WithdrawalStatus.paid; transfer_ref = some ref }

-- The transactions of `reject` and `markPaid`: the request, then the merchant.
abbrev settle : ℕ → ℕ → (Withdrawal → Withdrawal) → (Merchant → Merchant) → Action ⊤
settle id merchant_id f g = do
  modify (λ db. record db { withdrawals = adjust id f db.withdrawals })
  update_merchant merchant_id g

pub reject : ℕ → ℕ → Text → ℕ → Action ⊤
reject admin id reason now = do
  throw_if (is_empty reason || ltb 500 (length reason)) (bad_request reason_missing)
  w ← or_throw (← gets (λ db. find id db.withdrawals)) (not_found row_missing)
  throw_if (if is_pending w.status || is_approving w.status then false else true)
      (bad_request bad_status)
  transaction (settle id w.merchant_id (set_rejected admin reason now) (unfreeze w.amount))
  record_audit withdrawal_reject id
  emit (withdrawal_status_changed id WithdrawalStatus.rejected)

pub mark_paid : ℕ → Text → Action ⊤
mark_paid id transfer_ref = do
  throw_if (is_empty transfer_ref || ltb 128 (length transfer_ref)) (bad_request ref_missing)
  w ← or_throw (← gets (λ db. find id db.withdrawals)) (not_found row_missing)
  throw_if (if is_approving w.status then false else true) (bad_request bad_status)
  transaction (settle id w.merchant_id (set_paid transfer_ref) (pay_out w.amount))
  record_audit withdrawal_paid id
  emit (withdrawal_status_changed id WithdrawalStatus.paid)

pub record BalanceInfo : Type 0 where
  pub balance : ℤ
  pub freeze_balance : ℤ
  pub available : ℤ
  pub total_withdrawn : ℤ

pub get_balance : ℕ → Action BalanceInfo
get_balance merchant_id = do
  m ← or_throw (← gets (λ db. find merchant_id db.merchants)) (not_found row_missing)
  pure (record {
    balance = m.balance;
    freeze_balance = m.freeze_balance;
    available = available m;
    total_withdrawn = m.total_withdrawn;
  })

-- 365 days.
abbrev pub retention_ms : ℕ
retention_ms = 365 * 24 * 60 * 60 * 1000

abbrev pub is_settled : WithdrawalStatus → Bool
is_settled WithdrawalStatus.paid = true
is_settled WithdrawalStatus.rejected = true
is_settled WithdrawalStatus.pending = false
is_settled WithdrawalStatus.approving = false
is_settled WithdrawalStatus.failed = false

pub cleanup_old_records : ℕ → Action ⊤
cleanup_old_records now = modify (λ db. record db {
  withdrawals =
      delete_many (λ id w. is_settled w.status && ltb w.created_at (now - retention_ms))
        db.withdrawals;
})
