-- ===== src/Refund.antt =====
-- apps/api/src/modules/refund/refund.service.ts: requests for refunds, their approval, and their
-- payment through the channel or by hand. Identifiers, the refund number, the time and the answer
-- of the channel are arguments.
pub mod Retry
pub mod Payout
pub mod Failures
pub mod Requests
pub mod Locked
mod Tests
use winmelon_card.Base.{
  ℕ, ◌+◌, ◌*◌, ◌-◌, Bool, true, false, ◌&&◌, ◌||◌, Option, none, some, List, [], ◌∷◌, ltb, leb,
  ◌==◌, if◌then◌else◌, is_none, or_else, length,
}
use winmelon_card.Base.Int.{ℤ, pos, negsuc, ◌-ℤ◌, ltb_ℤ, leb_ℤ}
use winmelon_card.Base.Table.{
  Table, find, find_first, find_many, insert, adjust, update_many, count,
}
use winmelon_card.Base.Text.{Text, is_empty, trim}
use winmelon_card.Base.Result.{
  Result, ok, err, Error, bad_request, not_found, forbidden, failure, unique_violation, row_missing,
  bad_status, reason_missing, viewed, duplicate, bad_amount, below_floor, channel_failed,
}
use winmelon_card.Schema.{
  Order, OrderStatus, StockCard, StockCardStatus, Refund, RefundStatus, RefundInitiator, Merchant,
  UsdtPayout, Payment,
}
use winmelon_card.Schema.Store.{
  Store, order_refunded, refund_create, refund_approve, refund_reject, refund_mark_paid,
}
use winmelon_card.Schema.Action.{
  Action, ⊤, pure, throw, gets, or_throw, throw_if, modify, transaction, catch, record_audit, emit,
  ◌>>=◌, ◌>>◌,
}
use winmelon_card.Order.Query.{is_delivered, sold_for}
use winmelon_card.Delivery.{is_paid}
use winmelon_card.Payment.{refund_channel}

-- -¥1000.
abbrev pub merchant_balance_floor : ℤ
merchant_balance_floor = negsuc 99999

abbrev pub refund_reason_max_length : ℕ
refund_reason_max_length = 500

abbrev pub is_refund_pending : RefundStatus → Bool
is_refund_pending RefundStatus.pending = true
is_refund_pending RefundStatus.approved = false
is_refund_pending RefundStatus.rejected = false
is_refund_pending RefundStatus.paid = false
is_refund_pending RefundStatus.failed = false

abbrev pub is_approved : RefundStatus → Bool
is_approved RefundStatus.approved = true
is_approved RefundStatus.pending = false
is_approved RefundStatus.rejected = false
is_approved RefundStatus.paid = false
is_approved RefundStatus.failed = false

abbrev pub is_failed : RefundStatus → Bool
is_failed RefundStatus.failed = true
is_failed RefundStatus.pending = false
is_failed RefundStatus.approved = false
is_failed RefundStatus.rejected = false
is_failed RefundStatus.paid = false

pub record RefundRequest : Type 0 where
  pub reason : Text
  pub initiator : RefundInitiator
  pub amount : Option ℤ

abbrev pub is_refundable : OrderStatus → Bool
is_refundable s = is_paid s || is_delivered s

-- `status: { in: ['PENDING', 'APPROVED'] }`
abbrev pub open_refund : ℕ → ℕ → Refund → Bool
open_refund order_id id r =
    r.order_id == order_id && (is_refund_pending r.status || is_approved r.status)

-- `order.merchantId ?? order.shop.merchantId`
abbrev pub merchant_of : Order → Store → Option ℕ
merchant_of o db = elim o.merchant_id [
  | some m ↦ some m
  | none ↦ elim (find o.shop_id db.shops) [ none ↦ none | some s ↦ some s.merchant_id ]
]

abbrev pub new_refund : ℕ → ℕ → Option ℕ → ℤ → RefundRequest → ℕ → Refund
new_refund refund_no order_id merchant amount p now = record {
  refund_no = refund_no;
  order_id = order_id;
  merchant_id = merchant;
  amount = amount;
  reason = trim p.reason;
  status = RefundStatus.pending;
  initiator = p.initiator;
  processed_by_id = none;
  processed_at = none;
  rejected_at = none;
  reject_reason = none;
  paid_at = none;
  trade_no = none;
  retry_count = 0;
  last_error_at = none;
  next_retry_at = none;
  alert_sent_at = none;
  manual_payout = false;
  usdt = none;
  created_at = now;
}

abbrev same_refund : ℕ → ℕ → ℕ → Refund → Bool
same_refund id refund_no j r = if j == id then true else r.refund_no == refund_no

-- `refund.create`: the primary key and `refundNo` are unique.
abbrev insert_refund : ℕ → Refund → Action ⊤
insert_refund id r = do
  clash ← gets (λ db. find_first (same_refund id r.refund_no) db.refunds)
  throw_if (if is_none clash then false else true) unique_violation
  modify (λ db. record db { refunds = insert id r db.refunds })

-- `create`. `audited` says whether the caller passes a context, which alone is audited.
pub create : ℕ → ℕ → ℕ → RefundRequest → Bool → ℕ → Action ℕ
create id refund_no order_id p audited now = do
  throw_if (is_empty (trim p.reason)) (bad_request reason_missing)
  throw_if (ltb refund_reason_max_length (length p.reason)) (bad_request reason_missing)
  o ← or_throw (← gets (λ db. find order_id db.orders)) (not_found row_missing)
  throw_if (if is_refundable o.status then false else true) (bad_request bad_status)
  throw_if (if is_none o.viewed_at then false else true) (forbidden viewed)
  existing ← gets (λ db. find_first (open_refund order_id) db.refunds)
  throw_if (if is_none existing then false else true) (bad_request duplicate)
  let amount = or_else p.amount o.total_amount
  throw_if (leb_ℤ amount (pos 0) || ltb_ℤ o.total_amount amount) (bad_request bad_amount)
  merchant ← gets (merchant_of o)
  insert_refund id (new_refund refund_no order_id merchant amount p now)
  if audited then record_audit refund_create id else pure tt
  pure id

abbrev pub set_approved : ℕ → ℕ → Refund → Refund
set_approved admin now r = record r {
  status = RefundStatus.approved;
  processed_by_id = some admin;
  processed_at = some now;
}

pub approve : ℕ → ℕ → ℕ → Action ⊤
approve admin id now = do
  r ← or_throw (← gets (λ db. find id db.refunds)) (not_found row_missing)
  throw_if (if is_refund_pending r.status then false else true) (bad_request bad_status)
  modify (λ db. record db { refunds = adjust id (set_approved admin now) db.refunds })
  record_audit refund_approve id

abbrev pub set_rejected : ℕ → Text → ℕ → Refund → Refund
set_rejected admin reason now r = record r {
  status = RefundStatus.rejected;
  reject_reason = some reason;
  rejected_at = some now;
  processed_by_id = some admin;
  processed_at = some now;
}

pub reject : ℕ → ℕ → Text → ℕ → Action ⊤
reject admin id reason now = do
  throw_if (is_empty (trim reason)) (bad_request reason_missing)
  r ← or_throw (← gets (λ db. find id db.refunds)) (not_found row_missing)
  throw_if (if is_refund_pending r.status then false else true) (bad_request bad_status)
  modify (λ db. record db { refunds = adjust id (set_rejected admin (trim reason) now) db.refunds })
  record_audit refund_reject id

pub record PayoutRequest : Type 0 where
  pub manual_payout : Bool
  pub trade_no : Option ℕ
  pub force_override : Bool
  pub usdt : Option UsdtPayout

abbrev pub set_refund_paid : PayoutRequest → Option ℕ → ℕ → Refund → Refund
set_refund_paid p trade_no now r = record r {
  status = RefundStatus.paid;
  paid_at = some now;
  trade_no = trade_no;
  manual_payout = p.manual_payout;
  usdt = elim p.usdt [ none ↦ r.usdt | some u ↦ some u ];
  next_retry_at = none;
}

abbrev pub set_refunded : Order → Order
set_refunded o = record o { status = OrderStatus.refunded }

abbrev pub debit : ℤ → Merchant → Merchant
debit a m = record m { balance = m.balance -ℤ a }

-- Step 3 of the transaction: the merchant's balance may go below zero, down to the floor.
abbrev pub charge_merchant : Option ℕ → ℤ → Bool → Action ⊤
charge_merchant none amount force db = (ok tt, db)
charge_merchant (some k) amount force db = elim (find k db.merchants) [
  | none ↦ (ok tt, db)
  | some m ↦
      if ltb_ℤ (m.balance -ℤ amount) merchant_balance_floor && (if force then false else true)
      then (err (bad_request below_floor), db)
      else (ok tt, record db { merchants = adjust k (debit amount) db.merchants })
]

abbrev pub set_reset : StockCard → StockCard
set_reset c = record c { status = StockCardStatus.available; order_id = none; sold_at = none }

-- The transaction of `markPaid`.
unfoldable pub settle_refund : ℕ → Refund → PayoutRequest → Option ℕ → ℕ → Action ⊤
settle_refund id r p trade_no now = do
  o ← or_throw (← gets (λ db. find r.order_id db.orders)) (not_found row_missing)
  modify (λ db. record db { refunds = adjust id (set_refund_paid p trade_no now) db.refunds })
  modify (λ db. record db {
    orders = if is_refundable o.status then adjust r.order_id set_refunded db.orders else db.orders;
  })
  merchant ← gets (merchant_of o)
  charge_merchant merchant r.amount p.force_override
  modify
      (λ db. record db { stock_cards = update_many (sold_for r.order_id) set_reset db.stock_cards })

-- The number of the channel's refund: none by hand, the administrator's where one is given,
-- otherwise the channel's, whose failure becomes a bad request.
abbrev pub channel_trade_no : (ℕ → Payment → Option ℕ) → Refund → PayoutRequest → Action (Option ℕ)
channel_trade_no answer r p = if p.manual_payout then pure none else elim p.trade_no [
  | some t ↦ pure (some t)
  | none ↦
      catch (do t ← refund_channel answer r.order_id; pure (some t))
        (λ e. throw (bad_request channel_failed))
]

unfoldable pub mark_paid : (ℕ → Payment → Option ℕ) → ℕ → PayoutRequest → ℕ → Action ⊤
unfolding refund_channel settle_refund
mark_paid answer id p now = do
  r ← or_throw (← gets (λ db. find id db.refunds)) (not_found row_missing)
  throw_if (if is_approved r.status then false else true) (bad_request bad_status)
  trade_no ← channel_trade_no answer r p
  transaction (settle_refund id r p trade_no now)
  emit (order_refunded id r.order_id)
  record_audit refund_mark_paid id

-- `createAndPayDirect`, for refunds that nobody reviews.
unfoldable pub create_and_pay_direct :
    (ℕ → Payment → Option ℕ) → ℕ → ℕ → ℕ → RefundRequest → PayoutRequest → Bool → ℕ → Action ⊤
unfolding create mark_paid
create_and_pay_direct answer id refund_no order_id p pay audited now = do
  created ← create id refund_no order_id p audited now
  mark_paid answer created pay now
