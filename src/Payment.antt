-- ===== src/Payment.antt =====
-- apps/api/src/modules/payment/payment.service.ts: payments are opened with a channel, confirmed by
-- the channel's notification, and paid back through the channel. The adapters' network calls and
-- signature checks are arguments: the parsed notification, and the channel's answer to a refund.
pub mod Confirm
pub mod Usdt
pub mod Late
pub mod Stuck
mod Tests
use winmelon_card.Base.{
  ℕ, ◌*◌, ◌+◌, Bool, true, false, ◌&&◌, ◌||◌, Option, none, some, List, [], ◌∷◌, ltb, ◌==◌,
  if◌then◌else◌, includes, is_none, is_some_of, or_else, leb,
}
use winmelon_card.Base.Int.{ℤ, eqb_ℤ}
use winmelon_card.Base.Table.{
  Table, find, find_first, find_many, insert, adjust, update_many, count,
}
use winmelon_card.Base.Result.{
  Result, Error, bad_request, not_found, failure, row_missing, bad_status, bad_amount,
  order_expired, channel_unavailable, manual, unique_violation,
}
use winmelon_card.Schema.{
  Order, OrderStatus, Payment, PaymentStatus, PaymentChannel, MerchantPaymentChannel, Shop,
}
use winmelon_card.Schema.Store.{Store, order_paid, notify_verify_failed, notify_success}
use winmelon_card.Schema.Action.{
  Action, ⊤, pure, throw, gets, or_throw, throw_if, modify, transaction, catch, record_audit, emit,
  ◌>>=◌, ◌>>◌,
}
use winmelon_card.Order.Expiry.{is_pending}
use winmelon_card.Order.Query.{is_delivered}
use winmelon_card.Delivery.{is_paid}

-- What an adapter's `createPayment` returns.
pub record CreatePaymentResult : Type 0 where
  pub trade_no : Option ℕ
  pub usdt_wallet : Option ℕ
  pub usdt_amount : Option ℕ
  pub expires_at : Option ℕ

abbrev pub usable : Option PaymentChannel → Bool
usable none = false
usable (some c) = c.is_available

abbrev merchant_row : ℕ → ℕ → ℕ → MerchantPaymentChannel → Bool
merchant_row merchant code id m = m.merchant_id == merchant && m.channel_code == code

abbrev enabled : Option (ℕ × MerchantPaymentChannel) → Bool
enabled none = false
enabled (some (id, m)) = m.is_enabled

abbrev used_trade_no : Option ℕ → Table Payment → Bool
used_trade_no none t = false
used_trade_no (some k) t = if count (λ id p. is_some_of p.trade_no k) t == 0 then false else true

-- `createPayment`. `supported` says whether an adapter is registered under the code, and `adapter`
-- is its `createPayment`, `none` where it throws.
pub create_payment :
    (payment_id order_id channel : ℕ)
    → (supported : Bool) → (Order → Option CreatePaymentResult)
    → (now : ℕ) → Action ⊤
create_payment payment_id order_id channel supported adapter now = do
  o ← or_throw (← gets (λ db. find order_id db.orders)) (not_found row_missing)
  throw_if (if is_pending o.status then false else true) (bad_request bad_status)
  throw_if (ltb o.expire_at now) (bad_request order_expired)
  throw_if (if (← gets (λ db. usable (find channel db.channels))) then false else true)
      (bad_request channel_unavailable)
  shop ← or_throw (← gets (λ db. find o.shop_id db.shops)) failure
  own ← gets (λ db. find_first (merchant_row shop.merchant_id channel) db.merchant_channels)
  throw_if (if enabled own then false else true) (bad_request channel_unavailable)
  throw_if (if supported then false else true) (bad_request channel_unavailable)
  opened ← or_throw (adapter o) failure
  throw_if (← gets (λ db. used_trade_no opened.trade_no db.payments)) unique_violation
  modify (λ db. record db {
    payments =
        insert payment_id
          (record {
            order_id = order_id;
            channel = channel;
            trade_no = opened.trade_no;
            amount = o.total_amount;
            status = PaymentStatus.pending;
            paid_at = none;
            usdt_wallet = opened.usdt_wallet;
            usdt_amount = opened.usdt_amount;
            usdt_tx_hash = none;
            expires_at = opened.expires_at;
          })
          db.payments;
  })

-- `NotifyResult`
pub record Notify : Type 0 where
  pub out_trade_no : ℕ
  pub trade_no : ℕ
  pub amount : ℤ
  pub success : Bool

-- What comes of the message of a channel that is available: `getAdapter` or `decryptConfig` throws,
-- the adapter refuses the signature (for WeChat, also after the platform's certificates were fetched
-- again), or the message that the adapter reads.
pub data Parsed : Type 0 where
  thrown refused : Parsed
  message : Notify → Parsed

-- The body of the reply to the channel.
pub data Reply : Type 0 where
  success fail : Reply

abbrev pub is_payment_pending : PaymentStatus → Bool
is_payment_pending PaymentStatus.pending = true
is_payment_pending PaymentStatus.success = false
is_payment_pending PaymentStatus.failed = false
is_payment_pending PaymentStatus.refunded = false
is_payment_pending PaymentStatus.expired = false

abbrev pub set_paid : ℕ → Order → Order
set_paid now o = record o { status = OrderStatus.paid; paid_at = some now }

abbrev pub open_payment : ℕ → ℕ → ℕ → Payment → Bool
open_payment order_id channel id p =
    p.order_id == order_id && p.channel == channel && is_payment_pending p.status

abbrev pub set_success : ℕ → ℕ → Payment → Payment
set_success trade_no now p = record p {
  status = PaymentStatus.success;
  trade_no = some trade_no;
  paid_at = some now;
}

abbrev pub has_trade_no : ℕ → ℕ → Payment → Bool
has_trade_no trade_no id p = is_some_of p.trade_no trade_no

-- The unique index `payments_tradeNo_key`.
abbrev pub check_trade_no : ℕ → Action ⊤
check_trade_no trade_no = do
  throw_if (← gets (λ db. ltb 1 (count (has_trade_no trade_no) db.payments))) unique_violation

-- The payments of the order in the channel succeed, or a new row is written.
abbrev pub settle_payment : ℕ → ℕ → ℕ → ℕ → ℤ → ℕ → Table Payment → Table Payment
settle_payment payment_id order_id channel trade_no amount now t =
    if count (open_payment order_id channel) t == 0
    then insert payment_id
        (record {
          order_id = order_id;
          channel = channel;
          trade_no = some trade_no;
          amount = amount;
          status = PaymentStatus.success;
          paid_at = some now;
          usdt_wallet = none;
          usdt_amount = none;
          usdt_tx_hash = none;
          expires_at = none;
        })
        t
    else update_many (open_payment order_id channel) (set_success trade_no now) t

abbrev pub by_order_no : ℕ → ℕ → Order → Bool
by_order_no order_no id o = o.order_no == order_no

-- The transaction of `handleNotify`: `none` is `alreadyPaid`.
unfoldable pub confirm_order : ℕ → ℕ → Notify → ℕ → Action (Option ℕ)
confirm_order payment_id channel n now = do
  row ←
      or_throw (← gets (λ db. find_first (by_order_no n.out_trade_no) db.orders))
        (not_found row_missing)
  if is_paid row.1.status || is_delivered row.1.status then pure none else do
    throw_if (if is_pending row.1.status then false else true) (bad_request bad_status)
    throw_if (if eqb_ℤ row.1.total_amount n.amount then false else true) (bad_request bad_amount)
    modify (λ db. record db { orders = adjust row.0 (set_paid now) db.orders })
    modify (λ db. record db {
      payments =
          settle_payment payment_id row.0 channel n.trade_no row.1.total_amount now db.payments;
    })
    check_trade_no n.trade_no
    pure (some row.0)

-- `redis.del`
abbrev pub remove_mark : ℕ → Table ℕ → Table ℕ
remove_mark k [] = []
remove_mark k ((m, end) ∷ ms) = if m == k then remove_mark k ms else (m, end) ∷ remove_mark k ms

-- A mark of `k` that Redis has not let go: each has the time of its end.
abbrev pub is_marked : ℕ → ℕ → Table ℕ → Bool
is_marked k now [] = false
is_marked k now ((m, end) ∷ ms) = m == k && ltb now end || is_marked k now ms

-- 24 hours.
abbrev pub notify_idempotency_ttl_ms : ℕ
notify_idempotency_ttl_ms = 24 * 60 * 60 * 1000

-- After the mark has been set: confirm, then announce the payment; a failure lifts the mark.
unfoldable pub process_notify : ℕ → ℕ → Notify → ℕ → Action Reply
unfolding confirm_order
process_notify payment_id channel n now =
    catch
      (do
        confirmed ← transaction (confirm_order payment_id channel n now)
        elim confirmed [
          | none ↦ pure success
          | some order_id ↦ do
            emit (order_paid order_id channel)
            record_audit notify_success order_id
            pure success
        ])
      (λ e. do
        modify (λ db. record db { notify_marks = remove_mark n.trade_no db.notify_marks })
        pure fail)

-- The idempotency mark of the channel's number: while it lives, a second notification is only
-- acknowledged.
abbrev pub mark_notify : ℕ → ℕ → Notify → ℕ → Action Reply
mark_notify payment_id channel n now db =
    if is_marked n.trade_no now db.notify_marks
    then (Result.ok success, db)
    else process_notify payment_id channel n now (record db {
      notify_marks = (n.trade_no, now + notify_idempotency_ttl_ms) ∷ db.notify_marks;
    })

abbrev pub parsed_notify : ℕ → ℕ → Parsed → ℕ → Action Reply
parsed_notify payment_id channel thrown now = throw failure
parsed_notify payment_id channel refused now = do
  record_audit notify_verify_failed channel
  pure fail
parsed_notify payment_id channel (message n) now =
    if n.success then mark_notify payment_id channel n now else pure success

-- `handleNotify`
unfoldable pub handle_notify : ℕ → ℕ → Parsed → ℕ → Action Reply
unfolding process_notify
handle_notify payment_id channel parsed now = do
  ready ← gets (λ db. usable (find channel db.channels))
  if ready then parsed_notify payment_id channel parsed now else pure fail

abbrev pub is_success : PaymentStatus → Bool
is_success PaymentStatus.success = true
is_success PaymentStatus.pending = false
is_success PaymentStatus.failed = false
is_success PaymentStatus.refunded = false
is_success PaymentStatus.expired = false

abbrev pub succeeded : ℕ → ℕ → Payment → Bool
succeeded order_id id p = p.order_id == order_id && is_success p.status

abbrev pub later_of : ℕ × Payment → Option (ℕ × Payment) → ℕ × Payment
later_of row none = row
later_of row (some best) =
    if leb (or_else best.1.paid_at 0) (or_else row.1.paid_at 0) then row else best

-- `findFirst({ where, orderBy: { paidAt: 'desc' } })`
abbrev pub latest : (ℕ → Payment → Bool) → Table Payment → Option (ℕ × Payment)
latest p [] = none
latest p ((id, a) ∷ t) = if p id a then some (later_of (id, a) (latest p t)) else latest p t

-- `refundChannel`. `answer` is what the adapter's `refund` returns for a payment: the number of the
-- refund, or `none` where it throws or reports no success.
unfoldable pub refund_channel : (ℕ → Payment → Option ℕ) → ℕ → Action ℕ
refund_channel answer order_id = do
  p ← or_throw (← gets (λ db. latest (succeeded order_id) db.payments)) (not_found row_missing)
  throw_if (is_none p.1.trade_no) (bad_request manual)
  throw_if (if (← gets (λ db. usable (find p.1.channel db.channels))) then false else true)
      (bad_request channel_unavailable)
  or_throw (answer order_id p.1) failure
