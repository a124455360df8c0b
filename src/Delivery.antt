-- ===== src/Delivery.antt =====
-- apps/api/src/modules/delivery/delivery.service.ts: a paid order gets its locked cards.
pub mod Handout
pub mod Emails
pub mod Queue
mod Tests
use winmelon_card.Base.{
  ℕ, ◌+◌, Bool, true, false, ◌&&◌, none, some, List, [], ◌∷◌, ◌==◌, if◌then◌else◌,
}
use winmelon_card.Base.Table.{find, update_many, count}
use winmelon_card.Base.Result.{
  Result, Error, bad_request, not_found, conflict, row_missing, bad_status, count_mismatch,
}
use winmelon_card.Schema.{StockCard, StockCardStatus, Order, OrderItem, OrderStatus}
use winmelon_card.Schema.Store.{Store, delivery_success, delivery_failed, delivery_manual}
use winmelon_card.Schema.Action.{
  Action, ⊤, pure, throw, gets, or_throw, throw_if, modify, transaction, catch, record_audit, ◌>>=◌,
  ◌>>◌,
}
use winmelon_card.Order.Expiry.{locked_for}
use winmelon_card.Order.Query.{is_delivered, sold_for}

abbrev pub is_paid : OrderStatus → Bool
is_paid OrderStatus.paid = true
is_paid OrderStatus.pending = false
is_paid OrderStatus.delivered = false
is_paid OrderStatus.expired = false
is_paid OrderStatus.refunded = false
is_paid OrderStatus.closed = false

abbrev pub paid_row : ℕ → ℕ → Order → Bool
paid_row order_id id o = id == order_id && is_paid o.status

abbrev pub set_delivered : ℕ → Order → Order
set_delivered now o = record o { status = OrderStatus.delivered; delivered_at = some now }

abbrev pub set_sold : ℕ → StockCard → StockCard
set_sold now c = record c { status = StockCardStatus.sold; sold_at = some now }

-- `orderItems.reduce((sum, it) => sum + it.quantity, 0)`
abbrev pub total_quantity : List OrderItem → ℕ
total_quantity [] = 0
total_quantity (it ∷ its) = it.quantity + total_quantity its

-- The branch in which no row was PAID.
abbrev pub not_paid : ℕ → Action ⊤
not_paid order_id db = elim (find order_id db.orders) [
  | none ↦ (Result.err (bad_request bad_status), db)
  | some o ↦ throw_if (if is_delivered o.status then false else true) (bad_request bad_status) db
]

-- The branch in which the order has become DELIVERED.
abbrev pub hand_out : ℕ → ℕ → Action ⊤
hand_out order_id now = do
  sold ← gets (λ db. count (locked_for order_id) db.stock_cards)
  modify (λ db. record db {
    stock_cards = update_many (locked_for order_id) (set_sold now) db.stock_cards;
  })
  o ← or_throw (← gets (λ db. find order_id db.orders)) (conflict count_mismatch)
  throw_if (if sold == total_quantity o.items then false else true) (conflict count_mismatch)

-- The body of the transaction of `deliver`.
unfoldable pub deliver_in : ℕ → ℕ → Action ⊤
deliver_in order_id now = do
  updated ← gets (λ db. count (paid_row order_id) db.orders)
  modify
      (λ db. record db { orders = update_many (paid_row order_id) (set_delivered now) db.orders })
  if updated == 0 then not_paid order_id else hand_out order_id now

-- `deliver`; the e-mail to the buyer that follows has no part in the result.
unfoldable pub deliver : ℕ → ℕ → Action ⊤
unfolding deliver_in
deliver order_id now = do
  transaction (deliver_in order_id now)
  record_audit delivery_success order_id

-- The listener of ORDER_PAID_EVENT: a failure is recorded, and the order stays PAID.
unfoldable pub handle_order_paid : ℕ → ℕ → Action ⊤
unfolding deliver
handle_order_paid order_id now =
    catch (deliver order_id now) (λ e. record_audit delivery_failed order_id)

-- A delivery by hand, with the number of cards that the order now has.
unfoldable pub manual_retry : ℕ → ℕ → Action ℕ
unfolding deliver
manual_retry order_id now = do
  o ← or_throw (← gets (λ db. find order_id db.orders)) (not_found row_missing)
  throw_if (is_delivered o.status) (bad_request bad_status)
  throw_if (if is_paid o.status then false else true) (bad_request bad_status)
  deliver order_id now
  record_audit delivery_manual order_id
  gets (λ db. count (sold_for order_id) db.stock_cards)
