-- ===== src/Order/Expiry.antt =====
-- apps/api/src/modules/order/order.service.ts, `expireOrders`: every 30 seconds, orders that were
-- not paid in time give their cards back, each in a transaction of its own.
use winmelon_card.Base.{
  ℕ, Bool, true, false, ◌&&◌, none, List, [], ◌∷◌, ltb, ◌==◌, if◌then◌else◌, take,
}
use winmelon_card.Base.Table.{find_many, update_many, count}
use winmelon_card.Schema.{StockCard, StockCardStatus, Order, OrderStatus}
use winmelon_card.Schema.Action.{Action, ⊤, pure, gets, modify, transaction, catch, ◌>>=◌, ◌>>◌}
use winmelon_card.Order.{keys, belongs_to, is_locked}

abbrev pub is_pending : OrderStatus → Bool
is_pending OrderStatus.pending = true
is_pending OrderStatus.paid = false
is_pending OrderStatus.delivered = false
is_pending OrderStatus.expired = false
is_pending OrderStatus.refunded = false
is_pending OrderStatus.closed = false

-- `status: 'PENDING', expireAt: { lt: now }`
abbrev pub is_overdue : ℕ → Order → Bool
is_overdue now o = is_pending o.status && ltb o.expire_at now

abbrev pub pending_row : ℕ → ℕ → Order → Bool
pending_row order_id id o = id == order_id && is_pending o.status

abbrev pub set_expired : Order → Order
set_expired o = record o { status = OrderStatus.expired }

abbrev pub locked_for : ℕ → ℕ → StockCard → Bool
locked_for order_id id c = belongs_to order_id id c && is_locked c.status

abbrev pub set_free : StockCard → StockCard
set_free c = record c { status = StockCardStatus.available; order_id = none }

-- The transaction for one order: only an order that is still PENDING releases its cards.
unfoldable pub expire_order : ℕ → Action ⊤
expire_order order_id = do
  updated ← gets (λ db. count (pending_row order_id) db.orders)
  modify (λ db. record db { orders = update_many (pending_row order_id) set_expired db.orders })
  if updated == 0
      then pure tt
      else modify (λ db. record db {
        stock_cards = update_many (locked_for order_id) set_free db.stock_cards;
      })

unfoldable pub expire_each : List ℕ → Action ⊤
unfolding expire_order
expire_each [] = pure tt
expire_each (id ∷ ids) = do catch (transaction (expire_order id)) (λ e. pure tt); expire_each ids

unfoldable pub expire_orders : ℕ → Action ⊤
unfolding expire_each
expire_orders now = do
  overdue ← gets (λ db. take 100 (keys (find_many (λ id o. is_overdue now o) db.orders)))
  expire_each overdue
