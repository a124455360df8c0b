-- ===== src/Trade.antt =====
-- The services that share the orders and the cards, together: create and expireOrders of
-- apps/api/src/modules/order, handleNotify of payment, and deliver, its listener and manualRetry of
-- delivery, each with the arguments that its service takes.
pub mod Holding
pub mod Counts
pub mod Filled
pub mod Step
pub mod Invariant
pub mod Promise
mod Tests
use winmelon_card.Base.{ℕ, Option, List, [], ◌∷◌}
use winmelon_card.Schema.Store.{Store}
use winmelon_card.Order.{CreateOrder, create}
use winmelon_card.Order.Expiry.{expire_orders}
use winmelon_card.Payment.{Parsed, handle_notify}
use winmelon_card.Delivery.{deliver, handle_order_paid, manual_retry}

pub data Call : Type 0 where
  orders : (order_id order_no : ℕ) → CreateOrder → (ip now : ℕ) → Call
  notifies : (payment_id channel : ℕ) → Parsed → (now : ℕ) → Call
  hands_over : (order_id now : ℕ) → Call
  retries : (order_id now : ℕ) → Call
  delivers : (order_id now : ℕ) → Call
  expires : (now : ℕ) → Call

unfoldable pub perform : Call → Store → Store
unfolding create handle_notify handle_order_paid manual_retry deliver expire_orders
perform (orders order_id order_no dto ip now) db = (create order_id order_no dto ip now db).1
perform (notifies payment_id channel parsed now) db =
    (handle_notify payment_id channel parsed now db).1
perform (hands_over order_id now) db = (handle_order_paid order_id now db).1
perform (retries order_id now) db = (manual_retry order_id now db).1
perform (delivers order_id now) db = (deliver order_id now db).1
perform (expires now) db = (expire_orders now db).1

unfoldable pub perform_all : List Call → Store → Store
unfolding perform
perform_all [] db = db
perform_all (c ∷ cs) db = perform_all cs (perform c db)
