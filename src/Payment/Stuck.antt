-- ===== src/Payment/Stuck.antt =====
-- An order with two PENDING payments in the channel that pays it.
use winmelon_card.Base.{ℕ, ◌+◌, ◌≡◌, ◌≤◌, ◌<◌, true, false, some, [], ◌∷◌, arith, ==_refl}
use winmelon_card.Base.Int.{ℤ, eqb_ℤ}
use winmelon_card.Base.Table.{Table, find, find_first, count, update_many}
use winmelon_card.Base.Result.{ok, err, unique_violation}
use winmelon_card.Schema.{Order, Payment, OrderStatus}
use winmelon_card.Schema.Store.{Store}
use winmelon_card.Payment.{
  Notify, message, is_marked, notify_idempotency_ttl_ms, fail, confirm_order, process_notify,
  handle_notify, by_order_no, settle_payment, open_payment, set_success, has_trade_no, usable,
}

-- Every payment that succeeds carries the number of the message.
count-has_trade_no :
    (order_id channel trade_no now : ℕ) (t : Table Payment)
    → count (open_payment order_id channel) t
      ≤ count
          (has_trade_no trade_no)
          (update_many (open_payment order_id channel) (set_success trade_no now) t)
count-has_trade_no order_id channel trade_no now [] = ground arith
count-has_trade_no order_id channel trade_no now ((k, p) ∷ t) =
    ground (arith, count-has_trade_no order_id channel trade_no now t, ==_refl trade_no)

settle_payment-count :
    (payment_id order_id channel trade_no now : ℕ) (amount : ℤ) (t : Table Payment)
    → 1 < count (open_payment order_id channel) t
    → 1
      < count
          (has_trade_no trade_no)
          (settle_payment payment_id order_id channel trade_no amount now t)
settle_payment-count payment_id order_id channel trade_no now amount t many =
    ground (arith, count-has_trade_no order_id channel trade_no now t)

eqb_ℤ_refl : (a : ℤ) → eqb_ℤ a a ≡ true
eqb_ℤ_refl a = ground arith

confirm_order-unique_violation :
    (payment_id channel : ℕ) (n : Notify) (now id : ℕ) (o : Order) (db : Store)
    → find_first (by_order_no n.out_trade_no) db.orders ≡ some (id, o)
    → o.status ≡ OrderStatus.pending
    → o.total_amount ≡ n.amount
    → 1 < count (open_payment id channel) db.payments
    → (confirm_order payment_id channel n now db).0 ≡ err unique_violation
unfolding confirm_order
confirm_order-unique_violation payment_id channel n now id o db there pending same many =
    let two =
      settle_payment-count payment_id id channel n.trade_no now o.total_amount db.payments many in
    let equal = eqb_ℤ_refl n.amount in ground arith

-- The unique index on the payment's number refuses to let both succeed.
pub handle_notify-fail :
    (payment_id channel : ℕ) (n : Notify) (now id : ℕ) (o : Order) (db : Store)
    → find_first (by_order_no n.out_trade_no) db.orders ≡ some (id, o)
    → o.status ≡ OrderStatus.pending
    → o.total_amount ≡ n.amount
    → 1 < count (open_payment id channel) db.payments
    → usable (find channel db.channels) ≡ true
    → n.success ≡ true
    → is_marked n.trade_no now db.notify_marks ≡ false
    → ((handle_notify payment_id channel (message n) now db).0 ≡ ok fail)
      × ((handle_notify payment_id channel (message n) now db).1.orders ≡ db.orders)
      × ((handle_notify payment_id channel (message n) now db).1.payments ≡ db.payments)
unfolding handle_notify process_notify
handle_notify-fail payment_id channel n now id o db there pending same many ready good new =
    let marked : Store = record db {
      notify_marks = (n.trade_no, now + notify_idempotency_ttl_ms) ∷ db.notify_marks;
    } in
    let bad =
      confirm_order-unique_violation payment_id channel n now id o marked there pending same many in
    (ground arith, ground arith, ground arith)
