-- ===== src/Trade/Step.antt =====
-- The abstract trade: what a call may do to the orders and the cards.
use winmelon_card.Base.{
  ℕ, ◌≡◌, refl, sym, ◌∙◌, subst, inl, inr, true, some, List, [], ◌∷◌, arith, Bool-cases,
  Option-cases,
}
use winmelon_card.Base.Int.{ℤ}
use winmelon_card.Base.Table.{
  Table, find, adjust, update_many, update_many_none, count, count_absent, find_first-find, IsKeyed,
}
use winmelon_card.Base.Result.{Result}
use winmelon_card.Schema.{Order, Product}
use winmelon_card.Schema.Store.{Store}
use winmelon_card.Schema.Action.{⊤}
use winmelon_card.Order.{CreateOrder, NewOrder, OrderReply}
use winmelon_card.Order.Creation.{Created, refused, replayed, placed, create-Created}
use winmelon_card.Order.Placed.{IsPlaced}
use winmelon_card.Order.Expiry.{
  is_pending, pending_row, set_expired, locked_for, set_free, expire_order, expire_each,
  expire_orders,
}
use winmelon_card.Order.Release.{
  released, released-IsKeyed, expire_order_pending, expire_each-cons, overdue,
}
use winmelon_card.Delivery.{
  is_paid, paid_row, set_delivered, set_sold, total_quantity, deliver, handle_order_paid,
  manual_retry,
}
use winmelon_card.Delivery.Handout.{Delivered, deliver-Delivered}
use winmelon_card.Payment.{Notify, Parsed, Reply, set_paid, handle_notify}
use winmelon_card.Payment.Confirm.{
  Notified, failed, acknowledged, confirmed, handle_notify-Notified, handle_notify-stock_cards,
  handle_notify-thrown, handle_notify-refused,
}
use winmelon_card.Trade.{Call, orders, notifies, hands_over, retries, delivers, expires, perform}

pub data Step (db db' : Store) : Type 0 where
  skip : db'.orders ≡ db.orders → db'.stock_cards ≡ db.stock_cards → Step db db'
  place :
      (n : NewOrder) (dto : CreateOrder) (products : Table Product) (now : ℕ) (total : ℤ)
      → IsPlaced n dto products now total db db'
      → Step db db'
  pay :
      (id now : ℕ) (o : Order)
      → find id db.orders ≡ some o
      → is_pending o.status ≡ true
      → db'.orders ≡ adjust id (set_paid now) db.orders
      → db'.stock_cards ≡ db.stock_cards
      → Step db db'
  sell :
      (id now : ℕ) (o : Order)
      → find id db.orders ≡ some o
      → is_paid o.status ≡ true
      → count (locked_for id) db.stock_cards ≡ total_quantity o.items
      → db'.orders ≡ update_many (paid_row id) (set_delivered now) db.orders
      → db'.stock_cards ≡ update_many (locked_for id) (set_sold now) db.stock_cards
      → Step db db'
  expire :
      (id : ℕ) (o : Order)
      → find id db.orders ≡ some o
      → is_pending o.status ≡ true
      → db'.orders ≡ update_many (pending_row id) set_expired db.orders
      → db'.stock_cards ≡ update_many (locked_for id) set_free db.stock_cards
      → Step db db'

pub data Steps : Store → Store → Type 0 where
  done : {db : Store} → Steps db db
  then : {db next last : Store} → Step db next → Steps next last → Steps db last

single : {db db' : Store} → Step db db' → Steps db db'
single s = then s done

Created-Step :
    {order_id order_no : ℕ} {dto : CreateOrder} {now : ℕ} {db : Store} {x : Result OrderReply}
    {db' : Store}
    → Created order_id order_no dto now db x db'
    → Step db db'
Created-Step (refused e o c) = skip o c
Created-Step (replayed row e) = skip refl refl
Created-Step {dto = dto} {now = now} (placed n products total new same_id same_no h) =
    place n dto products now total h

Notified-Step :
    {payment_id channel : ℕ} {n : Notify} {now : ℕ} {db : Store} {x : Result Reply} {db' : Store}
    → IsKeyed db.orders
    → db'.stock_cards ≡ db.stock_cards
    → Notified payment_id channel n now db x db'
    → Step db db'
Notified-Step keyed c (failed o p e) = skip o c
Notified-Step keyed c (acknowledged o p e) = skip o c
Notified-Step {now = now} {db = db} keyed c (confirmed id new h e) =
    let (there, same) = find_first-find _ db.orders id h.o h.order_found keyed in
    pay id now h.o there h.was_pending h.orders_after c

handle_notify-Step :
    (payment_id channel : ℕ) (parsed : Parsed) (now : ℕ) (db : Store)
    → IsKeyed db.orders
    → Step db (handle_notify payment_id channel parsed now db).1
handle_notify-Step payment_id channel Parsed.thrown now db keyed =
    skip (handle_notify-thrown payment_id channel now db)
      (handle_notify-stock_cards payment_id channel Parsed.thrown now db)
handle_notify-Step payment_id channel Parsed.refused now db keyed =
    skip (handle_notify-refused payment_id channel now db)
      (handle_notify-stock_cards payment_id channel Parsed.refused now db)
handle_notify-Step payment_id channel (Parsed.message n) now db keyed =
    Notified-Step keyed (handle_notify-stock_cards payment_id channel (Parsed.message n) now db)
      (handle_notify-Notified payment_id channel n now db)

Delivered-Step :
    {order_id now : ℕ} {db : Store} {x : Result ⊤} {db' db'' : Store}
    → db''.orders ≡ db'.orders
    → db''.stock_cards ≡ db'.stock_cards
    → Delivered order_id now db x db'
    → Step db db''
Delivered-Step o c (Delivered.refused e) = skip o c
Delivered-Step o c (Delivered.already a there e same cards) = skip (o ∙ same) (c ∙ cards)
Delivered-Step {order_id = order_id} {now = now} o c
      (Delivered.handed_out a there paid number same cards) =
    sell order_id now a there paid number (o ∙ same) (c ∙ cards)

deliver-Step :
    (order_id now : ℕ) (db : Store) → IsKeyed db.orders → Step db (deliver order_id now db).1
deliver-Step order_id now db keyed =
    Delivered-Step refl refl (deliver-Delivered order_id now db keyed)

handle_order_paid-Step :
    (order_id now : ℕ) (db : Store)
    → IsKeyed db.orders
    → Step db (handle_order_paid order_id now db).1
unfolding handle_order_paid
handle_order_paid-Step order_id now db keyed =
    Delivered-Step (ground arith) (ground arith) (deliver-Delivered order_id now db keyed)

manual_retry-Step :
    (order_id now : ℕ) (db : Store) → IsKeyed db.orders → Step db (manual_retry order_id now db).1
unfolding manual_retry
manual_retry-Step order_id now db keyed = elim (Option-cases (find order_id db.orders)) [
  | inl e ↦ skip (ground arith) (ground arith)
  | inr (o, e) ↦ elim (Bool-cases (is_paid o.status)) [
    | inr f ↦ skip (ground arith) (ground arith)
    | inl f ↦ Delivered-Step (ground arith) (ground arith) (deliver-Delivered order_id now db keyed)
  ]
]

released-Step : (id : ℕ) (db : Store) → IsKeyed db.orders → Step db (released id db)
unfolding expire_order
released-Step id db keyed = elim (Option-cases (find id db.orders)) [
  | inl missing ↦
      let no_row = count_absent id (λ o. is_pending o.status) db.orders missing in
      let same = update_many_none (pending_row id) set_expired db.orders no_row in
      skip (ground arith) (ground arith)
  | inr (o, there) ↦
      let after = expire_order_pending id db o keyed there in
      elim (Bool-cases (is_pending o.status)) [
        | inl e ↦ expire id o there e (ground arith) (ground arith)
        | inr e ↦ skip (ground arith) (ground arith)
      ]
]

expire_each-Steps :
    (ids : List ℕ) (db : Store) → IsKeyed db.orders → Steps db (expire_each ids db).1
unfolding expire_each
expire_each-Steps [] db keyed = done
expire_each-Steps (id ∷ ids) db keyed =
    subst (λ x. Steps db x.1) (sym (expire_each-cons id ids db))
      (then (released-Step id db keyed)
        (expire_each-Steps ids (released id db) (released-IsKeyed id db keyed)))

expire_orders-Steps : (now : ℕ) (db : Store) → IsKeyed db.orders → Steps db (expire_orders now db).1
unfolding expire_orders
expire_orders-Steps now db keyed = expire_each-Steps (overdue now db) db keyed

-- Every purchase, message of a channel, event of a paid order, retry, delivery and run of the order
-- timer, whatever it is given and however it ends, in a store whose orders have distinct keys, comes
-- down to steps of the abstract trade on the orders and the cards: a new order takes its cards, a
-- PENDING order is paid or expires with its cards, a PAID order whose LOCKED cards are as many as it
-- sells gets them, or both tables stay.
pub perform-Steps : (c : Call) (db : Store) → IsKeyed db.orders → Steps db (perform c db)
unfolding perform
perform-Steps (orders order_id order_no dto ip now) db keyed =
    single (Created-Step (create-Created order_id order_no dto ip now db))
perform-Steps (notifies payment_id channel parsed now) db keyed =
    single (handle_notify-Step payment_id channel parsed now db keyed)
perform-Steps (hands_over order_id now) db keyed =
    single (handle_order_paid-Step order_id now db keyed)
perform-Steps (retries order_id now) db keyed = single (manual_retry-Step order_id now db keyed)
perform-Steps (delivers order_id now) db keyed = single (deliver-Step order_id now db keyed)
perform-Steps (expires now) db keyed = expire_orders-Steps now db keyed
