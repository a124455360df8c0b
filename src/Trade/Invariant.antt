-- ===== src/Trade/Invariant.antt =====
-- Orders and cards agree after any calls, and what a sale has settled stays.
use winmelon_card.Base.{
  ℕ, ◌≡◌, sym, ◌∙◌, ap, subst, inl, inr, true, some, List, [], ◌∷◌, arith, ◌==◌, includes,
  Bool-cases, ==_iff,
}
use winmelon_card.Base.Table.{Table, find, find-update_many-some, find-adjust_ne}
use winmelon_card.Schema.{Order, StockCard}
use winmelon_card.Schema.Store.{Store}
use winmelon_card.Order.{set_order_id}
use winmelon_card.Order.Placement.{Takes-find}
use winmelon_card.Order.Expiry.{pending_row, set_expired, locked_for, set_free}
use winmelon_card.Order.Query.{is_delivered, is_sold}
use winmelon_card.Delivery.{paid_row, set_delivered, set_sold}
use winmelon_card.Payment.{set_paid}
use winmelon_card.Trade.{Call, perform, perform_all}
use winmelon_card.Trade.Holding.{
  IsConsistent, placed-IsConsistent, paid-IsConsistent, expired-IsConsistent,
  delivered-IsConsistent,
}
use winmelon_card.Trade.Filled.{
  IsFilled, placed-IsFilled, paid-IsFilled, expired-IsFilled, delivered-IsFilled,
}
use winmelon_card.Trade.Step.{
  Step, skip, place, pay, sell, expire, Steps, done, then, perform-Steps,
}

pub record IsSound (db : Store) : Type 0 where
  pub consistent : IsConsistent db.orders db.stock_cards
  pub filled : IsFilled db.orders db.stock_cards

-- A step is known by the tables that it leaves.
Step-tables :
    {db' : Store} (orders : Table Order) (cards : Table StockCard)
    → db'.orders ≡ orders
    → db'.stock_cards ≡ cards
    → IsConsistent orders cards
    → IsFilled orders cards
    → IsSound db'
Step-tables {db' = db'} orders cards o c good full = record {
  consistent =
      subst (λ t. IsConsistent t db'.stock_cards) (sym o)
        (subst (λ t. IsConsistent orders t) (sym c) good);
  filled =
      subst (λ t. IsFilled t db'.stock_cards) (sym o) (subst (λ t. IsFilled orders t) (sym c) full);
}

Step-IsSound : {db db' : Store} → IsSound db → Step db db' → IsSound db'
Step-IsSound h (skip o c) = Step-tables _ _ o c h.consistent h.filled
Step-IsSound {db = db} {db' = db'} h (place n dto products now total made) = record {
  consistent = placed-IsConsistent n dto products now total db db' h.consistent made;
  filled = placed-IsFilled n dto products now total db db' h.consistent made h.filled;
}
Step-IsSound {db = db} h (pay id now a there waits o c) =
    Step-tables _ _ o c
      (paid-IsConsistent id now a db.orders db.stock_cards h.consistent there waits)
      (paid-IsFilled id now a db.orders db.stock_cards h.filled there waits)
Step-IsSound {db = db} h (sell id now a there paid number o c) =
    let keyed = h.consistent.keyed_cards in
    Step-tables _ _ o c
      (delivered-IsConsistent id now a db.orders db.stock_cards h.consistent there paid)
      (delivered-IsFilled id now a db.orders db.stock_cards keyed h.filled there paid)
Step-IsSound {db = db} h (expire id a there waits o c) =
    let keyed = h.consistent.keyed_cards in
    Step-tables _ _ o c
      (expired-IsConsistent id a db.orders db.stock_cards h.consistent there waits)
      (expired-IsFilled id a db.orders db.stock_cards keyed h.filled there waits)

Steps-IsSound : {db db' : Store} → IsSound db → Steps db db' → IsSound db'
Steps-IsSound h done = h
Steps-IsSound h (then s rest) = Steps-IsSound (Step-IsSound h s) rest

pub perform-IsSound : (c : Call) (db : Store) → IsSound db → IsSound (perform c db)
perform-IsSound c db h = Steps-IsSound h (perform-Steps c db h.consistent.keyed_orders)

-- Whatever purchases, messages of a channel, events of paid orders, retries, deliveries and runs of
-- the order timer are made, and however they end, the orders and the cards keep agreeing: a card
-- that belongs to an order is LOCKED while the order is PENDING or PAID, or SOLD once it is
-- DELIVERED; a card of no order is neither; and a PENDING or PAID order has as many LOCKED cards as
-- it sells.
pub perform_all-IsSound : (cs : List Call) (db : Store) → IsSound db → IsSound (perform_all cs db)
unfolding perform_all
perform_all-IsSound [] db h = h
perform_all-IsSound (c ∷ cs) db h = perform_all-IsSound cs (perform c db) (perform-IsSound c db h)

-- A DELIVERED order and a SOLD card.
pub record IsSettled (j k : ℕ) (o : Order) (c : StockCard) (db : Store) : Type 0 where
  pub order_there : find j db.orders ≡ some o
  pub card_there : find k db.stock_cards ≡ some c
  pub order_delivered : is_delivered o.status ≡ true
  pub card_sold : is_sold c.status ≡ true

module _ {j k : ℕ} {o : Order} {c : StockCard} where
  Step-IsSettled :
      {db db' : Store} → IsSound db → IsSettled j k o c db → Step db db' → IsSettled j k o c db'
  Step-IsSettled good h (skip orders cards) = record {
    order_there = ap (find j) orders ∙ h.order_there;
    card_there = ap (find k) cards ∙ h.card_there;
    order_delivered = h.order_delivered;
    card_sold = h.card_sold;
  }
  Step-IsSettled {db = db} good h (place n dto products now total made) =
      let keyed = good.consistent.keyed_cards in
      let (after, free) = Takes-find products k c keyed made.taking h.card_there in
      let linked =
        find-update_many-some k (λ k c. includes made.ids k) (set_order_id n.order_id) made.locked _
          after in
      let order = h.order_there in
      let sold = h.card_sold in
      record {
        order_there =
            ap (find j) made.orders_after ∙ ground (arith, ==_iff n.order_id j, made.fresh);
        card_there =
            ap (find k) made.cards_after ∙ linked ∙ elim (Bool-cases (includes made.ids k)) [
              | inl e ↦ let was = free e in absurd (ground arith)
              | inr e ↦ ground arith
            ];
        order_delivered = h.order_delivered;
        card_sold = h.card_sold;
      }
  Step-IsSettled {db = db} good h (pay id now a there waits orders cards) =
      let delivered = h.order_delivered in
      record {
        order_there = ap (find j) orders ∙ elim (Bool-cases (j == id)) [
          | inl same ↦
              let one = sym (ap (λ x. find x db.orders) ((==_iff j id).0 same)) ∙ h.order_there in
              absurd (ground arith)
          | inr other ↦
              find-adjust_ne j id (set_paid now) db.orders (ground (arith, ==_iff j id))
              ∙ h.order_there
        ];
        card_there = ap (find k) cards ∙ h.card_there;
        order_delivered = h.order_delivered;
        card_sold = h.card_sold;
      }
  Step-IsSettled {db = db} good h (sell id now a there paid number orders cards) =
      let order =
        find-update_many-some j (paid_row id) (set_delivered now) db.orders o h.order_there in
      let card =
        find-update_many-some k (locked_for id) (set_sold now) db.stock_cards c h.card_there in
      let delivered = h.order_delivered in
      let sold = h.card_sold in
      record {
        order_there = ap (find j) orders ∙ order ∙ ground arith;
        card_there = ap (find k) cards ∙ card ∙ ground arith;
        order_delivered = h.order_delivered;
        card_sold = h.card_sold;
      }
  Step-IsSettled {db = db} good h (expire id a there waits orders cards) =
      let order = find-update_many-some j (pending_row id) set_expired db.orders o h.order_there in
      let card = find-update_many-some k (locked_for id) set_free db.stock_cards c h.card_there in
      let delivered = h.order_delivered in
      let sold = h.card_sold in
      record {
        order_there = ap (find j) orders ∙ order ∙ ground arith;
        card_there = ap (find k) cards ∙ card ∙ ground arith;
        order_delivered = h.order_delivered;
        card_sold = h.card_sold;
      }

  Steps-IsSettled :
      {db db' : Store} → IsSound db → IsSettled j k o c db → Steps db db' → IsSettled j k o c db'
  Steps-IsSettled good h done = h
  Steps-IsSettled good h (then s rest) =
      Steps-IsSettled (Step-IsSound good s) (Step-IsSettled good h s) rest

-- In a sound store, an order that is DELIVERED and a card that is SOLD are the same rows after any
-- sequence of purchases, messages of a channel, events of paid orders, retries, deliveries and runs
-- of the order timer.
pub perform_all-IsSettled :
    (cs : List Call) (db : Store) (j k : ℕ) (o : Order) (c : StockCard)
    → IsSound db
    → IsSettled j k o c db
    → IsSettled j k o c (perform_all cs db)
unfolding perform_all
perform_all-IsSettled [] db j k o c good h = h
perform_all-IsSettled (call ∷ cs) db j k o c good h =
    perform_all-IsSettled cs (perform call db) j k o c (perform-IsSound call db good)
      (Steps-IsSettled good h (perform-Steps call db good.consistent.keyed_orders))
