-- ===== src/Refund/Locked.antt =====
-- The cards of an order that is refunded before its delivery.
use winmelon_card.Base.{
  ℕ, ◌≡◌, sym, ◌∙◌, ap, inl, inr, true, false, Option, none, some, arith, if◌then◌else◌,
  Option-cases, Bool-cases, ◌||◌,
}
use winmelon_card.Base.Table.{find, IsKeyed, find-update_many-some}
use winmelon_card.Base.Result.{ok, Result-cases}
use winmelon_card.Schema.{StockCard, Refund, Order, OrderStatus, Payment}
use winmelon_card.Schema.Store.{Store}
use winmelon_card.Order.{is_locked}
use winmelon_card.Order.Expiry.{is_overdue, expire_orders}
use winmelon_card.Order.Query.{is_delivered, sold_for}
use winmelon_card.Order.Release.{expire_orders_kept}
use winmelon_card.Delivery.{is_paid}
use winmelon_card.Refund.{mark_paid, settle_refund, PayoutRequest, set_reset, is_approved}
use winmelon_card.Refund.Payout.{mark_paid-IsPaid, channel_trade_no-cases}

settle_refund-locked :
    (id : ℕ) (r : Refund) (p : PayoutRequest) (t : Option ℕ) (now : ℕ) (db : Store) (k : ℕ)
    (c : StockCard)
    → find k db.stock_cards ≡ some c
    → is_locked c.status ≡ true
    → (settle_refund id r p t now db).0 ≡ ok tt
    → find k (settle_refund id r p t now db).1.stock_cards ≡ some c
unfolding settle_refund
settle_refund-locked id r p t now db k c here locked good =
    let after = find-update_many-some k (sold_for r.order_id) set_reset db.stock_cards c here in
    ground arith

-- The payout of a refund leaves LOCKED cards alone.
pub mark_paid-locked :
    (answer : ℕ → Payment → Option ℕ) (id : ℕ) (p : PayoutRequest) (now : ℕ) (db : Store) (k : ℕ)
    (c : StockCard)
    → find k db.stock_cards ≡ some c
    → is_locked c.status ≡ true
    → find k (mark_paid answer id p now db).1.stock_cards ≡ some c
unfolding mark_paid
mark_paid-locked answer id p now db k c here locked = elim (Option-cases (find id db.refunds)) [
  | inl e ↦ ground arith
  | inr (r, e) ↦ elim (Bool-cases (is_approved r.status)) [
    | inr a ↦ ground arith
    | inl a ↦ elim (channel_trade_no-cases answer r p db) [
      | inr (y, asked) ↦ ground arith
      | inl (t, asked) ↦ elim (Result-cases (settle_refund id r p t now db).0) [
        | inr (y, settled) ↦ ground arith
        | inl (u, settled) ↦
            let kept = settle_refund-locked id r p t now db k c here locked (ground arith) in
            ground arith
      ]
    ]
  ]
]

-- An order that is refunded before its delivery keeps its LOCKED cards: the timer that gives cards
-- back passes the order over.
pub mark_paid-expire_orders :
    (answer : ℕ → Payment → Option ℕ) (id : ℕ) (p : PayoutRequest) (now later : ℕ) (db : Store)
    (k : ℕ) (c : StockCard) (r : Refund) (o : Order)
    → find id db.refunds ≡ some r
    → find r.order_id db.orders ≡ some o
    → is_paid o.status ≡ true
    → (mark_paid answer id p now db).0 ≡ ok tt
    → IsKeyed (mark_paid answer id p now db).1.orders
    → find k db.stock_cards ≡ some c
    → c.order_id ≡ some r.order_id
    → is_locked c.status ≡ true
    → find k (expire_orders later (mark_paid answer id p now db).1).1.stock_cards ≡ some c
mark_paid-expire_orders answer id p now later db k c r o found there paid good keyed here linked
      locked =
    let done = mark_paid-IsPaid answer id p now db good in
    let same_refund : some done.r ≡ some r = sym done.refund_found ∙ found in
    let same_id : done.r.order_id ≡ r.order_id = ground arith in
    let same_order : some done.o ≡ some o =
      sym done.order_found ∙ ap (λ j. find j db.orders) same_id ∙ there in
    let after : find r.order_id (mark_paid answer id p now db).1.orders ≡ some done.o' =
      ap (λ j. find j (mark_paid answer id p now db).1.orders) (sym same_id) ∙ done.order_after in
    let still : is_paid done.o.status ≡ true =
      ap (λ x. elim x [ none ↦ false | some q ↦ is_paid q.status ]) same_order ∙ paid in
    let status : done.o'.status ≡ OrderStatus.refunded =
      done.is_refunded
      ∙ ap (λ b. if b || is_delivered done.o.status then OrderStatus.refunded else done.o.status)
          still in
    (expire_orders_kept later k r.order_id (mark_paid answer id p now db).1 c done.o' keyed after
      (ap (λ s. is_overdue later (record done.o' { status = s })) status)
      (mark_paid-locked answer id p now db k c here locked) linked).1
