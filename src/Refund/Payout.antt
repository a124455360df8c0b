-- ===== src/Refund/Payout.antt =====
-- What the payment of a refund does to the refund, the order, the merchant and the cards.
use winmelon_card.Base.{
  ℕ, ◌≡◌, refl, ◌⊎◌, inl, inr, Bool, true, false, Option, none, some, List, [], ◌∷◌, arith,
  if◌then◌else◌, Option-cases, Bool-cases, subst,
}
use winmelon_card.Base.Int.{ℤ, ◌-ℤ◌, ◌≤ℤ◌}
use winmelon_card.Base.Table.{Table, find, adjust, update_many, count, find-adjust_self}
use winmelon_card.Base.Result.{
  ok, err, Error, Result-cases, bad_request, bad_status, channel_failed,
}
use winmelon_card.Schema.{Refund, RefundStatus, Order, OrderStatus, Merchant, StockCard, Payment}
use winmelon_card.Schema.Store.{Store, Event, AuditLog, order_refunded, refund_mark_paid}
use winmelon_card.Order.Query.{sold_for}
use winmelon_card.Payment.{refund_channel}
use winmelon_card.Refund.{
  mark_paid, settle_refund, PayoutRequest, is_approved, is_refundable, merchant_of, set_refund_paid,
  set_refunded, set_reset, debit, merchant_balance_floor, charge_merchant, channel_trade_no,
}

-- Asking the channel changes nothing here.
pub refund_channel-store :
    (answer : ℕ → Payment → Option ℕ) (order_id : ℕ) (db : Store)
    → (refund_channel answer order_id db).1 ≡ db
unfolding refund_channel
refund_channel-store answer order_id db = ground arith

-- A refund that is not APPROVED is not paid.
pub mark_paid_unapproved :
    (answer : ℕ → Payment → Option ℕ) (id : ℕ) (p : PayoutRequest) (now : ℕ) (db : Store)
    (r : Refund)
    → find id db.refunds ≡ some r
    → is_approved r.status ≡ false
    → mark_paid answer id p now db ≡ (err (bad_request bad_status), db)
unfolding mark_paid
mark_paid_unapproved answer id p now db r found closed = ground arith

-- The merchant that the refund is charged to, in the tables before and after.
pub data Charged (force : Bool) (amount : ℤ) (ms ms' : Table Merchant) : Option ℕ → Type 0 where
  nobody : ms' ≡ ms → Charged force amount ms ms' none
  unknown : (k : ℕ) → find k ms ≡ none → ms' ≡ ms → Charged force amount ms ms' (some k)
  charged :
      (k : ℕ) (m m' : Merchant)
      → find k ms ≡ some m
      → find k ms' ≡ some m'
      → m'.balance ≡ m.balance -ℤ amount
      → (force ≡ true) ⊎ (merchant_balance_floor ≤ℤ m'.balance)
      → Charged force amount ms ms' (some k)

pub record IsPaid (id : ℕ) (p : PayoutRequest) (db db' : Store) : Type 0 where
  pub r : Refund
  pub o : Order
  pub refund_found : find id db.refunds ≡ some r
  pub was_approved : is_approved r.status ≡ true
  pub order_found : find r.order_id db.orders ≡ some o
  pub r' : Refund
  pub refund_after : find id db'.refunds ≡ some r'
  pub is_paid : r'.status ≡ RefundStatus.paid
  pub same_amount : r'.amount ≡ r.amount
  pub o' : Order
  pub order_after : find r.order_id db'.orders ≡ some o'
  pub is_refunded : o'.status ≡ (if is_refundable o.status then OrderStatus.refunded else o.status)
  pub charge : Charged p.force_override r.amount db.merchants db'.merchants (merchant_of o db)
  pub cards : count (sold_for r.order_id) db'.stock_cards ≡ 0

no_sold_left :
    (k : ℕ) (t : Table StockCard) → count (sold_for k) (update_many (sold_for k) set_reset t) ≡ 0
no_sold_left k [] = refl
no_sold_left k ((id, c) ∷ t) = ground (arith, no_sold_left k t)

charge-Charged :
    (target : Option ℕ) (amount : ℤ) (force : Bool) (db : Store)
    → (charge_merchant target amount force db).0 ≡ ok tt
    → Charged force amount db.merchants (charge_merchant target amount force db).1.merchants target
charge-Charged none amount force db good = nobody refl
charge-Charged (some k) amount force db good = elim (Option-cases (find k db.merchants)) [
  | inl e ↦ unknown k e (ground arith)
  | inr (m, e) ↦
      charged k m (debit amount m) e
        (ground (arith, find-adjust_self k (debit amount) db.merchants m e)) refl (ground arith)
]

-- The store when the merchant is charged.
abbrev before_charge : ℕ → Refund → Order → PayoutRequest → Option ℕ → ℕ → Store → Store
before_charge id r o p t now db = record db {
  refunds = adjust id (set_refund_paid p t now) db.refunds;
  orders = if is_refundable o.status then adjust r.order_id set_refunded db.orders else db.orders;
}

settle_refund-Charged :
    (id : ℕ) (r : Refund) (o : Order) (p : PayoutRequest) (t : Option ℕ) (now : ℕ) (db : Store)
    → find r.order_id db.orders ≡ some o
    → (settle_refund id r p t now db).0 ≡ ok tt
    → Charged p.force_override r.amount db.merchants
        (settle_refund id r p t now db).1.merchants
        (merchant_of o db)
unfolding settle_refund
settle_refund-Charged id r o p t now db there good =
    let s = before_charge id r o p t now db in
    let charge = charge-Charged (merchant_of o s) r.amount p.force_override s (ground arith) in
    subst (λ ms. Charged p.force_override r.amount db.merchants ms (merchant_of o db))
      (ground arith) charge

settle_refund-IsPaid :
    (id : ℕ) (r : Refund) (p : PayoutRequest) (t : Option ℕ) (now : ℕ) (db : Store)
    → find id db.refunds ≡ some r
    → is_approved r.status ≡ true
    → (settle_refund id r p t now db).0 ≡ ok tt
    → IsPaid id p db (settle_refund id r p t now db).1
unfolding settle_refund
settle_refund-IsPaid id r p t now db found was good =
    elim (Option-cases (find r.order_id db.orders)) [
      | inl missing ↦ absurd (ground arith)
      | inr (o, there) ↦ record {
        r = r;
        o = o;
        refund_found = found;
        was_approved = was;
        order_found = there;
        r' = set_refund_paid p t now r;
        refund_after =
            ground (arith, find-adjust_self id (set_refund_paid p t now) db.refunds r found);
        is_paid = refl;
        same_amount = refl;
        o' = if is_refundable o.status then set_refunded o else o;
        order_after = ground (arith, find-adjust_self r.order_id set_refunded db.orders o there);
        is_refunded = ground arith;
        charge = settle_refund-Charged id r o p t now db there good;
        cards = ground (arith, no_sold_left r.order_id db.stock_cards);
      }
    ]

-- Events and the audit log do not matter to it.
IsPaid-logged :
    (id : ℕ) (p : PayoutRequest) (db db' : Store) (es : List Event) (logs : List AuditLog)
    → IsPaid id p db db'
    → IsPaid id p db (record db' { events = es; audit_logs = logs })
IsPaid-logged id p db db' es logs paid = record {
  r = paid.r;
  o = paid.o;
  refund_found = paid.refund_found;
  was_approved = paid.was_approved;
  order_found = paid.order_found;
  r' = paid.r';
  refund_after = paid.refund_after;
  is_paid = paid.is_paid;
  same_amount = paid.same_amount;
  o' = paid.o';
  order_after = paid.order_after;
  is_refunded = paid.is_refunded;
  charge = paid.charge;
  cards = paid.cards;
}

-- Whatever the channel answers, the store stays.
pub channel_trade_no-cases :
    (answer : ℕ → Payment → Option ℕ) (r : Refund) (p : PayoutRequest) (db : Store)
    → ((t : Option ℕ) × (channel_trade_no answer r p db ≡ (ok t, db)))
      ⊎ ((e : Error) × (channel_trade_no answer r p db ≡ (err e, db)))
channel_trade_no-cases answer r p db = elim (Bool-cases p.manual_payout) [
  | inl e ↦ inl (none, ground arith)
  | inr e ↦ elim (Option-cases p.trade_no) [
    | inr (t, f) ↦ inl (some t, ground arith)
    | inl f ↦
        let same = refund_channel-store answer r.order_id db in
        elim (Result-cases (refund_channel answer r.order_id db).0) [
          | inl (t, g) ↦ inl (some t, ground arith)
          | inr (x, g) ↦ inr (bad_request channel_failed, ground arith)
        ]
  ]
]

settled-IsPaid :
    (answer : ℕ → Payment → Option ℕ) (id : ℕ) (p : PayoutRequest) (now : ℕ) (db : Store)
    (r : Refund)
    → find id db.refunds ≡ some r
    → is_approved r.status ≡ true
    → (mark_paid answer id p now db).0 ≡ ok tt
    → IsPaid id p db (mark_paid answer id p now db).1
unfolding mark_paid
settled-IsPaid answer id p now db r found was good = elim (channel_trade_no-cases answer r p db) [
  | inr (x, asked) ↦ absurd (ground arith)
  | inl (t, asked) ↦ elim (Result-cases (settle_refund id r p t now db).0) [
    | inr (x, settled) ↦ absurd (ground arith)
    | inl (u, settled) ↦
        let after = (settle_refund id r p t now db).1 in
        let paid = settle_refund-IsPaid id r p t now db found was (ground arith) in
        subst (IsPaid id p db) (ground arith) (
          IsPaid-logged id p db after (order_refunded id r.order_id ∷ after.events)
            (record { action = refund_mark_paid; resource_id = id } ∷ after.audit_logs) paid)
  ]
]

-- A payout that returns has paid an APPROVED refund.
pub mark_paid-IsPaid :
    (answer : ℕ → Payment → Option ℕ) (id : ℕ) (p : PayoutRequest) (now : ℕ) (db : Store)
    → (mark_paid answer id p now db).0 ≡ ok tt
    → IsPaid id p db (mark_paid answer id p now db).1
unfolding mark_paid
mark_paid-IsPaid answer id p now db good = elim (Option-cases (find id db.refunds)) [
  | inl e ↦ absurd (ground arith)
  | inr (r, e) ↦ elim (Bool-cases (is_approved r.status)) [
    | inl a ↦ settled-IsPaid answer id p now db r e a good
    | inr a ↦ let refused = mark_paid_unapproved answer id p now db r e a in absurd (ground arith)
  ]
]

-- A payout that throws has written nothing.
pub mark_paid_refused :
    (answer : ℕ → Payment → Option ℕ) (id : ℕ) (p : PayoutRequest) (now : ℕ) (db : Store)
    (x : Error)
    → (mark_paid answer id p now db).0 ≡ err x
    → (mark_paid answer id p now db).1 ≡ db
unfolding mark_paid
mark_paid_refused answer id p now db x bad = elim (Option-cases (find id db.refunds)) [
  | inl e ↦ ground arith
  | inr (r, e) ↦ elim (Bool-cases (is_approved r.status)) [
    | inr a ↦ ground arith
    | inl a ↦ elim (channel_trade_no-cases answer r p db) [
      | inr (y, asked) ↦ ground arith
      | inl (t, asked) ↦ elim (Result-cases (settle_refund id r p t now db).0) [
        | inr (y, settled) ↦ ground arith
        | inl (u, settled) ↦ absurd (ground arith)
      ]
    ]
  ]
]
