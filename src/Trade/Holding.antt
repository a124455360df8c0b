-- ===== src/Trade/Holding.antt =====
-- Which cards an order may hold, and what the updates of the services do to that.
use winmelon_card.Base.{
  ℕ, ◌≡◌, sym, subst, inl, inr, Bool, true, false, ◌&&◌, ◌||◌, Option, none, some, arith, ◌==◌,
  if◌then◌else◌, includes, Bool-cases, Option-cases, ==_iff,
}
use winmelon_card.Base.Int.{ℤ}
use winmelon_card.Base.Table.{
  Table, find, insert, adjust, update_many, IsKeyed, update_many-IsKeyed, adjust-IsKeyed,
  find-update_many-some, find-update_many-back, find-adjust_self, find-adjust_ne,
}
use winmelon_card.Schema.{Order, StockCard, StockCardStatus, Product}
use winmelon_card.Schema.Store.{Store}
use winmelon_card.Order.{CreateOrder, NewOrder, new_order, is_locked, set_order_id}
use winmelon_card.Order.Placement.{Takes-find, Takes-absent, Takes-IsKeyed}
use winmelon_card.Order.Placed.{IsPlaced}
use winmelon_card.Order.Expiry.{is_pending, pending_row, set_expired, locked_for, set_free}
use winmelon_card.Order.Query.{is_delivered, is_sold}
use winmelon_card.Delivery.{is_paid, paid_row, set_delivered, set_sold}
use winmelon_card.Payment.{set_paid}

-- A card that belongs to an order is LOCKED while the order waits for its payment or its delivery,
-- and SOLD once it is DELIVERED.
abbrev pub fits_order : Option Order → StockCardStatus → Bool
fits_order none s = false
fits_order (some o) s =
    (is_locked s && (is_pending o.status || is_paid o.status))
    || (is_sold s && is_delivered o.status)

-- A card that belongs to no order is neither LOCKED nor SOLD.
abbrev pub fits : Option ℕ → StockCardStatus → Table Order → Bool
fits none s t = if is_locked s || is_sold s then false else true
fits (some j) s t = fits_order (find j t) s

pub record IsConsistent (orders : Table Order) (cards : Table StockCard) : Type 0 where
  pub keyed_orders : IsKeyed orders
  pub keyed_cards : IsKeyed cards
  pub fitting :
      (k : ℕ) (c : StockCard) → find k cards ≡ some c → fits c.order_id c.status orders ≡ true

-- An order becomes PAID.
pub paid-IsConsistent :
    (id now : ℕ) (o : Order) (orders : Table Order) (cards : Table StockCard)
    → IsConsistent orders cards
    → find id orders ≡ some o
    → is_pending o.status ≡ true
    → IsConsistent (adjust id (set_paid now) orders) cards
paid-IsConsistent id now o orders cards h there pending = record {
  keyed_orders = adjust-IsKeyed id (set_paid now) orders h.keyed_orders;
  keyed_cards = h.keyed_cards;
  fitting = λ k c here.
      let before = h.fitting k c here in
      let after = find-adjust_self id (set_paid now) orders o there in
      elim (Option-cases c.order_id) [
        | inl e ↦ ground arith
        | inr (j, e) ↦ elim (Bool-cases (j == id)) [
          | inl same ↦ ground (arith, (==_iff j id).0 same)
          | inr other ↦
              let kept = find-adjust_ne j id (set_paid now) orders (ground (arith, ==_iff j id)) in
              ground arith
        ]
      ];
}

-- An order expires with its cards.
pub expired-IsConsistent :
    (id : ℕ) (o : Order) (orders : Table Order) (cards : Table StockCard)
    → IsConsistent orders cards
    → find id orders ≡ some o
    → is_pending o.status ≡ true
    → IsConsistent
        (update_many (pending_row id) set_expired orders)
        (update_many (locked_for id) set_free cards)
expired-IsConsistent id o orders cards h there pending = record {
  keyed_orders = update_many-IsKeyed (pending_row id) set_expired orders h.keyed_orders;
  keyed_cards = update_many-IsKeyed (locked_for id) set_free cards h.keyed_cards;
  fitting = λ k c' here.
      let (c, was, now) = find-update_many-back k (locked_for id) set_free cards c' here in
      let before = h.fitting k c was in
      elim (Option-cases c.order_id) [
        | inl e ↦ ground arith
        | inr (j, e) ↦ elim (Option-cases (find j orders)) [
          | inl gone ↦ absurd (ground arith)
          | inr (a, found) ↦
              let after = find-update_many-some j (pending_row id) set_expired orders a found in
              elim (Bool-cases (j == id)) [
                | inl same ↦ ground (arith, (==_iff j id).0 same)
                | inr other ↦ ground (arith, ==_iff j id)
              ]
        ]
      ];
}

-- An order is DELIVERED, and its cards are SOLD.
pub delivered-IsConsistent :
    (id now : ℕ) (o : Order) (orders : Table Order) (cards : Table StockCard)
    → IsConsistent orders cards
    → find id orders ≡ some o
    → is_paid o.status ≡ true
    → IsConsistent
        (update_many (paid_row id) (set_delivered now) orders)
        (update_many (locked_for id) (set_sold now) cards)
delivered-IsConsistent id now o orders cards h there paid = record {
  keyed_orders = update_many-IsKeyed (paid_row id) (set_delivered now) orders h.keyed_orders;
  keyed_cards = update_many-IsKeyed (locked_for id) (set_sold now) cards h.keyed_cards;
  fitting = λ k c' here.
      let (c, was, is) = find-update_many-back k (locked_for id) (set_sold now) cards c' here in
      let before = h.fitting k c was in
      elim (Option-cases c.order_id) [
        | inl e ↦ ground arith
        | inr (j, e) ↦ elim (Option-cases (find j orders)) [
          | inl gone ↦ absurd (ground arith)
          | inr (a, found) ↦
              let after =
                find-update_many-some j (paid_row id) (set_delivered now) orders a found in
              elim (Bool-cases (j == id)) [
                | inl same ↦ ground (arith, (==_iff j id).0 same)
                | inr other ↦ ground (arith, ==_iff j id)
              ]
        ]
      ];
}

-- A new order, whose key no card carries, takes cards that are AVAILABLE.
pub placed-IsConsistent :
    (n : NewOrder) (dto : CreateOrder) (products : Table Product) (now : ℕ) (total : ℤ)
    (db db' : Store)
    → IsConsistent db.orders db.stock_cards
    → IsPlaced n dto products now total db db'
    → IsConsistent db'.orders db'.stock_cards
placed-IsConsistent n dto products now total db db' h done =
    let o = new_order n dto done.rows now in
    let f = set_order_id n.order_id in
    let keyed = Takes-IsKeyed products h.keyed_cards done.taking in
    subst (λ t. IsConsistent t db'.stock_cards) (sym done.orders_after)
      (subst (λ t. IsConsistent (insert n.order_id o db.orders) t) (sym done.cards_after)
        (record {
          keyed_orders = (done.fresh, h.keyed_orders);
          keyed_cards = update_many-IsKeyed (λ k c. includes done.ids k) f done.locked keyed;
          fitting = λ k c' here.
              let (b, was, is) =
                find-update_many-back k (λ k c. includes done.ids k) f done.locked c' here in
              elim (Option-cases (find k db.stock_cards)) [
                | inl gone ↦ absurd (ground (arith, Takes-absent products k gone done.taking))
                | inr (c, found) ↦
                    let before = h.fitting k c found in
                    let (after, free) = Takes-find products k c h.keyed_cards done.taking found in
                    elim (Bool-cases (includes done.ids k)) [
                      | inl e ↦ ground (arith, ==_iff n.order_id n.order_id)
                      | inr e ↦ elim (Option-cases c.order_id) [
                        | inl g ↦ ground arith
                        | inr (j, g) ↦ elim (Bool-cases (n.order_id == j)) [
                          | inl same ↦ absurd (ground (arith, ==_iff n.order_id j, done.fresh))
                          | inr other ↦ ground arith
                        ]
                      ]
                    ]
              ];
        }))
