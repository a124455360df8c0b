-- ===== src/Order/Stock.antt =====
-- The cards and the amount of a new order.
use winmelon_card.Base.{
  ◌≢◌, ℕ, ◌+◌, ◌≤◌, ◌≡◌, refl, sym, ◌∙◌, ap, subst, inl, inr, true, false, some, List, [], ◌∷◌,
  arith, if◌then◌else◌, includes, Bool-cases,
}
use winmelon_card.Base.Int.{ℤ, pos, ◌+ℤ◌, scale}
use winmelon_card.Base.Table.{
  find_first, insert, Table, find, count, IsKeyed, find-update_many-some,
}
use winmelon_card.Base.Result.{Result, ok, ok_inj}
use winmelon_card.Schema.{OrderStatus, Order, StockCard, Product, OrderItem}
use winmelon_card.Schema.Store.{Store}
use winmelon_card.Order.{
  by_idempotency_key, replay, new_order, CreateOrder, CreateOrderItem, NewOrder, OrderReply,
  set_locked, is_available, set_order_id, belongs_to, order_total, create,
}
use winmelon_card.Order.Cards.{Takes, nothing, next, Takes-length, requested}
use winmelon_card.Order.Placed.{IsPlaced}
use winmelon_card.Order.Creation.{
  Created, refused, replayed, placed, create-Created, check_order-cases,
}
use winmelon_card.Delivery.{total_quantity}
use winmelon_card.Order.Placement.{Takes-count, count-free_among, count-belongs_to, Takes-find}

-- What the rows of an order come to.
abbrev pub bill : List OrderItem → ℤ
bill [] = pos 0
bill (it ∷ its) = scale it.unit_price it.quantity +ℤ bill its

pub Takes-bill :
    (products : Table Product) {is : List CreateOrderItem} {t t' : Table StockCard} {ids : List ℕ}
    {rows : List OrderItem}
    → Takes products is t ids rows t'
    → (order_total rows ≡ bill rows) × (total_quantity rows ≡ requested is)
Takes-bill products nothing = (refl, refl)
Takes-bill products {is = i ∷ is} (next p e enough rest) =
    let (same, number) = Takes-bill products rest in
    (ap (λ b. scale p.price i.quantity +ℤ b) same, ap (λ b. i.quantity + b) number)

-- A reply that is not a replay speaks of a new order.
pub record IsNew (order_id : ℕ) (dto : CreateOrder) (now : ℕ) (total : ℤ) (db db' : Store)
    : Type 0 where
  pub n : NewOrder
  pub products : Table Product
  pub same_id : n.order_id ≡ order_id
  pub is_placed : IsPlaced n dto products now total db db'

Created-IsNew :
    {order_id order_no : ℕ} {dto : CreateOrder} {now : ℕ} {db : Store} {x : Result OrderReply}
    {db' : Store} (r : OrderReply)
    → Created order_id order_no dto now db x db'
    → x ≡ ok r
    → r.idempotent_replay ≡ false
    → IsNew order_id dto now r.total_amount db db'
Created-IsNew r (refused e o c) is new = absurd (ground arith)
Created-IsNew r (replayed row e) is new = absurd (ground arith)
Created-IsNew {order_id = order_id} {dto = dto} {now = now} {db = db} {db' = db'} r
      (placed n products total e same_id same_no done) is new =
    record {
      n = n;
      products = products;
      same_id = same_id;
      is_placed =
          subst (λ a. IsPlaced n dto products now a db db') (ap (λ y. y.total_amount) (ok_inj is))
            done;
    }

-- The unique index on `orderId` lets one card at most belong to an order.
pub create-requested :
    (order_id order_no : ℕ) (dto : CreateOrder) (ip now : ℕ) (db : Store) (r : OrderReply)
    → (create order_id order_no dto ip now db).0 ≡ ok r
    → r.idempotent_replay ≡ false
    → requested dto.items ≤ 1
create-requested order_id order_no dto ip now db r good new =
    let made = Created-IsNew r (create-Created order_id order_no dto ip now db) good new in
    let done = made.is_placed in
    let (few, number) = Takes-length made.products done.taking in
    let linked = count-belongs_to done.ids made.n.order_id done.locked in
    let same = Takes-count (includes done.ids) made.products done.taking in
    omega (
      arith,
      few,
      number,
      linked,
      same,
      count-free_among done.ids db.stock_cards,
      ap (count (belongs_to made.n.order_id)) done.cards_after,
      done.unique,
    )

-- A card is left alone, or it was AVAILABLE and is now LOCKED for the order.
pub data CardChange (order_id k : ℕ) (c : StockCard) (t' : Table StockCard) : Type 0 where
  kept : find k t' ≡ some c → CardChange order_id k c t'
  reserved :
      is_available c.status ≡ true
      → find k t' ≡ some (set_order_id order_id (set_locked c))
      → CardChange order_id k c t'

placed-CardChange :
    (order_id k : ℕ) (c : StockCard) (dto : CreateOrder) (now : ℕ) (total : ℤ) (db db' : Store)
    → IsKeyed db.stock_cards
    → find k db.stock_cards ≡ some c
    → IsNew order_id dto now total db db'
    → CardChange order_id k c db'.stock_cards
placed-CardChange order_id k c dto now total db db' keyed here made =
    let done = made.is_placed in
    let (after, free) = Takes-find made.products k c keyed done.taking here in
    let f = set_order_id made.n.order_id in
    let linked =
      find-update_many-some k (λ j b. includes done.ids j) f done.locked
        (if includes done.ids k then set_locked c else c) after in
    let there = ap (find k) done.cards_after ∙ linked in
    elim (Bool-cases (includes done.ids k)) [
      | inl e ↦ reserved (free e) (ground arith)
      | inr e ↦ kept (ground arith)
    ]

Created-CardChange :
    {order_id order_no : ℕ} {dto : CreateOrder} {now : ℕ} {db db' : Store} {x : Result OrderReply}
    (k : ℕ) (c : StockCard)
    → IsKeyed db.stock_cards
    → find k db.stock_cards ≡ some c
    → Created order_id order_no dto now db x db'
    → CardChange order_id k c db'.stock_cards
Created-CardChange k c keyed here (refused e o same) = kept (ap (find k) same ∙ here)
Created-CardChange k c keyed here (replayed row e) = kept here
Created-CardChange {order_id = order_id} {dto = dto} {now = now} {db = db} {db' = db'} k c keyed
      here (placed n products total new same_id same_no done) =
    placed-CardChange order_id k c dto now total db db' keyed here
      (record { n = n; products = products; same_id = same_id; is_placed = done })

-- A call takes AVAILABLE cards only, for its own order, and touches no other card.
pub create-CardChange :
    (order_id order_no : ℕ) (dto : CreateOrder) (ip now : ℕ) (db : Store) (k : ℕ) (c : StockCard)
    → IsKeyed db.stock_cards
    → find k db.stock_cards ≡ some c
    → CardChange order_id k c (create order_id order_no dto ip now db).1.stock_cards
create-CardChange order_id order_no dto ip now db k c keyed here =
    Created-CardChange k c keyed here (create-Created order_id order_no dto ip now db)

-- The row of a new order.
pub record IsOrdered (order_id : ℕ) (dto : CreateOrder) (now : ℕ) (total : ℤ) (db db' : Store)
    : Type 0 where
  pub o : Order
  pub order_after : find order_id db'.orders ≡ some o
  pub is_pending : o.status ≡ OrderStatus.pending
  pub same_key : o.idempotency_key ≡ dto.idempotency_key
  pub same_total : o.total_amount ≡ total
  pub is_billed : o.total_amount ≡ bill o.items
  pub quantities : total_quantity o.items ≡ requested dto.items
  pub expires : o.expire_at ≡ now + 600000
  pub others : (j : ℕ) → j ≢ order_id → find j db'.orders ≡ find j db.orders

pub create-IsOrdered :
    (order_id order_no : ℕ) (dto : CreateOrder) (ip now : ℕ) (db : Store) (r : OrderReply)
    → (create order_id order_no dto ip now db).0 ≡ ok r
    → r.idempotent_replay ≡ false
    → IsOrdered order_id dto now r.total_amount db (create order_id order_no dto ip now db).1
create-IsOrdered order_id order_no dto ip now db r good new =
    let made = Created-IsNew r (create-Created order_id order_no dto ip now db) good new in
    let done = made.is_placed in
    let o = new_order made.n dto done.rows now in
    let (billed, number) = Takes-bill made.products done.taking in
    let there : find order_id (insert made.n.order_id o db.orders) ≡ some o =
      ground (arith, made.same_id) in
    record {
      o = o;
      order_after = ap (find order_id) done.orders_after ∙ there;
      is_pending = refl;
      same_key = refl;
      same_total = sym done.is_total;
      is_billed = billed;
      quantities = number;
      expires = refl;
      others = λ j ne. ap (find j) done.orders_after ∙ ground (arith, made.same_id);
    }

-- A repeated request gets the order that the first one made, and nothing is written.
pub create-replay :
    (order_id order_no : ℕ) (dto : CreateOrder) (ip now : ℕ) (db : Store) (r : OrderReply)
    (row : ℕ × Order)
    → find_first (by_idempotency_key dto.idempotency_key) db.orders ≡ some row
    → (create order_id order_no dto ip now db).0 ≡ ok r
    → create order_id order_no dto ip now db ≡ (ok (replay row), db)
unfolding create
create-replay order_id order_no dto ip now db r row known good =
    elim (check_order-cases ip dto.buyer_email now db) [
      | inl e ↦ ground arith
      | inr (x, e, f, g) ↦ absurd (ground arith)
    ]
