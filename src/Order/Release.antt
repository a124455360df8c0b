-- ===== src/Order/Release.antt =====
-- The timer gives back only the cards of PENDING orders whose time is over.
use winmelon_card.Base.{
  ℕ, ◌≡◌, refl, sym, ◌∙◌, ap, subst, inl, inr, Bool, true, false, ◌&&◌, none, some, List, [], ◌∷◌,
  arith, ◌==◌, if◌then◌else◌, Bool-cases, ==_iff, includes, take,
}
use winmelon_card.Order.Keys.{query_passes, by_contrast}
use winmelon_card.Base.Table.{
  find, find_many, update_many, IsKeyed, update_many-IsKeyed, find-update_many-some,
  update_many_none, count_keyed,
}
use winmelon_card.Base.Result.{ok}
use winmelon_card.Schema.{StockCard, Order}
use winmelon_card.Schema.Store.{Store}
use winmelon_card.Order.{keys, is_locked}
use winmelon_card.Order.Expiry.{
  is_pending, is_overdue, pending_row, set_expired, locked_for, set_free, expire_order, expire_each,
  expire_orders,
}

-- One order: it expires if it is still PENDING, and then its LOCKED cards are free.
pub expire_order_pending :
    (id : ℕ) (db : Store) (o : Order)
    → IsKeyed db.orders
    → find id db.orders ≡ some o
    → expire_order id db ≡ (
      ok tt,
      if is_pending o.status
          then record db {
            orders = update_many (pending_row id) set_expired db.orders;
            stock_cards = update_many (locked_for id) set_free db.stock_cards;
          }
          else db,
    )
unfolding expire_order
expire_order_pending id db o keyed there =
    let number = count_keyed id (λ o. is_pending o.status) db.orders o keyed there in
    elim (Bool-cases (is_pending o.status)) [
      | inl e ↦ ground arith
      | inr e ↦
          let same = update_many_none (pending_row id) set_expired db.orders (ground arith) in
          ground arith
    ]

-- The store after one round.
abbrev pub released : ℕ → Store → Store
released id db = (expire_order id db).1

expire_order_ok : (id : ℕ) (db : Store) → (expire_order id db).0 ≡ ok tt
unfolding expire_order
expire_order_ok id db = ground arith

pub expire_each-cons :
    (id : ℕ) (ids : List ℕ) (db : Store)
    → expire_each (id ∷ ids) db ≡ expire_each ids (released id db)
unfolding expire_each
expire_each-cons id ids db = let good = expire_order_ok id db in ground arith

released-orders :
    (id : ℕ) (db : Store)
    → (released id db).orders ≡ update_many (pending_row id) set_expired db.orders
unfolding expire_order
released-orders id db = ground arith

abbrev expired_if : Bool → Order → Order
expired_if b o = if b && is_pending o.status then set_expired o else o

released-order :
    (id j : ℕ) (db : Store) (o : Order)
    → find j db.orders ≡ some o
    → find j (released id db).orders ≡ some (expired_if (id == j) o)
released-order id j db o there =
    let after = find-update_many-some j (pending_row id) set_expired db.orders o there in
    ap (find j) (released-orders id db) ∙ after ∙ ground arith

pub released-IsKeyed : (id : ℕ) (db : Store) → IsKeyed db.orders → IsKeyed (released id db).orders
released-IsKeyed id db keyed =
    subst (λ t. IsKeyed t) (sym (released-orders id db))
      (update_many-IsKeyed (pending_row id) set_expired db.orders keyed)

-- A card that belongs to no order stays.
released-free :
    (id : ℕ) (db : Store) (k : ℕ) (c : StockCard)
    → c.order_id ≡ none
    → find k db.stock_cards ≡ some c
    → find k (released id db).stock_cards ≡ some c
unfolding expire_order
released-free id db k c alone here =
    let after = find-update_many-some k (locked_for id) set_free db.stock_cards c here in
    ground arith

expire_each-free :
    (ids : List ℕ) (db : Store) (k : ℕ) (c : StockCard)
    → c.order_id ≡ none
    → find k db.stock_cards ≡ some c
    → find k (expire_each ids db).1.stock_cards ≡ some c
unfolding expire_each
expire_each-free [] db k c alone here = here
expire_each-free (id ∷ ids) db k c alone here =
    ap (λ x. find k x.1.stock_cards) (expire_each-cons id ids db)
    ∙ expire_each-free ids (released id db) k c alone (released-free id db k c alone here)

abbrev freed_if : Bool → StockCard → StockCard
freed_if b c = if b && is_locked c.status then set_free c else c

released-card :
    (id k j : ℕ) (db : Store) (c : StockCard) (o : Order)
    → IsKeyed db.orders
    → c.order_id ≡ some j
    → find j db.orders ≡ some o
    → find k db.stock_cards ≡ some c
    → find k (released id db).stock_cards ≡ some (freed_if (id == j && is_pending o.status) c)
unfolding expire_order
released-card id k j db c o keyed linked there here =
    let after = find-update_many-some k (locked_for id) set_free db.stock_cards c here in
    elim (Bool-cases (id == j)) [
      | inr e ↦ ground arith
      | inl e ↦
          let number =
            count_keyed id (λ o. is_pending o.status) db.orders o keyed
              (ground (arith, ==_iff id j)) in
          ground arith
    ]

-- An order of the list expires if it is PENDING; no other order changes.
expire_each-order :
    (ids : List ℕ) (j : ℕ) (db : Store) (o : Order)
    → find j db.orders ≡ some o
    → find j (expire_each ids db).1.orders ≡ some (expired_if (includes ids j) o)
unfolding expire_each
expire_each-order [] j db o there = there
expire_each-order (id ∷ ids) j db o there =
    ap (λ x. find j x.1.orders) (expire_each-cons id ids db)
    ∙ expire_each-order ids j (released id db) (expired_if (id == j) o)
        (released-order id j db o there)
    ∙ ground arith

-- Its LOCKED cards become free with it; no other card changes.
expire_each-card :
    (ids : List ℕ) (k j : ℕ) (db : Store) (c : StockCard) (o : Order)
    → IsKeyed db.orders
    → c.order_id ≡ some j
    → find j db.orders ≡ some o
    → find k db.stock_cards ≡ some c
    → find k (expire_each ids db).1.stock_cards
      ≡ some (freed_if (includes ids j && is_pending o.status) c)
unfolding expire_each
expire_each-card [] k j db c o keyed linked there here = here
expire_each-card (id ∷ ids) k j db c o keyed linked there here =
    let one = released-card id k j db c o keyed linked there here in
    let order = released-order id j db o there in
    ap (λ x. find k x.1.stock_cards) (expire_each-cons id ids db)
    ∙ elim (Bool-cases ((id == j && is_pending o.status) && is_locked c.status)) [
      | inl e ↦
          expire_each-free ids (released id db) k (set_free c) refl (one ∙ ground arith)
          ∙ ground arith
      | inr e ↦
          expire_each-card ids k j (released id db) c (expired_if (id == j) o)
            (released-IsKeyed id db keyed) linked order (one ∙ ground arith)
          ∙ ground arith
    ]

-- The orders that one run of the timer handles.
abbrev pub overdue : ℕ → Store → List ℕ
overdue now db = take 100 (keys (find_many (λ id o. is_overdue now o) db.orders))

-- Orders in time keep their cards.
pub expire_orders_kept :
    (now k j : ℕ) (db : Store) (c : StockCard) (o : Order)
    → IsKeyed db.orders
    → find j db.orders ≡ some o
    → is_overdue now o ≡ false
    → find k db.stock_cards ≡ some c
    → c.order_id ≡ some j
    → (find j (expire_orders now db).1.orders ≡ some o)
      × (find k (expire_orders now db).1.stock_cards ≡ some c)
unfolding expire_orders
expire_orders_kept now k j db c o keyed there early here linked =
    let out : includes (overdue now db) j ≡ false =
      by_contrast (includes (overdue now db) j) (is_overdue now o)
        (query_passes (λ id a. is_overdue now a) 100 db.orders j o keyed there) early in
    (
      expire_each-order (overdue now db) j db o there ∙ ground arith,
      expire_each-card (overdue now db) k j db c o keyed linked there here ∙ ground arith,
    )

-- An overdue order that the query returns expires, and its LOCKED cards are free again.
pub expire_orders_freed :
    (now k j : ℕ) (db : Store) (c : StockCard) (o : Order)
    → IsKeyed db.orders
    → find j db.orders ≡ some o
    → includes (overdue now db) j ≡ true
    → find k db.stock_cards ≡ some c
    → c.order_id ≡ some j
    → is_locked c.status ≡ true
    → (find j (expire_orders now db).1.orders ≡ some (set_expired o))
      × (find k (expire_orders now db).1.stock_cards ≡ some (set_free c))
unfolding expire_orders
expire_orders_freed now k j db c o keyed there late here linked locked =
    let due = query_passes (λ id a. is_overdue now a) 100 db.orders j o keyed there late in
    (
      expire_each-order (overdue now db) j db o there ∙ ground arith,
      expire_each-card (overdue now db) k j db c o keyed linked there here ∙ ground arith,
    )
