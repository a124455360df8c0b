-- ===== src/Order/Placed.antt =====
-- The transaction that places an order.
use winmelon_card.Base.{
  ℕ, ◌≤◌, ◌≡◌, refl, inl, inr, List, [], ◌∷◌, arith, ltb, includes, length, Bool-cases,
  Option-cases, is_none, none,
}
use winmelon_card.Base.Int.{ℤ}
use winmelon_card.Base.Table.{Table, find, find_first, insert, update_many, count}
use winmelon_card.Base.Result.{ok, Result-cases}
use winmelon_card.Schema.{StockCard, Order, Product, OrderItem, RiskRecord}
use winmelon_card.Schema.Store.{Store, AuditLog}
use winmelon_card.Order.{
  CreateOrder, CreateOrderItem, NewOrder, select_cards, lock_cards, lock_items, place, insert_order,
  link_cards, set_order_id, belongs_to, new_order, order_total, taken,
}
use winmelon_card.Order.Cards.{Takes, lock_items-Takes}

-- An order that the transaction has placed.
pub record IsPlaced (n : NewOrder) (dto : CreateOrder) (products : Table Product) (now : ℕ)
    (total : ℤ) (db db' : Store) : Type 0 where
  pub ids : List ℕ
  pub rows : List OrderItem
  pub locked : Table StockCard
  pub taking : Takes products dto.items db.stock_cards ids rows locked
  pub orders_after : db'.orders ≡ insert n.order_id (new_order n dto rows now) db.orders
  pub cards_after :
      db'.stock_cards ≡ update_many (λ k c. includes ids k) (set_order_id n.order_id) locked
  pub is_total : total ≡ order_total rows
  pub unique : count (belongs_to n.order_id) db'.stock_cards ≤ 1
  pub fresh : find n.order_id db.orders ≡ none

-- No row with the new key may exist.
taken_absent :
    (id : ℕ) (o : Order) (t : Table Order) → find_first (taken id o) t ≡ none → find id t ≡ none
taken_absent id o [] h = refl
taken_absent id o ((j, other) ∷ t) h = ground (arith, taken_absent id o t)

lock_items-orders :
    (is : List CreateOrderItem) (products : Table Product) (db : Store)
    → (lock_items is products db).1.orders ≡ db.orders
unfolding lock_items
lock_items-orders [] products db = refl
lock_items-orders (i ∷ is) products db =
    let sel = select_cards i.product_id i.quantity db.stock_cards in
    let locked : Store = record db { stock_cards = lock_cards sel db.stock_cards } in
    let rest = lock_items-orders is products locked in
    elim (Option-cases (find i.product_id products)) [
      | inl e ↦ ground arith
      | inr (p, e) ↦ elim (Bool-cases (ltb (length sel) i.quantity)) [
        | inl few ↦ ground arith
        | inr enough ↦ elim (Result-cases (lock_items is products locked).0) [
          | inl (more, f) ↦ ground arith
          | inr (x, f) ↦ ground arith
        ]
      ]
    ]

pub place-IsPlaced :
    (n : NewOrder) (dto : CreateOrder) (products : Table Product) (now : ℕ) (total : ℤ) (db : Store)
    → (place n dto products now db).0 ≡ ok total
    → IsPlaced n dto products now total db (place n dto products now db).1
unfolding place insert_order link_cards
place-IsPlaced n dto products now total db good =
    let same = lock_items-orders dto.items products db in
    elim (Result-cases (lock_items dto.items products db).0) [
      | inr (x, e) ↦ absurd (ground arith)
      | inl ((ids, rows), e) ↦
          elim (Bool-cases
            (is_none (find_first (taken n.order_id (new_order n dto rows now)) db.orders))) [
              | inr f ↦ absurd (ground arith)
              | inl f ↦ record {
                ids = ids;
                rows = rows;
                locked = (lock_items dto.items products db).1.stock_cards;
                taking = lock_items-Takes dto.items products db ids rows e;
                orders_after = ground arith;
                cards_after = ground arith;
                is_total = ground arith;
                unique = ground arith;
                fresh = taken_absent n.order_id (new_order n dto rows now) db.orders (ground arith);
              }
            ]
    ]

pub IsPlaced-logged :
    (n : NewOrder) (dto : CreateOrder) (products : Table Product) (now : ℕ) (total : ℤ)
    (db db' : Store) (logs : List AuditLog) (risks : List RiskRecord)
    → IsPlaced n dto products now total db db'
    → IsPlaced n dto products now total db (record db' { audit_logs = logs; risk_records = risks })
IsPlaced-logged n dto products now total db db' logs risks h = record {
  ids = h.ids;
  rows = h.rows;
  locked = h.locked;
  taking = h.taking;
  orders_after = h.orders_after;
  cards_after = h.cards_after;
  is_total = h.is_total;
  unique = h.unique;
  fresh = h.fresh;
}
