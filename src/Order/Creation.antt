-- ===== src/Order/Creation.antt =====
-- `create` as a whole: a new order, the reply of an earlier one, or nothing.
use winmelon_card.Base.{
  ℕ, ◌≡◌, refl, sym, subst, ◌⊎◌, inl, inr, none, some, List, [], ◌∷◌, arith, leb, ◌==◌, length,
  Bool-cases, Option-cases,
}
use winmelon_card.Base.Int.{ℤ}
use winmelon_card.Base.Table.{Table, find, find_first, find_many}
use winmelon_card.Base.Result.{
  Result, ok, err, Error, Result-cases, forbidden, bad_request, not_found, failure, ip_blocked,
  email_blocked, ip_pending, email_pending, limit_exceeded, shop_missing, product_missing,
}
use winmelon_card.Schema.{Product, Order, RiskRecord}
use winmelon_card.Schema.Store.{Store, order_create}
use winmelon_card.Risk.{
  record_pending, check_order, ip_pending_threshold, ip_count, email_pending_threshold, email_count,
  is_blocked,
}
use winmelon_card.Order.{
  CreateOrder, CreateOrderItem, NewOrder, OrderReply, place, check_limits, create_new, create,
  by_idempotency_key, replay, new_reply, on_conflict, over_limit, open_shop, sellable, product_ids,
}
use winmelon_card.Order.Placed.{IsPlaced, place-IsPlaced, IsPlaced-logged}

-- The outcomes of `create`.
pub data Created (order_id order_no : ℕ) (dto : CreateOrder) (now : ℕ) (db : Store)
    : Result OrderReply → Store → Type 0 where
  refused :
      {db' : Store} (e : Error)
      → db'.orders ≡ db.orders
      → db'.stock_cards ≡ db.stock_cards
      → Created order_id order_no dto now db (err e) db'
  replayed :
      (row : ℕ × Order)
      → find_first (by_idempotency_key dto.idempotency_key) db.orders ≡ some row
      → Created order_id order_no dto now db (ok (replay row)) db
  placed :
      {db' : Store} (n : NewOrder) (products : Table Product) (total : ℤ)
      → find_first (by_idempotency_key dto.idempotency_key) db.orders ≡ none
      → n.order_id ≡ order_id
      → n.order_no ≡ order_no
      → IsPlaced n dto products now total db db'
      → Created order_id order_no dto now db (ok (new_reply order_id order_no total now)) db'

pub check_order-cases :
    (ip email now : ℕ) (db : Store)
    → (check_order ip email now db ≡ (ok tt, db))
      ⊎ ((e : Error) × ((check_order ip email now db).0 ≡ err e)
          × ((check_order ip email now db).1.orders ≡ db.orders)
          × ((check_order ip email now db).1.stock_cards ≡ db.stock_cards))
unfolding check_order
check_order-cases ip email now db = elim (Bool-cases (is_blocked ip now db.ip_blacklist)) [
  | inl e ↦ inr (forbidden ip_blocked, ground arith, ground arith, ground arith)
  | inr e ↦ elim (Bool-cases (is_blocked email now db.email_blacklist)) [
    | inl f ↦ inr (forbidden email_blocked, ground arith, ground arith, ground arith)
    | inr f ↦ elim (Bool-cases (leb (ip_pending_threshold db.system_config) (ip_count db ip now))) [
      | inl g ↦ inr (forbidden ip_pending, ground arith, ground arith, ground arith)
      | inr g ↦
          elim (Bool-cases
            (leb (email_pending_threshold db.system_config) (email_count db email now))) [
              | inl h ↦ inr (forbidden email_pending, ground arith, ground arith, ground arith)
              | inr h ↦ inl (ground arith)
            ]
    ]
  ]
]

check_limits-cases :
    (is : List CreateOrderItem) (products : Table Product) (db : Store)
    → (check_limits is products db ≡ (ok tt, db))
      ⊎ ((e : Error) × (check_limits is products db ≡ (err e, db)))
unfolding check_limits
check_limits-cases [] products db = inl refl
check_limits-cases (i ∷ is) products db = elim (Option-cases (find i.product_id products)) [
  | inl e ↦ inr (failure, ground arith)
  | inr (p, e) ↦ elim (Bool-cases (over_limit p.purchase_limit i.quantity)) [
    | inl f ↦ inr (bad_request limit_exceeded, ground arith)
    | inr f ↦ elim (check_limits-cases is products db) [
      | inl g ↦ inl (ground arith)
      | inr (x, g) ↦ inr (x, ground arith)
    ]
  ]
]

-- An outcome that is known as a pair.
of_pair :
    (order_id order_no : ℕ) (dto : CreateOrder) (now : ℕ) (db : Store)
    (x : Result OrderReply × Store) {r : Result OrderReply} {db' : Store}
    → x ≡ (r, db')
    → Created order_id order_no dto now db r db'
    → Created order_id order_no dto now db x.0 x.1
of_pair order_id order_no dto now db x e made =
    subst (λ y. Created order_id order_no dto now db y.0 y.1) (sym e) made

on_conflict_new :
    (key : ℕ) (x : Error) (db : Store)
    → find_first (by_idempotency_key key) db.orders ≡ none
    → on_conflict key x db ≡ (err x, db)
on_conflict_new key x db new = ground arith

create_new-Created :
    (order_id order_no : ℕ) (dto : CreateOrder) (ip now : ℕ) (db : Store)
    → find_first (by_idempotency_key dto.idempotency_key) db.orders ≡ none
    → Created order_id order_no dto now db
        (create_new order_id order_no dto ip now db).0
        (create_new order_id order_no dto ip now db).1
unfolding create_new record_pending
create_new-Created order_id order_no dto ip now db new =
    elim (Option-cases (find_first (open_shop dto.shop_code) db.shops)) [
      | inl e ↦
          of_pair order_id order_no dto now db (create_new order_id order_no dto ip now db)
            {db' = db} (ground arith) (refused (not_found shop_missing) refl refl)
      | inr (shop, e) ↦
          let products = find_many (sellable shop.0 (product_ids dto.items)) db.products in
          let n : NewOrder = record {
            order_id = order_id;
            order_no = order_no;
            shop_id = shop.0;
            merchant_id = shop.1.merchant_id;
          } in
          elim (Bool-cases (length products == length dto.items)) [
            | inr f ↦
                of_pair order_id order_no dto now db (create_new order_id order_no dto ip now db)
                  {db' = db} (ground arith) (refused (not_found product_missing) refl refl)
            | inl f ↦ elim (check_limits-cases dto.items products db) [
              | inr (x, g) ↦
                  of_pair order_id order_no dto now db (create_new order_id order_no dto ip now db)
                    {db' = db} (ground arith) (refused x refl refl)
              | inl g ↦ elim (Result-cases (place n dto products now db).0) [
                | inr (x, h) ↦
                    let back = on_conflict_new dto.idempotency_key x db new in
                    of_pair order_id order_no dto now db
                      (create_new order_id order_no dto ip now db) {db' = db} (ground arith)
                      (refused x refl refl)
                | inl (total, h) ↦
                    let after = (place n dto products now db).1 in
                    let logs =
                      record { action = order_create; resource_id = order_id } ∷ after.audit_logs in
                    let risks : List RiskRecord =
                      record { ip = ip; email = dto.buyer_email; created_at = now }
                      ∷ after.risk_records in
                    of_pair order_id order_no dto now db
                      (create_new order_id order_no dto ip now db)
                      {db' = record after { audit_logs = logs; risk_records = risks }}
                      (ground arith)
                      (placed n products total new refl refl (
                        IsPlaced-logged n dto products now total db after logs risks
                          (place-IsPlaced n dto products now total db h)))
              ]
            ]
          ]
    ]

pub create-Created :
    (order_id order_no : ℕ) (dto : CreateOrder) (ip now : ℕ) (db : Store)
    → Created order_id order_no dto now db
        (create order_id order_no dto ip now db).0
        (create order_id order_no dto ip now db).1
unfolding create
create-Created order_id order_no dto ip now db =
    elim (check_order-cases ip dto.buyer_email now db) [
      | inr (x, e, f, g) ↦
          of_pair order_id order_no dto now db (create order_id order_no dto ip now db)
            {db' = (check_order ip dto.buyer_email now db).1} (ground arith) (refused x f g)
      | inl e ↦
          elim (Option-cases (find_first (by_idempotency_key dto.idempotency_key) db.orders)) [
            | inr (row, f) ↦
                of_pair order_id order_no dto now db (create order_id order_no dto ip now db)
                  {db' = db} (ground arith) (replayed row f)
            | inl f ↦
                of_pair order_id order_no dto now db (create order_id order_no dto ip now db)
                  {db' = (create_new order_id order_no dto ip now db).1} (ground arith)
                  (create_new-Created order_id order_no dto ip now db f)
          ]
    ]
