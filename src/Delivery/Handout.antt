-- ===== src/Delivery/Handout.antt =====
-- What a delivery does: the cards that the order holds are SOLD, all of them and only once.
use winmelon_card.Base.{
  ℕ, ◌≡◌, refl, sym, ◌∙◌, ap, subst, inl, inr, true, false, some, ◌∷◌, arith, ◌==◌, Bool-cases,
  Option-cases, ==_refl,
}
use winmelon_card.Base.Table.{
  find, update_many, count, IsKeyed, update_many-IsKeyed, find-update_many-some, update_many_none,
  count_keyed, count_absent,
}
use winmelon_card.Base.Result.{
  Result, ok, err, Error, bad_request, bad_status, conflict, count_mismatch,
}
use winmelon_card.Schema.{Order, OrderStatus}
use winmelon_card.Schema.Store.{Store, delivery_success}
use winmelon_card.Schema.Action.{⊤}
use winmelon_card.Order.Expiry.{locked_for}
use winmelon_card.Order.Query.{is_delivered}
use winmelon_card.Delivery.{is_paid, paid_row, set_delivered, set_sold, total_quantity, deliver}

-- The outcomes of `deliver`.
pub data Delivered (order_id now : ℕ) (db : Store) : Result ⊤ → Store → Type 0 where
  refused : (e : Error) → Delivered order_id now db (err e) db
  already :
      {db' : Store} (o : Order)
      → find order_id db.orders ≡ some o
      → is_delivered o.status ≡ true
      → db'.orders ≡ db.orders
      → db'.stock_cards ≡ db.stock_cards
      → Delivered order_id now db (ok tt) db'
  handed_out :
      {db' : Store} (o : Order)
      → find order_id db.orders ≡ some o
      → is_paid o.status ≡ true
      → count (locked_for order_id) db.stock_cards ≡ total_quantity o.items
      → db'.orders ≡ update_many (paid_row order_id) (set_delivered now) db.orders
      → db'.stock_cards ≡ update_many (locked_for order_id) (set_sold now) db.stock_cards
      → Delivered order_id now db (ok tt) db'

of_pair :
    (order_id now : ℕ) (db : Store) (x : Result ⊤ × Store) {r : Result ⊤} {db' : Store}
    → x ≡ (r, db')
    → Delivered order_id now db r db'
    → Delivered order_id now db x.0 x.1
of_pair order_id now db x e h = subst (λ y. Delivered order_id now db y.0 y.1) (sym e) h

pub deliver-Delivered :
    (order_id now : ℕ) (db : Store)
    → IsKeyed db.orders
    → Delivered order_id now db (deliver order_id now db).0 (deliver order_id now db).1
unfolding deliver
deliver-Delivered order_id now db keyed = elim (Option-cases (find order_id db.orders)) [
  | inl missing ↦
      let none_paid = count_absent order_id (λ o. is_paid o.status) db.orders missing in
      let same = update_many_none (paid_row order_id) (set_delivered now) db.orders none_paid in
      of_pair order_id now db (deliver order_id now db) {db' = db} (ground arith)
        (refused (bad_request bad_status))
  | inr (o, there) ↦
      let number = count_keyed order_id (λ o. is_paid o.status) db.orders o keyed there in
      elim (Bool-cases (is_paid o.status)) [
        | inr unpaid ↦
            let same =
              update_many_none (paid_row order_id) (set_delivered now) db.orders (ground arith) in
            elim (Bool-cases (is_delivered o.status)) [
              | inl e ↦
                  of_pair order_id now db (deliver order_id now db)
                    {db' = record db {
                      audit_logs =
                          record { action = delivery_success; resource_id = order_id }
                          ∷ db.audit_logs;
                    }}
                    (ground arith) (already o there e refl refl)
              | inr e ↦
                  of_pair order_id now db (deliver order_id now db) {db' = db} (ground arith)
                    (refused (bad_request bad_status))
            ]
        | inl paid ↦
            let after =
              find-update_many-some order_id (paid_row order_id) (set_delivered now) db.orders o
                there in
            elim (Bool-cases
              (count (locked_for order_id) db.stock_cards == total_quantity o.items)) [
                | inl e ↦
                    of_pair order_id now db (deliver order_id now db)
                      {db' = record db {
                        orders = update_many (paid_row order_id) (set_delivered now) db.orders;
                        stock_cards =
                            update_many (locked_for order_id) (set_sold now) db.stock_cards;
                        audit_logs =
                            record { action = delivery_success; resource_id = order_id }
                            ∷ db.audit_logs;
                      }}
                      (ground arith) (handed_out o there paid (ground arith) refl refl)
                | inr e ↦
                    of_pair order_id now db (deliver order_id now db) {db' = db} (ground arith)
                      (refused (conflict count_mismatch))
              ]
      ]
]

is_paid-is_delivered : (s : OrderStatus) → is_delivered s ≡ true → is_paid s ≡ false
is_paid-is_delivered s h = ground arith

after_delivery :
    {order_id now : ℕ} {db : Store} {x : Result ⊤} {db' : Store}
    → IsKeyed db.orders
    → Delivered order_id now db x db'
    → x ≡ ok tt
    → IsKeyed db'.orders
      × ((o : Order) × (find order_id db'.orders ≡ some o) × (is_delivered o.status ≡ true))
after_delivery keyed (refused e) good = absurd (ground arith)
after_delivery {order_id = order_id} keyed (already o there e same cards) good =
    (subst (λ t. IsKeyed t) (sym same) keyed, (o, ap (find order_id) same ∙ there, e))
after_delivery {order_id = order_id} {now = now} {db = db} keyed
      (handed_out o there paid number orders cards) good =
    let f = set_delivered now in
    let after = find-update_many-some order_id (paid_row order_id) f db.orders o there in
    (
      subst (λ t. IsKeyed t) (sym orders)
          (update_many-IsKeyed (paid_row order_id) f db.orders keyed),
      (f o, ap (find order_id) orders ∙ ground (arith, ==_refl order_id), refl),
    )

deliver_again :
    (order_id now : ℕ) (db : Store) (o : Order)
    → IsKeyed db.orders
    → find order_id db.orders ≡ some o
    → is_delivered o.status ≡ true
    → deliver order_id now db ≡ (
      ok tt,
      record db {
        audit_logs = record { action = delivery_success; resource_id = order_id } ∷ db.audit_logs;
      },
    )
unfolding deliver
deliver_again order_id now db o keyed there e =
    let unpaid = is_paid-is_delivered o.status e in
    let number = count_keyed order_id (λ o. is_paid o.status) db.orders o keyed there in
    let same = update_many_none (paid_row order_id) (set_delivered now) db.orders (ground arith) in
    ground arith

-- A second delivery finds the order DELIVERED: it returns, and touches neither orders nor cards.
pub deliver-deliver :
    (order_id now later : ℕ) (db : Store)
    → IsKeyed db.orders
    → (deliver order_id now db).0 ≡ ok tt
    → ((deliver order_id later (deliver order_id now db).1).0 ≡ ok tt)
      × ((deliver order_id later (deliver order_id now db).1).1.orders
          ≡ (deliver order_id now db).1.orders)
      × ((deliver order_id later (deliver order_id now db).1).1.stock_cards
          ≡ (deliver order_id now db).1.stock_cards)
deliver-deliver order_id now later db keyed good =
    let (keyed_after, (o, there, e)) =
      after_delivery keyed (deliver-Delivered order_id now db keyed) good in
    let again = deliver_again order_id later (deliver order_id now db).1 o keyed_after there e in
    (ap (λ x. x.0) again, ap (λ x. x.1.orders) again, ap (λ x. x.1.stock_cards) again)
