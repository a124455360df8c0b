-- ===== src/Payment/Late.antt =====
-- A transfer that arrives when the order no longer waits for it.
use winmelon_card.Base.{
  ℕ, ◌≡◌, ◌<◌, refl, sym, ◌∙◌, ap, subst, inl, inr, some, ◌∷◌, arith, Bool, false, ◌+◌, ◌*◌,
  Option-cases, ==_refl,
}
use winmelon_card.Base.Table.{
  Table, find, find_first, adjust, count, IsKeyed, find-adjust_self, adjust-IsKeyed,
}
use winmelon_card.Base.Result.{Result, ok, err, Error}
use winmelon_card.Schema.{Order, Payment, OrderStatus}
use winmelon_card.Schema.Store.{Store, order_paid}
use winmelon_card.Schema.Action.{⊤}
use winmelon_card.Order.Expiry.{locked_for}
use winmelon_card.Delivery.{deliver, total_quantity}
use winmelon_card.Delivery.Handout.{Delivered, refused, already, handed_out, deliver-Delivered}
use winmelon_card.Payment.{set_paid, is_marked}
use winmelon_card.Payment.Usdt.{
  confirm_payment, set_usdt_success, Transfer, match_transfer, of_value,
}

confirm_payment-set_paid :
    (usdt payment_id order_id tx now : ℕ) (db : Store) (p : Payment) (o : Order)
    → find payment_id db.payments ≡ some p
    → find order_id db.orders ≡ some o
    → confirm_payment usdt payment_id order_id tx now db ≡ (
      ok tt,
      record db {
        payments = adjust payment_id (set_usdt_success tx now) db.payments;
        orders = adjust order_id (set_paid now) db.orders;
        events = order_paid order_id usdt ∷ db.events;
      },
    )
unfolding confirm_payment
confirm_payment-set_paid usdt payment_id order_id tx now db p o found there = ground arith

-- A PAID order that holds fewer cards than it asks for is not delivered.
undeliverable :
    {order_id now : ℕ} {db db' : Store} {x : Result ⊤} (o : Order)
    → find order_id db.orders ≡ some o
    → o.status ≡ OrderStatus.paid
    → count (locked_for order_id) db.stock_cards < total_quantity o.items
    → Delivered order_id now db x db'
    → (e : Error) × (x ≡ err e) × (db' ≡ db)
undeliverable o there paid few (refused e) = (e, refl, refl)
undeliverable {order_id = order_id} {db = db} o there paid few
      (already q found delivered orders cards) =
    let same : some q ≡ some o = sym found ∙ there in absurd (ground arith)
undeliverable {order_id = order_id} {db = db} o there paid few
      (handed_out q found was number orders cards) =
    let same : some q ≡ some o = sym found ∙ there in absurd (ground arith)

-- A transfer for an order that has lost its cards makes it PAID, and every delivery then fails.
pub deliver-confirm_payment :
    (usdt payment_id order_id tx now later : ℕ) (db : Store) (p : Payment) (o : Order)
    → find payment_id db.payments ≡ some p
    → find order_id db.orders ≡ some o
    → IsKeyed db.orders
    → count (locked_for order_id) db.stock_cards < total_quantity o.items
    → (find order_id (confirm_payment usdt payment_id order_id tx now db).1.orders
        ≡ some (set_paid now o))
      × ((e : Error) × ((deliver order_id later
              (confirm_payment usdt payment_id order_id tx now db).1).0
            ≡ err e)
          × ((deliver order_id later (confirm_payment usdt payment_id order_id tx now db).1).1
              ≡ (confirm_payment usdt payment_id order_id tx now db).1))
deliver-confirm_payment usdt payment_id order_id tx now later db p o found there keyed few =
    let after = confirm_payment-set_paid usdt payment_id order_id tx now db p o found there in
    let s = (confirm_payment usdt payment_id order_id tx now db).1 in
    let orders : s.orders ≡ adjust order_id (set_paid now) db.orders = ap (λ x. x.1.orders) after in
    let cards : s.stock_cards ≡ db.stock_cards = ap (λ x. x.1.stock_cards) after in
    let paid : find order_id s.orders ≡ some (set_paid now o) =
      ap (find order_id) orders ∙ find-adjust_self order_id (set_paid now) db.orders o there in
    let keys : IsKeyed s.orders =
      subst (λ t. IsKeyed t) (sym orders)
        (adjust-IsKeyed order_id (set_paid now) db.orders keyed) in
    (
      paid,
      undeliverable (set_paid now o) paid refl
          (subst (λ t. count (locked_for order_id) t < total_quantity o.items) (sym cards) few)
          (deliver-Delivered order_id later s keys),
    )

confirm_payment_ok :
    (usdt payment_id order_id tx now : ℕ) (db : Store)
    → (confirm_payment usdt payment_id order_id tx now db).0 ≡ ok tt
unfolding confirm_payment
confirm_payment_ok usdt payment_id order_id tx now db = ground arith

-- A transfer is matched once: when it is met again within 24 hours, with any payments, nothing
-- changes.
pub match_transfer-match_transfer :
    (is_close : ℕ → ℕ → Bool) (usdt : ℕ) (rows others : Table Payment) (tx : Transfer)
    (now later : ℕ) (db : Store)
    → is_marked tx.transaction_id now db.usdt_marks ≡ false
    → later < now + 24 * 60 * 60 * 1000
    → match_transfer is_close usdt others tx later (match_transfer is_close usdt rows tx now db).1
      ≡ (ok tt, (match_transfer is_close usdt rows tx now db).1)
unfolding match_transfer
match_transfer-match_transfer is_close usdt rows others tx now later db new soon =
    elim (Option-cases (find_first (of_value is_close tx.value) rows)) [
      | inl f ↦ ground (arith, ==_refl tx.transaction_id)
      | inr (row, f) ↦
          let good = confirm_payment_ok usdt row.0 row.1.order_id tx.transaction_id now db in
          ground (arith, ==_refl tx.transaction_id)
    ]
