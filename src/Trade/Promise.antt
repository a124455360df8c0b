-- ===== src/Trade/Promise.antt =====
-- A paid order can always be delivered.
use winmelon_card.Base.{
  ℕ, ◌≡◌, ap, inl, inr, true, some, List, arith, ◌==◌, Bool-cases, Option-cases, ==_iff, ==_refl,
}
use winmelon_card.Base.Table.{find, update_many, count, count_keyed, find-update_many-some}
use winmelon_card.Base.Result.{ok}
use winmelon_card.Schema.{Order}
use winmelon_card.Schema.Store.{Store}
use winmelon_card.Order.Expiry.{locked_for}
use winmelon_card.Order.Query.{sold_for}
use winmelon_card.Delivery.{is_paid, paid_row, set_delivered, set_sold, total_quantity, deliver}
use winmelon_card.Trade.{Call, perform_all}
use winmelon_card.Trade.Counts.{count_alike, keys-update_many}
use winmelon_card.Trade.Invariant.{IsSound, perform_all-IsSound}

-- A delivery that succeeds: the order is DELIVERED and has as many SOLD cards as it sells.
pub record IsHandedOver (j now : ℕ) (o : Order) (db : Store) : Type 0 where
  pub succeeds : (deliver j now db).0 ≡ ok tt
  pub order_after : find j (deliver j now db).1.orders ≡ some (set_delivered now o)
  pub cards_after : count (sold_for j) (deliver j now db).1.stock_cards ≡ total_quantity o.items

-- No card was SOLD to an order that is PAID.
sold-locked_for :
    (j now : ℕ) (o : Order) (db : Store)
    → IsSound db
    → find j db.orders ≡ some o
    → is_paid o.status ≡ true
    → count (sold_for j) (update_many (locked_for j) (set_sold now) db.stock_cards)
      ≡ count (locked_for j) db.stock_cards
sold-locked_for j now o db h there paid =
    let cards = db.stock_cards in
    count_alike (locked_for j) (sold_for j) cards (update_many (locked_for j) (set_sold now) cards)
      h.consistent.keyed_cards (keys-update_many (locked_for j) (set_sold now) cards)
      (λ k a b before after.
        let same = find-update_many-some k (locked_for j) (set_sold now) cards a before in
        let fit = h.consistent.fitting k a before in
        elim (Option-cases a.order_id) [
          | inl e ↦ ground arith
          | inr (i, e) ↦ elim (Bool-cases (i == j)) [
            | inl g ↦ ground (arith, ap (λ x. find x db.orders) ((==_iff i j).0 g))
            | inr g ↦ ground arith
          ]
        ])

deliver-IsHandedOver :
    (j now : ℕ) (o : Order) (db : Store)
    → IsSound db
    → find j db.orders ≡ some o
    → is_paid o.status ≡ true
    → IsHandedOver j now o db
unfolding deliver
deliver-IsHandedOver j now o db h there paid =
    let number =
      count_keyed j (λ o. is_paid o.status) db.orders o h.consistent.keyed_orders there in
    let enough = h.filled j o there (ground arith) in
    let after = find-update_many-some j (paid_row j) (set_delivered now) db.orders o there in
    let sold = sold-locked_for j now o db h there paid in
    let equal = ==_refl (total_quantity o.items) in
    let self = ==_refl j in
    record { succeeds = ground arith; order_after = ground arith; cards_after = ground arith }

-- After any sequence of purchases, messages of a channel, events of paid orders, retries, deliveries
-- and runs of the order timer from a sound store, the delivery of a PAID order succeeds: the order
-- becomes DELIVERED, and as many cards as it sells are SOLD to it. The delivery's own check of the
-- number of cards never fails.
pub perform_all-deliver :
    (cs : List Call) (db : Store) (j now : ℕ) (o : Order)
    → IsSound db
    → find j (perform_all cs db).orders ≡ some o
    → is_paid o.status ≡ true
    → IsHandedOver j now o (perform_all cs db)
perform_all-deliver cs db j now o h there paid =
    deliver-IsHandedOver j now o (perform_all cs db) (perform_all-IsSound cs db h) there paid
