-- ===== src/Payment/Confirm.antt =====
-- What a notification of the channel does to the order and to its payments.
use winmelon_card.Base.{
  ℕ, ◌+◌, ◌<◌, ◌≡◌, false, refl, sym, ap, subst, ◌⊎◌, inl, inr, true, false, ◌||◌, none, some, ◌∷◌,
  arith, Bool-cases, Option-cases, ==_refl, ltb,
}
use winmelon_card.Base.Int.{ℤ, eqb_ℤ, eq_of_parts}
use winmelon_card.Base.Table.{find, find_first, adjust, count}
use winmelon_card.Base.Result.{
  Result, ok, err, Error, unique_violation, not_found, bad_request, row_missing, bad_status,
  bad_amount,
}
use winmelon_card.Schema.{Order}
use winmelon_card.Schema.Store.{Store, order_paid, notify_success}
use winmelon_card.Order.Expiry.{is_pending}
use winmelon_card.Order.Query.{is_delivered}
use winmelon_card.Delivery.{is_paid}
use winmelon_card.Payment.{
  Notify, Reply, success, fail, confirm_order, process_notify, handle_notify, by_order_no, set_paid,
  settle_payment, has_trade_no, remove_mark, usable, is_marked, notify_idempotency_ttl_ms, Parsed,
  message, refused, thrown,
}

-- The order that a notification pays.
pub record IsConfirmed (payment_id channel : ℕ) (n : Notify) (now id : ℕ) (db db' : Store)
    : Type 0 where
  pub o : Order
  pub order_found : find_first (by_order_no n.out_trade_no) db.orders ≡ some (id, o)
  pub was_pending : is_pending o.status ≡ true
  pub same_amount : o.total_amount ≡ n.amount
  pub orders_after : db'.orders ≡ adjust id (set_paid now) db.orders
  pub payments_after :
      db'.payments ≡ settle_payment payment_id id channel n.trade_no o.total_amount now db.payments

eqb_ℤ_equal : (a b : ℤ) → eqb_ℤ a b ≡ true → a ≡ b
eqb_ℤ_equal a b h = eq_of_parts a b (ground arith)

confirm_order-cases :
    (payment_id channel : ℕ) (n : Notify) (now : ℕ) (db : Store)
    → ((e : Error) × ((confirm_order payment_id channel n now db).0 ≡ err e))
      ⊎ ((confirm_order payment_id channel n now db ≡ (ok none, db))
          ⊎ ((id : ℕ) × ((confirm_order payment_id channel n now db).0 ≡ ok (some id))
              × IsConfirmed payment_id channel n now id db
                  (confirm_order payment_id channel n now db).1
              × ((confirm_order payment_id channel n now db).1.events ≡ db.events)
              × ((confirm_order payment_id channel n now db).1.notify_marks ≡ db.notify_marks)
              × ((confirm_order payment_id channel n now db).1.channels ≡ db.channels)))
unfolding confirm_order
confirm_order-cases payment_id channel n now db =
    elim (Option-cases (find_first (by_order_no n.out_trade_no) db.orders)) [
      | inl e ↦ inl (not_found row_missing, ground arith)
      | inr ((id, o), e) ↦ elim (Bool-cases (is_paid o.status || is_delivered o.status)) [
        | inl f ↦ inr (inl (ground arith))
        | inr f ↦ elim (Bool-cases (is_pending o.status)) [
          | inr g ↦ inl (bad_request bad_status, ground arith)
          | inl g ↦ elim (Bool-cases (eqb_ℤ o.total_amount n.amount)) [
            | inr h ↦ inl (bad_request bad_amount, ground arith)
            | inl h ↦
                let t =
                  settle_payment payment_id id channel n.trade_no o.total_amount now db.payments in
                elim (Bool-cases (ltb 1 (count (has_trade_no n.trade_no) t))) [
                  | inl k ↦ inl (unique_violation, ground arith)
                  | inr k ↦ inr (
                      inr (
                        id,
                        ground arith,
                        record {
                          o = o;
                          order_found = e;
                          was_pending = g;
                          same_amount = eqb_ℤ_equal o.total_amount n.amount h;
                          orders_after = ground arith;
                          payments_after = ground arith;
                        },
                        ground arith,
                        ground arith,
                        ground arith,
                      ))
                ]
          ]
        ]
      ]
    ]

-- The outcomes of `handle_notify` on a message with a good signature.
pub data Notified (payment_id channel : ℕ) (n : Notify) (now : ℕ) (db : Store)
    : Result Reply → Store → Type 0 where
  failed :
      {db' : Store}
      → db'.orders ≡ db.orders
      → db'.payments ≡ db.payments
      → db'.events ≡ db.events
      → Notified payment_id channel n now db (ok fail) db'
  acknowledged :
      {db' : Store}
      → db'.orders ≡ db.orders
      → db'.payments ≡ db.payments
      → db'.events ≡ db.events
      → Notified payment_id channel n now db (ok success) db'
  confirmed :
      {db' : Store} (id : ℕ)
      → is_marked n.trade_no now db.notify_marks ≡ false
      → IsConfirmed payment_id channel n now id db db'
      → db'.events ≡ order_paid id channel ∷ db.events
      → Notified payment_id channel n now db (ok success) db'

of_pair :
    (payment_id channel : ℕ) (n : Notify) (now : ℕ) (db : Store) (x : Result Reply × Store)
    {r : Result Reply} {db' : Store}
    → x ≡ (r, db')
    → Notified payment_id channel n now db r db'
    → Notified payment_id channel n now db x.0 x.1
of_pair payment_id channel n now db x e h =
    subst (λ y. Notified payment_id channel n now db y.0 y.1) (sym e) h

-- The store in which the message has been marked.
abbrev marked : Notify → ℕ → Store → Store
marked n now db = record db {
  notify_marks = (n.trade_no, now + notify_idempotency_ttl_ms) ∷ db.notify_marks;
}

abbrev unmarked : Notify → Store → Store
unmarked n db = record db { notify_marks = remove_mark n.trade_no db.notify_marks }

abbrev announced : ℕ → ℕ → Store → Store
announced id channel db = record db {
  events = order_paid id channel ∷ db.events;
  audit_logs = record { action = notify_success; resource_id = id } ∷ db.audit_logs;
}

process_notify-Notified :
    (payment_id channel : ℕ) (n : Notify) (now : ℕ) (db : Store)
    → is_marked n.trade_no now db.notify_marks ≡ false
    → Notified payment_id channel n now db
        (process_notify payment_id channel n now (marked n now db)).0
        (process_notify payment_id channel n now (marked n now db)).1
unfolding process_notify
process_notify-Notified payment_id channel n now db new =
    elim (confirm_order-cases payment_id channel n now (marked n now db)) [
      | inl (e, f) ↦
          of_pair payment_id channel n now db
            (process_notify payment_id channel n now (marked n now db))
            {db' = unmarked n (marked n now db)} (ground arith) (failed refl refl refl)
      | inr (inl f) ↦
          of_pair payment_id channel n now db
            (process_notify payment_id channel n now (marked n now db)) {db' = marked n now db}
            (ground arith) (acknowledged refl refl refl)
      | inr (inr (id, f, done, events, marks, channels)) ↦
          let after = (confirm_order payment_id channel n now (marked n now db)).1 in
          of_pair payment_id channel n now db
            (process_notify payment_id channel n now (marked n now db))
            {db' = announced id channel after} (ground arith)
            (confirmed id new
              (record {
                o = done.o;
                order_found = done.order_found;
                was_pending = done.was_pending;
                same_amount = done.same_amount;
                orders_after = done.orders_after;
                payments_after = done.payments_after;
              })
              (ap (λ es. order_paid id channel ∷ es) events))
    ]

pub handle_notify-Notified :
    (payment_id channel : ℕ) (n : Notify) (now : ℕ) (db : Store)
    → Notified payment_id channel n now db
        (handle_notify payment_id channel (message n) now db).0
        (handle_notify payment_id channel (message n) now db).1
unfolding handle_notify
handle_notify-Notified payment_id channel n now db =
    elim (Bool-cases (usable (find channel db.channels))) [
      | inr e ↦
          of_pair payment_id channel n now db (handle_notify payment_id channel (message n) now db)
            {db' = db} (ground arith) (failed refl refl refl)
      | inl e ↦ elim (Bool-cases n.success) [
        | inr f ↦
            of_pair payment_id channel n now db
              (handle_notify payment_id channel (message n) now db) {db' = db} (ground arith)
              (acknowledged refl refl refl)
        | inl f ↦ elim (Bool-cases (is_marked n.trade_no now db.notify_marks)) [
          | inl g ↦
              of_pair payment_id channel n now db
                (handle_notify payment_id channel (message n) now db) {db' = db} (ground arith)
                (acknowledged refl refl refl)
          | inr g ↦
              of_pair payment_id channel n now db
                (handle_notify payment_id channel (message n) now db)
                {db' = (process_notify payment_id channel n now (marked n now db)).1} (ground arith)
                (process_notify-Notified payment_id channel n now db g)
        ]
      ]
    ]

-- A success leaves the mark in place.
process_notify-marks :
    (payment_id channel : ℕ) (n : Notify) (now later : ℕ) (db : Store)
    → later < now + notify_idempotency_ttl_ms
    → (process_notify payment_id channel n now (marked n now db)).0 ≡ ok success
    → (is_marked n.trade_no later
          (process_notify payment_id channel n now (marked n now db)).1.notify_marks
        ≡ true)
      × ((process_notify payment_id channel n now (marked n now db)).1.channels ≡ db.channels)
unfolding process_notify
process_notify-marks payment_id channel n now later db soon good =
    elim (confirm_order-cases payment_id channel n now (marked n now db)) [
      | inl (e, f) ↦ absurd (ground arith)
      | inr (inl f) ↦ (ground (arith, ==_refl n.trade_no), ground arith)
      | inr (inr (id, f, done, events, marks, channels)) ↦
          (ground (arith, ==_refl n.trade_no), ground arith)
    ]

-- A message of success that bears no living mark is answered with success. The same message, within
-- 24 hours, is answered with success again, and changes nothing.
pub handle_notify-handle_notify :
    (payment_id second channel : ℕ) (n : Notify) (now later : ℕ) (db : Store)
    → n.success ≡ true
    → is_marked n.trade_no now db.notify_marks ≡ false
    → later < now + notify_idempotency_ttl_ms
    → (handle_notify payment_id channel (message n) now db).0 ≡ ok success
    → handle_notify second channel
        (message n)
        later
        (handle_notify payment_id channel (message n) now db).1
      ≡ (ok success, (handle_notify payment_id channel (message n) now db).1)
unfolding handle_notify
handle_notify-handle_notify payment_id second channel n now later db paid new soon good =
    elim (Bool-cases (usable (find channel db.channels))) [
      | inr e ↦ absurd (ground arith)
      | inl e ↦
          let (kept, same) =
            process_notify-marks payment_id channel n now later db soon (ground arith) in
          ground arith
    ]

confirm_order-stock_cards :
    (payment_id channel : ℕ) (n : Notify) (now : ℕ) (db : Store)
    → (confirm_order payment_id channel n now db).1.stock_cards ≡ db.stock_cards
unfolding confirm_order
confirm_order-stock_cards payment_id channel n now db = ground arith

-- A notification touches no card.
pub handle_notify-stock_cards :
    (payment_id channel : ℕ) (parsed : Parsed) (now : ℕ) (db : Store)
    → (handle_notify payment_id channel parsed now db).1.stock_cards ≡ db.stock_cards
unfolding handle_notify process_notify
handle_notify-stock_cards payment_id channel thrown now db = ground arith
handle_notify-stock_cards payment_id channel refused now db = ground arith
handle_notify-stock_cards payment_id channel (message n) now db =
    ground (arith, confirm_order-stock_cards payment_id channel n now (marked n now db))

-- A message that is not read changes no order.
pub handle_notify-thrown :
    (payment_id channel now : ℕ) (db : Store)
    → (handle_notify payment_id channel thrown now db).1.orders ≡ db.orders
unfolding handle_notify
handle_notify-thrown payment_id channel now db = ground arith

pub handle_notify-refused :
    (payment_id channel now : ℕ) (db : Store)
    → (handle_notify payment_id channel refused now db).1.orders ≡ db.orders
unfolding handle_notify
handle_notify-refused payment_id channel now db = ground arith
