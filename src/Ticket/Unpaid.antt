-- ===== src/Ticket/Unpaid.antt =====
-- What the timer tells the buyer, and what it pays; and answers that come in time.
use winmelon_card.Base.{
  ℕ, ◌≡◌, refl, sym, ◌∙◌, ap, inl, inr, true, false, Option, none, some, ◌∷◌, arith, ◌==◌, ltb, leb,
  Bool-cases, Option-cases, ==_iff,
}
use winmelon_card.Base.Text.{Text}
use winmelon_card.Base.Table.{
  find, find_first, adjust, count, IsKeyed, find-adjust_self, find-adjust_ne, find_first-find,
  find_first-adjust,
}
use winmelon_card.Base.Result.{ok}
use winmelon_card.Schema.{
  Ticket, Payment, Merchant, by_buyer, by_merchant, by_platform, refunded_notice,
}
use winmelon_card.Schema.Store.{Store}
use winmelon_card.Ticket.{
  reply_from_buyer, reply_from_merchant, set_replied, with_ticket_no, own_ticket,
  unresponded_freeze_threshold,
}
use winmelon_card.Ticket.Timer.{
  Fresh, Expired, process_auto_refund, set_auto_refunded, amount_of, freeze, unresponded,
  is_expired,
}
use winmelon_card.Ticket.Step.{try_refund-IsSpared}

-- A ticket that is closed as refunded, and accounts that have not changed.
pub record IsUnpaid (id now : ℕ) (x : Expired) (db db' : Store) : Type 0 where
  pub ticket_after : find id db'.tickets ≡ some (set_auto_refunded (amount_of x.order) now x.ticket)
  pub told : db'.ticket_messages ≡ (
      record {
        ticket_id = id;
        sender_role = by_platform;
        sender_id = none;
        content = refunded_notice (amount_of x.order);
        is_internal = false;
      }
      ∷ db.ticket_messages)
  pub same_orders : db'.orders ≡ db.orders
  pub same_payments : db'.payments ≡ db.payments
  pub same_cards : db'.stock_cards ≡ db.stock_cards
  pub same_balance :
      (k : ℕ) (m : Merchant)
      → find k db.merchants ≡ some m
      → (m' : Merchant) × (find k db'.merchants ≡ some m') × (m'.balance ≡ m.balance)

-- A ticket that is still in the store, of a shop whose merchant is: the timer's treatment goes
-- through, the ticket is AUTO_REFUNDED with the total of its order, the buyer gets the notice that
-- this has been paid back, and no order, payment, card or balance has changed.
pub process_auto_refund-IsUnpaid :
    (channel : ℕ → Payment → Option ℕ) (fresh : Fresh) (id now : ℕ) (x : Expired) (k : ℕ)
    (m : Merchant) (db : Store)
    → find id db.tickets ≡ some x.ticket
    → x.merchant_id ≡ some k
    → find k db.merchants ≡ some m
    → ((process_auto_refund channel fresh id x now db).0 ≡ ok tt)
      × IsUnpaid id now x db (process_auto_refund channel fresh id x now db).1
unfolding process_auto_refund
process_auto_refund-IsUnpaid channel fresh id now x k m db there owner merchant =
    let (tried, spared) = try_refund-IsSpared channel fresh x.ticket.order_id x.order now db in
    let same_tickets = spared.same_tickets in
    let same_merchants = spared.same_merchants in
    let same_shops = spared.same_shops in
    let same_orders = spared.same_orders in
    let same_payments = spared.same_payments in
    let same_cards = spared.same_cards in
    let same_messages = spared.same_messages in
    let f = set_auto_refunded (amount_of x.order) now in
    let after = find-adjust_self id f db.tickets x.ticket there in
    elim (Bool-cases (
      leb unresponded_freeze_threshold (count (unresponded k db.shops) (adjust id f db.tickets)))) [
        | inr e ↦ (
          ground arith,
          record {
            ticket_after = ground arith;
            told = ground arith;
            same_orders = ground arith;
            same_payments = ground arith;
            same_cards = ground arith;
            same_balance = λ j a h. (a, ground arith, refl);
          },
        )
        | inl e ↦ (
          ground arith,
          record {
            ticket_after = ground arith;
            told = ground arith;
            same_orders = ground arith;
            same_payments = ground arith;
            same_cards = ground arith;
            same_balance = λ j a h.
                let is : (process_auto_refund channel fresh id x now db).1.merchants
                    ≡ adjust k (freeze now) db.merchants =
                  ground arith in
                elim (Bool-cases (j == k)) [
                  | inl same ↦
                      let equal : find k db.merchants ≡ some a =
                        ap (λ i. find i db.merchants) (sym ((==_iff j k).0 same)) ∙ h in
                      let froze = find-adjust_self k (freeze now) db.merchants a equal in
                      (
                        freeze now a,
                        ap (find j) is
                            ∙ ap (λ i. find i (adjust k (freeze now) db.merchants))
                                ((==_iff j k).0 same)
                            ∙ froze,
                        refl,
                      )
                  | inr other ↦
                      let kept =
                        find-adjust_ne j k (freeze now) db.merchants (ground (arith, ==_iff j k)) in
                      (a, ap (find j) is ∙ kept ∙ h, refl)
                ];
          },
        )
      ]

-- The replies keep the number of a ticket and the time at which it is refunded.
answered :
    (id a b deadline now : ℕ) (t : Ticket)
    → t.auto_refund_at ≡ some deadline
    → ltb deadline now ≡ true
    → is_expired now id (set_replied by_buyer b (set_replied by_merchant a t)) ≡ true
answered id a b deadline now t due late = ground arith

-- If the merchant has answered a ticket and the buyer has answered again, the timer refunds the
-- ticket as unanswered from the first deadline on, however early the merchant's answer was and
-- however recent the buyer's.
pub reply_from_buyer-reply_from_merchant :
    (user merchant_id id ticket_no email a b deadline now : ℕ) (said again : Text) (t : Ticket)
    (db : Store)
    → IsKeyed db.tickets
    → find_first (with_ticket_no ticket_no) db.tickets ≡ some (id, t)
    → t.auto_refund_at ≡ some deadline
    → ltb deadline now ≡ true
    → (reply_from_merchant user merchant_id id said a db).0 ≡ ok tt
    → (reply_from_buyer ticket_no email again b
        (reply_from_merchant user merchant_id id said a db).1).0
      ≡ ok tt
    → (t' : Ticket) × (find id
          (reply_from_buyer ticket_no email again b
            (reply_from_merchant user merchant_id id said a db).1).1.tickets
        ≡ some t')
      × (is_expired now id t' ≡ true)
unfolding reply_from_buyer reply_from_merchant
reply_from_buyer-reply_from_merchant user merchant_id id ticket_no email a b deadline now said again
      t db keyed first due late answer reply =
    let (there, number) = find_first-find (with_ticket_no ticket_no) db.tickets id t first keyed in
    let f = set_replied by_merchant a in
    let g = set_replied by_buyer b in
    let own = own_ticket id merchant_id db.shops in
    elim (Option-cases (find_first own db.tickets)) [
      | inl e ↦ absurd (ground arith)
      | inr ((j, s), e) ↦
          let (found, mine) = find_first-find own db.tickets j s e keyed in
          let same : j ≡ id = ground (arith, ==_iff j id) in
          let once = find-adjust_self id f db.tickets t there in
          let kept =
            find_first-adjust (with_ticket_no ticket_no) f db.tickets id t (λ i c. refl) first
              keyed in
          let twice = find-adjust_self id g (adjust id f db.tickets) (f t) once in
          (g (f t), ground arith, answered id a b deadline now t due late)
    ]
