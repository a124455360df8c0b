-- ===== src/Refund/Requests.antt =====
-- What `create` checks of a request, and the refunds that nobody reviews.
use winmelon_card.Base.{
  ℕ, ◌≡◌, refl, inl, inr, Bool, true, false, Option, none, some, arith, Option-cases, subst, ap,
  sym, or_else,
}
use winmelon_card.Base.Int.{pos, ◌≤ℤ◌}
use winmelon_card.Base.Table.{find, find_first}
use winmelon_card.Base.Result.{ok, is_ok, Result-cases}
use winmelon_card.Schema.{Refund, Order, RefundStatus, Payment}
use winmelon_card.Schema.Store.{Store}
use winmelon_card.Refund.{
  is_approved, is_refundable, open_refund, new_refund, merchant_of, create, create_and_pay_direct,
  PayoutRequest, RefundRequest,
}
use winmelon_card.Refund.Payout.{mark_paid_unapproved}

-- What a request was checked for, and the row that it becomes.
pub record IsRequested (id order_id : ℕ) (p : RefundRequest) (db db' : Store) : Type 0 where
  pub o : Order
  pub order_found : find order_id db.orders ≡ some o
  pub may_be_refunded : is_refundable o.status ≡ true
  pub not_viewed : o.viewed_at ≡ none
  pub none_open : find_first (open_refund order_id) db.refunds ≡ none
  pub r : Refund
  pub refund_after : find id db'.refunds ≡ some r
  pub for_order : r.order_id ≡ order_id
  pub is_pending : r.status ≡ RefundStatus.pending
  pub positive : pos 1 ≤ℤ r.amount
  pub at_most : r.amount ≤ℤ o.total_amount

pub create-IsRequested :
    (id refund_no order_id now : ℕ) (p : RefundRequest) (audited : Bool) (db : Store) (made : ℕ)
    → (create id refund_no order_id p audited now db).0 ≡ ok made
    → (made ≡ id) × IsRequested id order_id p db (create id refund_no order_id p audited now db).1
unfolding create
create-IsRequested id refund_no order_id now p audited db made good =
    elim (Option-cases (find order_id db.orders)) [
      | inl e ↦ absurd (ground arith)
      | inr (o, e) ↦ (
        ground arith,
        record {
          o = o;
          order_found = e;
          may_be_refunded = ground arith;
          not_viewed = ground arith;
          none_open = ground arith;
          r =
              new_refund refund_no order_id (merchant_of o db) (or_else p.amount o.total_amount) p
                now;
          refund_after = ground arith;
          for_order = refl;
          is_pending = refl;
          positive = ground arith;
          at_most = ground arith;
        },
      )
    ]

-- A refund that nobody reviews is created PENDING, and the payout refuses a PENDING refund.
pub create_and_pay_direct_fails :
    (answer : ℕ → Payment → Option ℕ) (id refund_no order_id now : ℕ) (p : RefundRequest)
    (pay : PayoutRequest) (audited : Bool) (db : Store)
    → is_ok (create_and_pay_direct answer id refund_no order_id p pay audited now db).0 ≡ false
unfolding create_and_pay_direct
create_and_pay_direct_fails answer id refund_no order_id now p pay audited db =
    elim (Result-cases (create id refund_no order_id p audited now db).0) [
      | inr (x, e) ↦ ground arith
      | inl (made, e) ↦
          let (same, made_one) = create-IsRequested id refund_no order_id now p audited db made e in
          let after = (create id refund_no order_id p audited now db).1 in
          let refused =
            mark_paid_unapproved answer made pay now after made_one.r
              (subst (λ k. find k after.refunds ≡ some made_one.r) (sym same) made_one.refund_after)
              (ap is_approved made_one.is_pending) in
          ground arith
    ]

-- The tables that an unreviewed refund leaves alone.
pub record IsSpared (db db' : Store) : Type 0 where
  pub same_orders : db'.orders ≡ db.orders
  pub same_cards : db'.stock_cards ≡ db.stock_cards
  pub same_payments : db'.payments ≡ db.payments
  pub same_merchants : db'.merchants ≡ db.merchants
  pub same_shops : db'.shops ≡ db.shops
  pub same_tickets : db'.tickets ≡ db.tickets
  pub same_messages : db'.ticket_messages ≡ db.ticket_messages

pub same-IsSpared : (db db' : Store) → db' ≡ db → IsSpared db db'
same-IsSpared db db' e = subst (IsSpared db) (sym e) (record {
  same_orders = refl;
  same_cards = refl;
  same_payments = refl;
  same_merchants = refl;
  same_shops = refl;
  same_tickets = refl;
  same_messages = refl;
})

create-IsSpared :
    (id refund_no order_id now : ℕ) (p : RefundRequest) (audited : Bool) (db : Store)
    → IsSpared db (create id refund_no order_id p audited now db).1
unfolding create
create-IsSpared id refund_no order_id now p audited db = record {
  same_orders = ground arith;
  same_cards = ground arith;
  same_payments = ground arith;
  same_merchants = ground arith;
  same_shops = ground arith;
  same_tickets = ground arith;
  same_messages = ground arith;
}

pub create_and_pay_direct-IsSpared :
    (answer : ℕ → Payment → Option ℕ) (id refund_no order_id now : ℕ) (p : RefundRequest)
    (pay : PayoutRequest) (audited : Bool) (db : Store)
    → IsSpared db (create_and_pay_direct answer id refund_no order_id p pay audited now db).1
unfolding create_and_pay_direct
create_and_pay_direct-IsSpared answer id refund_no order_id now p pay audited db =
    let after = create id refund_no order_id p audited now db in
    let spared = create-IsSpared id refund_no order_id now p audited db in
    elim (Result-cases after.0) [
      | inr (x, e) ↦
          let same : (create_and_pay_direct answer id refund_no order_id p pay audited now db).1
              ≡ after.1 =
            ground arith in
          subst (IsSpared db) (sym same) spared
      | inl (made, e) ↦
          let (equal, one) = create-IsRequested id refund_no order_id now p audited db made e in
          let refused =
            mark_paid_unapproved answer made pay now after.1 one.r
              (subst (λ k. find k after.1.refunds ≡ some one.r) (sym equal) one.refund_after)
              (ap is_approved one.is_pending) in
          let same : (create_and_pay_direct answer id refund_no order_id p pay audited now db).1
              ≡ after.1 =
            ground arith in
          subst (IsSpared db) (sym same) spared
    ]
