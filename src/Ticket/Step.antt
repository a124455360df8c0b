-- ===== src/Ticket/Step.antt =====
-- What a call of the ticket service may do to the tickets and the merchants.
use winmelon_card.Base.{
  ℕ, ◌≡◌, refl, sym, subst, inl, inr, Bool, true, false, Option, none, some, [], ◌∷◌, arith, leb,
  Bool-cases, Option-cases,
}
use winmelon_card.Base.Int.{ℤ, pos, ltb_ℤ}
use winmelon_card.Base.Text.{Text}
use winmelon_card.Base.Table.{
  Table, find, find_first, insert, adjust, count, IsKeyed, find_first-find,
}
use winmelon_card.Base.Result.{Result-cases, ok}
use winmelon_card.Schema.{
  Ticket, TicketStatus, SenderRole, by_buyer, by_merchant, by_platform, Payment, Order,
}
use winmelon_card.Schema.Store.{Store}
use winmelon_card.Refund.{is_refundable, create_and_pay_direct}
use winmelon_card.Refund.Requests.{
  IsSpared, same-IsSpared, create_and_pay_direct-IsSpared, create_and_pay_direct_fails,
}
use winmelon_card.Ticket.{
  CreateTicketInput, create, reply_from_buyer, reply_from_merchant, reply_from_admin, resolve,
  with_order_no, same_ticket, with_ticket_no, own_ticket, new_ticket, is_closed, set_replied,
  set_resolved, unresponded_freeze_threshold,
}
use winmelon_card.Ticket.Timer.{
  Fresh, Expired, try_refund, process_auto_refund, set_auto_refunded, amount_of, unresponded,
  freeze, owner_of, direct_request, direct_payout,
}

pub data Step (db db' : Store) : Type 0 where
  skip :
      db'.tickets ≡ db.tickets → db'.merchants ≡ db.merchants → db'.shops ≡ db.shops → Step db db'
  report :
      (id : ℕ) (t : Ticket)
      → find id db.tickets ≡ none
      → t.status ≡ TicketStatus.open_ticket
      → db'.tickets ≡ insert id t db.tickets
      → db'.merchants ≡ db.merchants
      → db'.shops ≡ db.shops
      → Step db db'
  answer :
      (id now : ℕ) (role : SenderRole) (t : Ticket)
      → find id db.tickets ≡ some t
      → is_closed t.status ≡ false
      → db'.tickets ≡ adjust id (set_replied role now) db.tickets
      → db'.merchants ≡ db.merchants
      → db'.shops ≡ db.shops
      → Step db db'
  intervene :
      (id now : ℕ) (t : Ticket)
      → find id db.tickets ≡ some t
      → db'.tickets ≡ adjust id (set_replied by_platform now) db.tickets
      → db'.merchants ≡ db.merchants
      → db'.shops ≡ db.shops
      → Step db db'
  settle :
      (id now : ℕ) (t : Ticket)
      → find id db.tickets ≡ some t
      → db'.tickets ≡ adjust id (set_resolved now) db.tickets
      → db'.merchants ≡ db.merchants
      → db'.shops ≡ db.shops
      → Step db db'
  lapse :
      (id now : ℕ) (amount : ℤ) (t : Ticket)
      → find id db.tickets ≡ some t
      → is_closed t.status ≡ false
      → ((k : ℕ)
          → owner_of db.shops t ≡ some k
          → leb unresponded_freeze_threshold (count (unresponded k db.shops) db'.tickets) ≡ false)
      → db'.tickets ≡ adjust id (set_auto_refunded amount now) db.tickets
      → db'.merchants ≡ db.merchants
      → db'.shops ≡ db.shops
      → Step db db'
  punish :
      (id now : ℕ) (amount : ℤ) (t : Ticket) (k : ℕ)
      → find id db.tickets ≡ some t
      → is_closed t.status ≡ false
      → owner_of db.shops t ≡ some k
      → leb unresponded_freeze_threshold (count (unresponded k db.shops) db'.tickets) ≡ true
      → db'.tickets ≡ adjust id (set_auto_refunded amount now) db.tickets
      → db'.merchants ≡ adjust k (freeze now) db.merchants
      → db'.shops ≡ db.shops
      → Step db db'

insert_free :
    (id ticket_no : ℕ) (t : Table Ticket)
    → find_first (same_ticket id ticket_no) t ≡ none
    → find id t ≡ none
insert_free id ticket_no [] h = refl
insert_free id ticket_no ((j, a) ∷ t) h = ground (arith, insert_free id ticket_no t)

pub create-Step :
    (id ticket_no : ℕ) (input : CreateTicketInput) (now : ℕ) (db : Store)
    → Step db (create id ticket_no input now db).1
unfolding create
create-Step id ticket_no input now db = elim (Option-cases input.buyer_email) [
  | inl e ↦ skip (ground arith) (ground arith) (ground arith)
  | inr (email, e) ↦ elim (Option-cases input.order_no) [
    | inl f ↦ skip (ground arith) (ground arith) (ground arith)
    | inr (order_no, f) ↦ elim (Option-cases (find_first (with_order_no order_no) db.orders)) [
      | inl g ↦ skip (ground arith) (ground arith) (ground arith)
      | inr (o, g) ↦ elim (Result-cases (create id ticket_no input now db).0) [
        | inr (x, bad) ↦ skip (ground arith) (ground arith) (ground arith)
        | inl (u, good) ↦
            report id (new_ticket ticket_no o.0 o.1 email input now)
              (insert_free id ticket_no db.tickets (ground arith)) refl (ground arith)
              (ground arith) (ground arith)
      ]
    ]
  ]
]

pub reply_from_buyer-Step :
    (ticket_no email : ℕ) (content : Text) (now : ℕ) (db : Store)
    → IsKeyed db.tickets
    → Step db (reply_from_buyer ticket_no email content now db).1
unfolding reply_from_buyer
reply_from_buyer-Step ticket_no email content now db keyed =
    elim (Option-cases (find_first (with_ticket_no ticket_no) db.tickets)) [
      | inl e ↦ skip (ground arith) (ground arith) (ground arith)
      | inr ((id, t), e) ↦
          let (there, same) = find_first-find (with_ticket_no ticket_no) db.tickets id t e keyed in
          elim (Result-cases (reply_from_buyer ticket_no email content now db).0) [
            | inr (x, bad) ↦ skip (ground arith) (ground arith) (ground arith)
            | inl (u, good) ↦
                answer id now by_buyer t there (ground arith) (ground arith) (ground arith)
                  (ground arith)
          ]
    ]

pub reply_from_merchant-Step :
    (user merchant_id ticket_id : ℕ) (content : Text) (now : ℕ) (db : Store)
    → IsKeyed db.tickets
    → Step db (reply_from_merchant user merchant_id ticket_id content now db).1
unfolding reply_from_merchant
reply_from_merchant-Step user merchant_id ticket_id content now db keyed =
    let own = own_ticket ticket_id merchant_id db.shops in
    elim (Option-cases (find_first own db.tickets)) [
      | inl e ↦ skip (ground arith) (ground arith) (ground arith)
      | inr ((id, t), e) ↦
          let (there, same) = find_first-find own db.tickets id t e keyed in
          elim (Result-cases (reply_from_merchant user merchant_id ticket_id content now db).0) [
            | inr (x, bad) ↦ skip (ground arith) (ground arith) (ground arith)
            | inl (u, good) ↦
                answer id now by_merchant t there (ground arith) (ground arith) (ground arith)
                  (ground arith)
          ]
    ]

pub reply_from_admin-Step :
    (user ticket_id : ℕ) (content : Text) (internal : Bool) (now : ℕ) (db : Store)
    → Step db (reply_from_admin user ticket_id content internal now db).1
unfolding reply_from_admin
reply_from_admin-Step user ticket_id content internal now db =
    elim (Option-cases (find ticket_id db.tickets)) [
      | inl e ↦ skip (ground arith) (ground arith) (ground arith)
      | inr (t, e) ↦ elim (Bool-cases internal) [
        | inl f ↦ skip (ground arith) (ground arith) (ground arith)
        | inr f ↦ elim (Result-cases (reply_from_admin user ticket_id content internal now db).0) [
          | inr (x, bad) ↦ skip (ground arith) (ground arith) (ground arith)
          | inl (u, good) ↦ intervene ticket_id now t e (ground arith) (ground arith) (ground arith)
        ]
      ]
    ]

pub resolve-Step : (ticket_id now : ℕ) (db : Store) → Step db (resolve ticket_id now db).1
unfolding resolve
resolve-Step ticket_id now db = elim (Option-cases (find ticket_id db.tickets)) [
  | inl e ↦ skip (ground arith) (ground arith) (ground arith)
  | inr (t, e) ↦ settle ticket_id now t e (ground arith) (ground arith) (ground arith)
]

-- An unreviewed refund is refused, and what the attempt leaves is spared.
pub try_refund-IsSpared :
    (channel : ℕ → Payment → Option ℕ) (fresh : Fresh) (order_id : Option ℕ) (o : Option Order)
    (now : ℕ) (db : Store)
    → ((try_refund channel fresh order_id o now db).0 ≡ ok tt)
      × IsSpared db (try_refund channel fresh order_id o now db).1
unfolding try_refund
try_refund-IsSpared channel fresh none o now db = (refl, same-IsSpared db db refl)
try_refund-IsSpared channel fresh (some k) none now db = (refl, same-IsSpared db db refl)
try_refund-IsSpared channel fresh (some k) (some o) now db =
    let paid =
      create_and_pay_direct channel fresh.refund_id fresh.refund_no k (direct_request fresh.reason)
        direct_payout false now db in
    let failed =
      create_and_pay_direct_fails channel fresh.refund_id fresh.refund_no k now
        (direct_request fresh.reason) direct_payout false db in
    let spared =
      create_and_pay_direct-IsSpared channel fresh.refund_id fresh.refund_no k now
        (direct_request fresh.reason) direct_payout false db in
    elim (Bool-cases (is_refundable o.status)) [
      | inr e ↦ (
        ground arith,
        same-IsSpared db (try_refund channel fresh (some k) (some o) now db).1 (ground arith),
      )
      | inl e ↦ elim (Bool-cases (ltb_ℤ (pos 0) o.total_amount)) [
        | inr f ↦ (
          ground arith,
          same-IsSpared db (try_refund channel fresh (some k) (some o) now db).1 (ground arith),
        )
        | inl f ↦ elim (Result-cases paid.0) [
          | inl (u, g) ↦ absurd (ground arith)
          | inr (x, g) ↦
              let same : (try_refund channel fresh (some k) (some o) now db).1 ≡ paid.1 =
                ground arith in
              (ground arith, subst (IsSpared db) (sym same) spared)
        ]
      ]
    ]

pub process_auto_refund-Step :
    (channel : ℕ → Payment → Option ℕ) (fresh : Fresh) (id : ℕ) (x : Expired) (now : ℕ) (db : Store)
    → find id db.tickets ≡ some x.ticket
    → is_closed x.ticket.status ≡ false
    → x.merchant_id ≡ owner_of db.shops x.ticket
    → Step db (process_auto_refund channel fresh id x now db).1
unfolding process_auto_refund
process_auto_refund-Step channel fresh id x now db there unanswered owner =
    let (tried, spared) = try_refund-IsSpared channel fresh x.ticket.order_id x.order now db in
    let after = (try_refund channel fresh x.ticket.order_id x.order now db).1 in
    let same_tickets = spared.same_tickets in
    let same_merchants = spared.same_merchants in
    let same_shops = spared.same_shops in
    let amount = amount_of x.order in
    let t = adjust id (set_auto_refunded amount now) db.tickets in
    elim (Option-cases x.merchant_id) [
      | inl e ↦
          lapse id now amount x.ticket there unanswered (λ k f. absurd (ground arith))
            (ground arith) (ground arith) (ground arith)
      | inr (k, e) ↦
          elim (Bool-cases (leb unresponded_freeze_threshold (count (unresponded k db.shops) t))) [
            | inr f ↦
                lapse id now amount x.ticket there unanswered (λ j g. ground arith) (ground arith)
                  (ground arith) (ground arith)
            | inl f ↦ elim (Option-cases (find k db.merchants)) [
              | inl g ↦ skip (ground arith) (ground arith) (ground arith)
              | inr (m, g) ↦
                  punish id now amount x.ticket k there unanswered (ground arith) (ground arith)
                    (ground arith) (ground arith) (ground arith)
            ]
          ]
    ]
