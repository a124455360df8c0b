-- ===== src/Ticket.antt =====
-- apps/api/src/modules/ticket/ticket.service.ts: tickets of buyers, the replies to them, and the
-- timer that refunds tickets nobody has answered. The identifiers of rows, the ticket number of the
-- snowflake service and the time are arguments; the text of `frozenReason`, the names of senders and
-- the e-mail to the merchant are left out. `toLowerCase` of an e-mail address is the address itself,
-- as addresses are numbers up to the case of their letters.
pub mod Timer
pub mod Step
pub mod Calls
pub mod Freeze
pub mod Unpaid
pub mod Notes
mod Tests
use winmelon_card.Base.{
  ℕ, ◌+◌, ◌*◌, Bool, true, false, ◌&&◌, ◌||◌, Option, none, some, List, [], ◌∷◌, ◌==◌, ltb, leb,
  if◌then◌else◌, is_none, or_else, take,
}
use winmelon_card.Base.Int.{ℤ, pos, ltb_ℤ}
use winmelon_card.Base.Text.{Text, trim, is_empty}
use winmelon_card.Base.Table.{Table, find, find_first, find_many, insert, adjust, count}
use winmelon_card.Base.Result.{
  bad_request, not_found, forbidden, unique_violation, failure, row_missing, content_missing,
  other_email, ticket_closed, ok, err,
}
use winmelon_card.Schema.{
  Ticket, TicketStatus, TicketCategory, TicketMessage, MessageContent, written, refunded_notice,
  SenderRole, by_buyer, by_merchant, by_platform, Shop, Order, Merchant, MerchantStatus, Payment,
  RefundInitiator,
}
use winmelon_card.Schema.Store.{
  Store, ticket_created, ticket_replied, ticket_create, ticket_merchant_reply, ticket_admin_reply,
  ticket_resolve,
}
use winmelon_card.Schema.Action.{
  Action, ⊤, pure, gets, or_throw, throw_if, modify, transaction, catch, record_audit, emit,
  update_merchant, ◌>>=◌, ◌>>◌,
}
use winmelon_card.Refund.{RefundRequest, PayoutRequest, is_refundable, create_and_pay_direct}

abbrev pub auto_refund_hours : ℕ
auto_refund_hours = 24

abbrev pub unresponded_freeze_threshold : ℕ
unresponded_freeze_threshold = 5

-- `CreateTicketInput`; an empty order number or address is `none`.
pub record CreateTicketInput : Type 0 where
  pub order_no : Option ℕ
  pub buyer_email : Option ℕ
  pub category : Option TicketCategory
  pub subject : Text
  pub description : Text

abbrev pub with_order_no : ℕ → ℕ → Order → Bool
with_order_no order_no id o = o.order_no == order_no

abbrev pub new_ticket : ℕ → ℕ → Order → ℕ → CreateTicketInput → ℕ → Ticket
new_ticket ticket_no order_id o email input now = record {
  ticket_no = ticket_no;
  order_id = some order_id;
  shop_id = o.shop_id;
  buyer_email = email;
  category = or_else input.category TicketCategory.other;
  subject = take 255 input.subject;
  description = take 65535 input.description;
  status = TicketStatus.open_ticket;
  last_replied_at = none;
  last_replied_by_role = none;
  auto_refund_at = some (now + auto_refund_hours * 60 * 60 * 1000);
  resolved_at = none;
  refund_amount = none;
}

abbrev pub same_ticket : ℕ → ℕ → ℕ → Ticket → Bool
same_ticket id ticket_no j t = if j == id then true else t.ticket_no == ticket_no

-- `ticket.create`: the primary key and `ticketNo` are unique.
abbrev pub insert_ticket : ℕ → Ticket → Action ⊤
insert_ticket id t = do
  clash ← gets (λ db. find_first (same_ticket id t.ticket_no) db.tickets)
  throw_if (if is_none clash then false else true) unique_violation
  modify (λ db. record db { tickets = insert id t db.tickets })

-- `ticketMessage.create`
abbrev pub add_message : ℕ → SenderRole → Option ℕ → MessageContent → Bool → Action ⊤
add_message ticket_id role sender content internal = modify (λ db. record db {
  ticket_messages =
      record {
        ticket_id = ticket_id;
        sender_role = role;
        sender_id = sender;
        content = content;
        is_internal = internal;
      }
      ∷ db.ticket_messages;
})

abbrev pub cut : Text → MessageContent
cut content = written (take 65535 content)

-- `create`
unfoldable pub create : ℕ → ℕ → CreateTicketInput → ℕ → Action ⊤
create id ticket_no input now = do
  throw_if (is_none input.buyer_email || is_empty input.subject || is_empty input.description)
      (bad_request content_missing)
  email ← or_throw input.buyer_email (bad_request content_missing)
  order_no ← or_throw input.order_no (bad_request row_missing)
  o ←
      or_throw (← gets (λ db. find_first (with_order_no order_no) db.orders))
        (not_found row_missing)
  throw_if (if o.1.buyer_email == email then false else true) (forbidden other_email)
  insert_ticket id (new_ticket ticket_no o.0 o.1 email input now)
  add_message id by_buyer none (cut input.description) false
  record_audit ticket_create id
  emit (ticket_created id)

-- `['RESOLVED', 'CLOSED', 'AUTO_REFUNDED'].includes(ticket.status)`
abbrev pub is_closed : TicketStatus → Bool
is_closed TicketStatus.resolved = true
is_closed TicketStatus.closed_ticket = true
is_closed TicketStatus.auto_refunded = true
is_closed TicketStatus.open_ticket = false
is_closed TicketStatus.buyer_replied = false
is_closed TicketStatus.merchant_replied = false
is_closed TicketStatus.platform_replied = false

abbrev pub status_of : SenderRole → TicketStatus
status_of by_buyer = TicketStatus.buyer_replied
status_of by_merchant = TicketStatus.merchant_replied
status_of by_platform = TicketStatus.platform_replied

abbrev pub set_replied : SenderRole → ℕ → Ticket → Ticket
set_replied role now t = record t {
  status = status_of role;
  last_replied_at = some now;
  last_replied_by_role = some role;
}

-- `tx.ticket.update({ where: { id } })`: Prisma throws on a missing row (P2025).
abbrev pub update_ticket : ℕ → (Ticket → Ticket) → Action ⊤
update_ticket id f db = elim (find id db.tickets) [
  | none ↦ (err failure, db)
  | some t ↦ (ok tt, record db { tickets = adjust id f db.tickets })
]

-- The transaction of the replies of the two sides.
abbrev pub add_reply : ℕ → SenderRole → Option ℕ → Text → ℕ → Action ⊤
add_reply id role sender content now =
    transaction
      (do add_message id role sender (cut content) false; update_ticket id (set_replied role now))

abbrev pub with_ticket_no : ℕ → ℕ → Ticket → Bool
with_ticket_no ticket_no id t = t.ticket_no == ticket_no

-- `replyFromBuyer`
unfoldable pub reply_from_buyer : ℕ → ℕ → Text → ℕ → Action ⊤
reply_from_buyer ticket_no email content now = do
  throw_if (is_empty (trim content)) (bad_request content_missing)
  t ←
      or_throw (← gets (λ db. find_first (with_ticket_no ticket_no) db.tickets))
        (not_found row_missing)
  throw_if (if t.1.buyer_email == email then false else true) (forbidden other_email)
  throw_if (is_closed t.1.status) (bad_request ticket_closed)
  add_reply t.0 by_buyer none content now
  emit (ticket_replied t.0 by_buyer)

-- `shop: { merchantId }`
abbrev pub is_shop_of : ℕ → Table Shop → ℕ → Bool
is_shop_of merchant_id shops shop_id = elim (find shop_id shops) [
  | none ↦ false
  | some s ↦ s.merchant_id == merchant_id
]

abbrev pub own_ticket : ℕ → ℕ → Table Shop → ℕ → Ticket → Bool
own_ticket ticket_id merchant_id shops id t =
    id == ticket_id && is_shop_of merchant_id shops t.shop_id

-- `replyFromMerchant`
unfoldable pub reply_from_merchant : ℕ → ℕ → ℕ → Text → ℕ → Action ⊤
reply_from_merchant user merchant_id ticket_id content now = do
  throw_if (is_empty (trim content)) (bad_request content_missing)
  t ←
      or_throw (← gets (λ db. find_first (own_ticket ticket_id merchant_id db.shops) db.tickets))
        (not_found row_missing)
  throw_if (is_closed t.1.status) (bad_request ticket_closed)
  add_reply t.0 by_merchant (some user) content now
  record_audit ticket_merchant_reply ticket_id
  emit (ticket_replied ticket_id by_merchant)

-- `replyFromAdmin`: a note for the platform alone changes no status.
unfoldable pub reply_from_admin : ℕ → ℕ → Text → Bool → ℕ → Action ⊤
reply_from_admin user ticket_id content internal now = do
  throw_if (is_empty (trim content)) (bad_request content_missing)
  t ← or_throw (← gets (λ db. find ticket_id db.tickets)) (not_found row_missing)
  transaction (do
    add_message ticket_id by_platform (some user) (cut content) internal
    if internal then pure tt else update_ticket ticket_id (set_replied by_platform now))
  record_audit ticket_admin_reply ticket_id
  if internal then pure tt else emit (ticket_replied ticket_id by_platform)

abbrev pub set_resolved : ℕ → Ticket → Ticket
set_resolved now t = record t { status = TicketStatus.resolved; resolved_at = some now }

-- `resolve`
unfoldable pub resolve : ℕ → ℕ → Action ⊤
resolve ticket_id now = do
  t ← or_throw (← gets (λ db. find ticket_id db.tickets)) (not_found row_missing)
  update_ticket ticket_id (set_resolved now)
  record_audit ticket_resolve ticket_id
