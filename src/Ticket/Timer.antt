-- ===== src/Ticket/Timer.antt =====
-- apps/api/src/modules/ticket/ticket.service.ts, `autoRefundExpiredTickets`: every 10 minutes,
-- tickets that wait for an answer after their time are refunded, and merchants who leave too many
-- of them are frozen. The result of the channel, the identifiers of a new refund and its reason, by
-- the ticket, are arguments.
use winmelon_card.Base.{
  ℕ, Bool, true, false, ◌&&◌, Option, none, some, [], ◌∷◌, ltb, leb, if◌then◌else◌, take,
}
use winmelon_card.Base.Int.{ℤ, pos, ltb_ℤ}
use winmelon_card.Base.Text.{Text}
use winmelon_card.Base.Table.{Table, find, find_many, count}
use winmelon_card.Schema.{
  Ticket, TicketStatus, refunded_notice, by_platform, Shop, Order, Merchant, MerchantStatus,
  Payment, RefundInitiator,
}
use winmelon_card.Schema.Store.{Store}
use winmelon_card.Schema.Action.{
  Action, ⊤, pure, gets, transaction, catch, update_merchant, ◌>>=◌, ◌>>◌,
}
use winmelon_card.Refund.{RefundRequest, PayoutRequest, is_refundable, create_and_pay_direct}
use winmelon_card.Ticket.{is_shop_of, update_ticket, add_message, unresponded_freeze_threshold}

-- `status: { in: ['OPEN', 'BUYER_REPLIED'] }`
abbrev pub is_waiting : TicketStatus → Bool
is_waiting TicketStatus.open_ticket = true
is_waiting TicketStatus.buyer_replied = true
is_waiting TicketStatus.merchant_replied = false
is_waiting TicketStatus.platform_replied = false
is_waiting TicketStatus.resolved = false
is_waiting TicketStatus.auto_refunded = false
is_waiting TicketStatus.closed_ticket = false

abbrev pub is_before : Option ℕ → ℕ → Bool
is_before none now = false
is_before (some at) now = ltb at now

-- The `where` of the query.
abbrev pub is_expired : ℕ → ℕ → Ticket → Bool
is_expired now id t = is_waiting t.status && is_before t.auto_refund_at now

-- What the timer makes up for a ticket: the keys of its refund, and the reason's text.
pub record Fresh : Type 0 where
  pub refund_id : ℕ
  pub refund_no : ℕ
  pub reason : Text

-- The order and the merchant that the query includes.
abbrev pub order_of : Table Order → Ticket → Option Order
order_of orders t = elim t.order_id [ none ↦ none | some k ↦ find k orders ]

abbrev pub owner_of : Table Shop → Ticket → Option ℕ
owner_of shops t = elim (find t.shop_id shops) [ none ↦ none | some s ↦ some s.merchant_id ]

pub record Expired : Type 0 where
  pub ticket : Ticket
  pub order : Option Order
  pub merchant_id : Option ℕ

abbrev pub amount_of : Option Order → ℤ
amount_of none = pos 0
amount_of (some o) = o.total_amount

abbrev pub direct_request : Text → RefundRequest
direct_request reason = record {
  reason = reason;
  initiator = RefundInitiator.platform;
  amount = none;
}

abbrev pub direct_payout : PayoutRequest
direct_payout = record {
  manual_payout = true;
  trade_no = none;
  force_override = false;
  usdt = none;
}

-- The call of the refund service, whose exception is swallowed.
unfoldable pub try_refund :
    (ℕ → Payment → Option ℕ) → Fresh → Option ℕ → Option Order → ℕ → Action ⊤
unfolding create_and_pay_direct
try_refund answer fresh order_id order now = elim order_id [
  | none ↦ pure tt
  | some k ↦ elim order [
    | none ↦ pure tt
    | some o ↦
        if is_refundable o.status && ltb_ℤ (pos 0) o.total_amount
        then catch
            (create_and_pay_direct answer fresh.refund_id fresh.refund_no k
              (direct_request fresh.reason) direct_payout false now)
            (λ e. pure tt)
        else pure tt
  ]
]

abbrev pub set_auto_refunded : ℤ → ℕ → Ticket → Ticket
set_auto_refunded amount now t = record t {
  status = TicketStatus.auto_refunded;
  resolved_at = some now;
  refund_amount = if ltb_ℤ (pos 0) amount then some amount else none;
}

abbrev pub is_auto_refunded : TicketStatus → Bool
is_auto_refunded TicketStatus.auto_refunded = true
is_auto_refunded TicketStatus.open_ticket = false
is_auto_refunded TicketStatus.buyer_replied = false
is_auto_refunded TicketStatus.merchant_replied = false
is_auto_refunded TicketStatus.platform_replied = false
is_auto_refunded TicketStatus.resolved = false
is_auto_refunded TicketStatus.closed_ticket = false

-- `where: { shop: { merchantId }, status: 'AUTO_REFUNDED' }`
abbrev pub unresponded : ℕ → Table Shop → ℕ → Ticket → Bool
unresponded merchant_id shops id t =
    is_auto_refunded t.status && is_shop_of merchant_id shops t.shop_id

abbrev pub freeze : ℕ → Merchant → Merchant
freeze now m = record m { frozen_at = some now; status = MerchantStatus.suspended }

abbrev pub freeze_unresponsive : Option ℕ → ℕ → Action ⊤
freeze_unresponsive none now = pure tt
freeze_unresponsive (some k) now = do
  number ← gets (λ db. count (unresponded k db.shops) db.tickets)
  if leb unresponded_freeze_threshold number then update_merchant k (freeze now) else pure tt

-- `processAutoRefund`
unfoldable pub process_auto_refund : (ℕ → Payment → Option ℕ) → Fresh → ℕ → Expired → ℕ → Action ⊤
unfolding try_refund
process_auto_refund answer fresh id x now = do
  try_refund answer fresh x.ticket.order_id x.order now
  transaction (do
    update_ticket id (set_auto_refunded (amount_of x.order) now)
    add_message id by_platform none (refunded_notice (amount_of x.order)) false
    freeze_unresponsive x.merchant_id now)

abbrev pub include : Store → Table Ticket → Table Expired
include db [] = []
include db ((id, t) ∷ ts) =
    (id, record { ticket = t; order = order_of db.orders t; merchant_id = owner_of db.shops t })
    ∷ include db ts

-- The loop over the tickets that were read.
unfoldable pub process_each : (ℕ → Payment → Option ℕ) → (ℕ → Fresh) → Table Expired → ℕ → Action ⊤
unfolding process_auto_refund
process_each answer fresh [] now = pure tt
process_each answer fresh ((id, x) ∷ xs) now = do
  catch (process_auto_refund answer (fresh id) id x now) (λ e. pure tt)
  process_each answer fresh xs now

-- `autoRefundExpiredTickets`
unfoldable pub auto_refund_expired_tickets : (ℕ → Payment → Option ℕ) → (ℕ → Fresh) → ℕ → Action ⊤
unfolding process_each
auto_refund_expired_tickets answer fresh now = do
  expired ← gets (λ db. include db (take 50 (find_many (is_expired now) db.tickets)))
  process_each answer fresh expired now
