-- ===== src/Schema/Store.antt =====
-- The state of the trading core: the tables of the database, the idempotency marks and the e-mail
-- queues that it keeps in Redis, the audit log (newest first), the events that it has emitted and
-- no listener has handled (newest first), the notifications to administrators, and the messages of
-- tickets (newest first).
use winmelon_card.Base.{ℕ, List, [], none}
use winmelon_card.Base.Int.{ℤ}
use winmelon_card.Base.Table.{Table}
use winmelon_card.Schema.{
  Merchant, Shop, Product, StockCard, Order, Payment, PaymentChannel, MerchantPaymentChannel,
  Refund, Withdrawal, WithdrawalStatus, CommissionRecord, InviteCode, Blocked, RiskRecord,
  SystemConfig, MerchantPenalty, SenderRole, Ticket, TicketMessage, User, EmailVerification,
  MerchantApplication, ActivationToken,
}

pub data Event : Type 0 where
  order_paid : (order_id : ℕ) → (channel : ℕ) → Event
  order_refunded : (refund_id : ℕ) → (order_id : ℕ) → Event
  withdrawal_created : (withdrawal_id : ℕ) → Event
  withdrawal_status_changed : (withdrawal_id : ℕ) → WithdrawalStatus → Event
  commission_earned : (inviter : ℕ) → ℤ → Event
  ticket_created : (ticket_id : ℕ) → Event
  ticket_replied : (ticket_id : ℕ) → SenderRole → Event
  merchant_approved : (email : ℕ) → Event

-- The `action` of an audit entry.
pub data AuditAction : Type 0 where
  withdrawal_apply withdrawal_approve withdrawal_reject withdrawal_paid : AuditAction
  refund_create refund_approve refund_reject refund_mark_paid refund_mark_failed : AuditAction
  refund_auto_reject order_create delivery_success delivery_failed delivery_manual : AuditAction
  notify_verify_failed notify_success stock_import stock_batch_lock : AuditAction
  stock_import_excel stock_batch_unlock stock_batch_delete stock_reveal : AuditAction
  stock_delete invite_code_create merchant_inviter_update : AuditAction
  merchant_penalty_create merchant_penalty_process ticket_create ticket_merchant_reply : AuditAction
  ticket_admin_reply ticket_resolve merchant_activate merchant_approve : AuditAction
  merchant_reject auth_activate : AuditAction

pub record AuditLog : Type 0 where
  pub action : AuditAction
  pub resource_id : ℕ

pub record EmailTask : Type 0 where
  pub order_id : ℕ
  pub attempt : ℕ

pub record Store : Type 0 where
  pub merchants : Table Merchant
  pub shops : Table Shop
  pub products : Table Product
  pub stock_cards : Table StockCard
  pub orders : Table Order
  pub payments : Table Payment
  pub channels : Table PaymentChannel
  pub merchant_channels : Table MerchantPaymentChannel
  pub refunds : Table Refund
  pub withdrawals : Table Withdrawal
  pub commission_records : Table CommissionRecord
  pub invite_codes : Table InviteCode
  pub ip_blacklist : Table Blocked
  pub email_blacklist : Table Blocked
  pub risk_records : List RiskRecord
  pub system_config : SystemConfig
  pub notify_marks : Table ℕ
  pub usdt_marks : Table ℕ
  pub email_retry : Table EmailTask
  pub email_dead : Table EmailTask
  pub audit_logs : List AuditLog
  pub events : List Event
  pub alerts : List ℕ
  pub merchant_penalties : Table MerchantPenalty
  pub notifications : List ℕ
  pub tickets : Table Ticket
  pub ticket_messages : List TicketMessage
  pub users : Table User
  pub email_verifications : Table EmailVerification
  pub email_cooldowns : Table ℕ
  pub applications : Table MerchantApplication
  pub activation_tokens : Table ActivationToken

-- A store with no rows.
abbrev pub empty_store : Store
empty_store = record {
  merchants = [];
  shops = [];
  products = [];
  stock_cards = [];
  orders = [];
  payments = [];
  channels = [];
  merchant_channels = [];
  refunds = [];
  withdrawals = [];
  commission_records = [];
  invite_codes = [];
  ip_blacklist = [];
  email_blacklist = [];
  risk_records = [];
  system_config = record {
    commission_level_1_rate = none;
    commission_level_2_rate = none;
    commission_level_3_rate = none;
    commission_rate = none;
    buyer_invite_code_global_enabled = none;
    risk_ip_pending_threshold = none;
    risk_email_pending_threshold = none;
    risk_window_minutes = none;
    risk_auto_block_minutes = none;
  };
  notify_marks = [];
  usdt_marks = [];
  email_retry = [];
  email_dead = [];
  audit_logs = [];
  events = [];
  alerts = [];
  merchant_penalties = [];
  notifications = [];
  tickets = [];
  ticket_messages = [];
  users = [];
  email_verifications = [];
  email_cooldowns = [];
  applications = [];
  activation_tokens = [];
}
