-- ===== src/Schema.antt =====
-- apps/api/prisma/schema.prisma: the enumerations and the rows of the tables that the trading core
-- reads and writes. Identifiers, order numbers, e-mail addresses, IP addresses and channel codes
-- are only compared, so they are numbers (an e-mail address up to the case of its letters, as the
-- collation of the database compares it); amounts of money are integers in fen; times are
-- milliseconds.
pub mod Store
pub mod Action
use winmelon_card.Base.{ℕ, Bool, Option, List}
use winmelon_card.Base.Int.{ℤ}
use winmelon_card.Base.Text.{Text}

pub data OrderStatus : Type 0 where
  pending paid delivered expired refunded closed : OrderStatus

pub data StockCardStatus : Type 0 where
  available locked sold disabled : StockCardStatus

pub data ProductStatus : Type 0 where
  online offline sold_out : ProductStatus

pub data PaymentStatus : Type 0 where
  pending success failed refunded expired : PaymentStatus

pub data RefundStatus : Type 0 where
  pending approved rejected paid failed : RefundStatus

pub data RefundInitiator : Type 0 where
  buyer platform : RefundInitiator

pub data WithdrawalStatus : Type 0 where
  pending approving paid rejected failed : WithdrawalStatus

pub data WithdrawalMethod : Type 0 where
  alipay wechat bank usdt : WithdrawalMethod

pub data CommissionStatus : Type 0 where
  settled reversed : CommissionStatus

-- The values of the column `leaderboardDisplayMode`.
pub data LeaderboardMode : Type 0 where
  top10 top10_with_neighbors off : LeaderboardMode

pub data MerchantStatus : Type 0 where
  pending active suspended rejected : MerchantStatus

pub data MerchantPenaltyStatus : Type 0 where
  pending_penalty penalty_executed : MerchantPenaltyStatus

pub data PenaltyType : Type 0 where
  fraud false_invite self_invite other : PenaltyType

pub data PenaltyAction : Type 0 where
  freeze_account reverse_commission suspend_distribution : PenaltyAction

pub data PenaltyStatus : Type 0 where
  pending appealed executed dismissed : PenaltyStatus

pub data TicketStatus : Type 0 where
  open_ticket buyer_replied merchant_replied platform_replied resolved auto_refunded closed_ticket :
      TicketStatus

pub data TicketCategory : Type 0 where
  refund delivery quality other : TicketCategory

-- The values of the columns `lastRepliedByRole` and `senderRole`.
pub data SenderRole : Type 0 where
  by_buyer by_merchant by_platform : SenderRole

pub data UserRole : Type 0 where
  super_admin merchant staff : UserRole

pub data ApplicationStatus : Type 0 where
  pending approved rejected : ApplicationStatus

-- `code` has a unique index.
pub record Merchant : Type 0 where
  pub code : ℕ
  pub contact_email : ℕ
  pub balance : ℤ
  pub freeze_balance : ℤ
  pub total_withdrawn : ℤ
  pub name : Text
  pub inviter_merchant_id : Option ℕ
  pub invited_at : Option ℕ
  pub allow_buyer_invite_code : Bool
  pub distribution_suspended_at : Option ℕ
  pub withdrawal_suspended_at : Option ℕ
  pub leaderboard_display_mode : LeaderboardMode
  pub leaderboard_name : Option Text
  pub status : MerchantStatus
  pub frozen_at : Option ℕ
  pub penalty_status : Option MerchantPenaltyStatus
  pub penalty_reason : Option Text
  pub penalty_started_at : Option ℕ
  pub deleted_at : Option ℕ

pub record MerchantPenalty : Type 0 where
  pub merchant_id : ℕ
  pub kind : PenaltyType
  pub action : PenaltyAction
  pub status : PenaltyStatus
  pub reason : Text
  pub amount : Option ℤ
  pub appeal_deadline : ℕ
  pub appeal_content : Option Text
  pub appealed_at : Option ℕ
  pub executed_at : Option ℕ

-- `code` has a unique index.
pub record Shop : Type 0 where
  pub merchant_id : ℕ
  pub code : ℕ
  pub is_online : Bool

pub record Product : Type 0 where
  pub shop_id : ℕ
  pub merchant_id : ℕ
  pub price : ℤ
  pub status : ProductStatus
  pub purchase_limit : Option ℕ
  pub deleted_at : Option ℕ

-- `order_id` has a unique index.
pub record StockCard : Type 0 where
  pub product_id : ℕ
  pub ciphertext : ℕ
  pub content_hash : ℕ
  pub status : StockCardStatus
  pub order_id : Option ℕ
  pub sold_at : Option ℕ

pub record OrderItem : Type 0 where
  pub product_id : ℕ
  pub unit_price : ℤ
  pub quantity : ℕ
  pub subtotal : ℤ

-- `order_no` and `idempotency_key` have unique indexes.
pub record Order : Type 0 where
  pub order_no : ℕ
  pub shop_id : ℕ
  pub buyer_email : ℕ
  pub total_amount : ℤ
  pub status : OrderStatus
  pub expire_at : ℕ
  pub paid_at : Option ℕ
  pub delivered_at : Option ℕ
  pub viewed_at : Option ℕ
  pub idempotency_key : ℕ
  pub used_invite_code : Option ℕ
  pub merchant_id : Option ℕ
  pub items : List OrderItem

pub record Payment : Type 0 where
  pub order_id : ℕ
  pub channel : ℕ
  pub trade_no : Option ℕ
  pub amount : ℤ
  pub status : PaymentStatus
  pub paid_at : Option ℕ
  pub usdt_wallet : Option ℕ
  pub usdt_amount : Option ℕ
  pub usdt_tx_hash : Option ℕ
  pub expires_at : Option ℕ

-- The key of a row is the channel's code.
pub record PaymentChannel : Type 0 where
  pub is_available : Bool
  pub config : ℕ

pub record MerchantPaymentChannel : Type 0 where
  pub merchant_id : ℕ
  pub channel_code : ℕ
  pub is_enabled : Bool

pub record UsdtPayout : Type 0 where
  pub tx_hash : ℕ
  pub sender_wallet : ℕ
  pub receiver_wallet : ℕ

pub record Refund : Type 0 where
  pub refund_no : ℕ
  pub order_id : ℕ
  pub merchant_id : Option ℕ
  pub amount : ℤ
  pub reason : Text
  pub status : RefundStatus
  pub initiator : RefundInitiator
  pub processed_by_id : Option ℕ
  pub processed_at : Option ℕ
  pub rejected_at : Option ℕ
  pub reject_reason : Option Text
  pub paid_at : Option ℕ
  pub trade_no : Option ℕ
  pub retry_count : ℕ
  pub last_error_at : Option ℕ
  pub next_retry_at : Option ℕ
  pub alert_sent_at : Option ℕ
  pub manual_payout : Bool
  pub usdt : Option UsdtPayout
  pub created_at : ℕ

-- The JSON text of the column `accountInfo`; an absent field is the empty text.
pub record AccountInfo : Type 0 where
  pub account : Text
  pub name : Text
  pub bank_name : Text

pub record Withdrawal : Type 0 where
  pub merchant_id : ℕ
  pub amount : ℤ
  pub fee : ℤ
  pub actual : ℤ
  pub method : WithdrawalMethod
  pub account_info : AccountInfo
  pub status : WithdrawalStatus
  pub reject_reason : Option Text
  pub transfer_ref : Option Text
  pub processed_by_id : Option ℕ
  pub processed_at : Option ℕ
  pub created_at : ℕ

-- `rate` is in ten-thousandths.
pub record CommissionRecord : Type 0 where
  pub inviter_merchant_id : ℕ
  pub source_merchant_id : ℕ
  pub order_id : ℕ
  pub level : ℕ
  pub base_amount : ℤ
  pub rate : ℕ
  pub amount : ℤ
  pub status : CommissionStatus
  pub reversed_at : Option ℕ

pub record InviteCode : Type 0 where
  pub code : ℕ
  pub inviter_merchant_id : ℕ
  pub used_count : ℕ

-- A row of `ip_blacklist` or `email_blacklist`, under the address, which is unique there.
pub record Blocked : Type 0 where
  pub expires_at : Option ℕ

-- A row of `risk_records` with the action "order.pending".
pub record RiskRecord : Type 0 where
  pub ip : ℕ
  pub email : ℕ
  pub created_at : ℕ

-- `username` and `email` have unique indexes.
pub record User : Type 0 where
  pub username : ℕ
  pub email : ℕ
  pub password_hash : ℕ
  pub role : UserRole
  pub merchant_id : Option ℕ
  pub is_active : Bool
  pub token_epoch : ℕ
  pub deleted_at : Option ℕ

-- A row with the type "merchant_apply".
pub record EmailVerification : Type 0 where
  pub email : ℕ
  pub code : ℕ
  pub expires_at : ℕ
  pub used_at : Option ℕ

-- `shop_code` has a unique index.
pub record MerchantApplication : Type 0 where
  pub contact_email : ℕ
  pub merchant_name : Text
  pub shop_code : ℕ
  pub status : ApplicationStatus
  pub reject_reason : Option Text
  pub reviewed_by_id : Option ℕ
  pub reviewed_at : Option ℕ
  pub approved_merchant_id : Option ℕ
  pub invite_code : Option ℕ
  pub activation_token_hash : Option ℕ
  pub activation_expires_at : Option ℕ
  pub activated_at : Option ℕ

-- `token` has a unique index.
pub record ActivationToken : Type 0 where
  pub token : ℕ
  pub email : ℕ
  pub user_id : Option ℕ
  pub expires_at : ℕ
  pub used_at : Option ℕ

-- `ticket_no` has a unique index.
pub record Ticket : Type 0 where
  pub ticket_no : ℕ
  pub order_id : Option ℕ
  pub shop_id : ℕ
  pub buyer_email : ℕ
  pub category : TicketCategory
  pub subject : Text
  pub description : Text
  pub status : TicketStatus
  pub last_replied_at : Option ℕ
  pub last_replied_by_role : Option SenderRole
  pub auto_refund_at : Option ℕ
  pub resolved_at : Option ℕ
  pub refund_amount : Option ℤ

-- The text of a message: what somebody wrote, or the notice that the amount has been paid back.
pub data MessageContent : Type 0 where
  written : Text → MessageContent
  refunded_notice : ℤ → MessageContent

pub record TicketMessage : Type 0 where
  pub ticket_id : ℕ
  pub sender_role : SenderRole
  pub sender_id : Option ℕ
  pub content : MessageContent
  pub is_internal : Bool

-- The rows of `system_configs` that the trading core reads; rates are in ten-thousandths.
pub record SystemConfig : Type 0 where
  pub commission_level_1_rate : Option ℕ
  pub commission_level_2_rate : Option ℕ
  pub commission_level_3_rate : Option ℕ
  pub commission_rate : Option ℕ
  pub buyer_invite_code_global_enabled : Option Bool
  pub risk_ip_pending_threshold : Option ℕ
  pub risk_email_pending_threshold : Option ℕ
  pub risk_window_minutes : Option ℕ
  pub risk_auto_block_minutes : Option ℕ
