-- ===== src/Sample.antt =====
-- A small shop for the tests of every component: one merchant, one product with two cards, and an
-- order for one of them at each stage of its life.
use winmelon_card.Base.{ℕ, Bool, Option, none, some, [], ◌∷◌}
use winmelon_card.Base.Int.{pos}
use winmelon_card.Schema.{
  LeaderboardMode, MerchantStatus, Merchant, Shop, Product, ProductStatus, StockCard,
  StockCardStatus, Order, OrderStatus, OrderItem, Refund, RefundStatus, RefundInitiator,
}
use winmelon_card.Schema.Store.{Store, empty_store}

abbrev pub merchant : Merchant
merchant = record {
  code = 100;
  contact_email = 800;
  balance = pos 10000;
  freeze_balance = pos 0;
  total_withdrawn = pos 0;
  name = [];
  inviter_merchant_id = none;
  invited_at = none;
  allow_buyer_invite_code = Bool.false;
  distribution_suspended_at = none;
  withdrawal_suspended_at = none;
  leaderboard_display_mode = LeaderboardMode.top10;
  leaderboard_name = none;
  status = MerchantStatus.active;
  frozen_at = none;
  penalty_status = none;
  penalty_reason = none;
  penalty_started_at = none;
  deleted_at = none;
}

abbrev pub shop : Shop
shop = record { merchant_id = 1; code = 100; is_online = Bool.true }

abbrev pub product : Product
product = record {
  shop_id = 10;
  merchant_id = 1;
  price = pos 500;
  status = ProductStatus.online;
  purchase_limit = none;
  deleted_at = none;
}

abbrev pub card : StockCardStatus → Option ℕ → StockCard
card s order = record {
  product_id = 20;
  ciphertext = 8;
  content_hash = 9;
  status = s;
  order_id = order;
  sold_at = none;
}

abbrev pub market : Store
market = record empty_store {
  merchants = (1, merchant) ∷ [];
  shops = (10, shop) ∷ [];
  products = (20, product) ∷ [];
  stock_cards =
      (30, card StockCardStatus.available none) ∷ (31, card StockCardStatus.available none) ∷ [];
  channels = (5, record { is_available = Bool.true; config = 0 }) ∷ [];
}

abbrev pub row : OrderItem
row = record { product_id = 20; unit_price = pos 500; quantity = 1; subtotal = pos 500 }

abbrev pub order : OrderStatus → Order
order s = record {
  order_no = 5000;
  shop_id = 10;
  buyer_email = 900;
  total_amount = pos 500;
  status = s;
  expire_at = 600000;
  paid_at = none;
  delivered_at = none;
  viewed_at = none;
  idempotency_key = 77;
  used_invite_code = none;
  merchant_id = some 1;
  items = row ∷ [];
}

-- The market with one order, and its card.
abbrev pub ordered : OrderStatus → StockCardStatus → Store
ordered s c = record market {
  orders = (50, order s) ∷ [];
  stock_cards = (30, card c (some 50)) ∷ (31, card StockCardStatus.available none) ∷ [];
}

abbrev pub refund : RefundStatus → ℕ → Refund
refund s tries = record {
  refund_no = 6000;
  order_id = 50;
  merchant_id = some 1;
  amount = pos 500;
  reason = 82 ∷ [];
  status = s;
  initiator = RefundInitiator.buyer;
  processed_by_id = none;
  processed_at = none;
  rejected_at = none;
  reject_reason = none;
  paid_at = none;
  trade_no = none;
  retry_count = tries;
  last_error_at = none;
  next_retry_at = none;
  alert_sent_at = none;
  manual_payout = Bool.false;
  usdt = none;
  created_at = 0;
}
