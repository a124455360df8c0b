-- ===== src/Refund/Tests.antt =====
-- Refunds on the sample shop.
use winmelon_card.Base.{ℕ, ◌≡◌, refl, Bool, Option, none, some, [], ◌∷◌}
use winmelon_card.Base.Int.{◌-ℤ◌}
use winmelon_card.Base.Text.{trim}
use winmelon_card.Base.Result.{ok, err, bad_request, bad_status}
use winmelon_card.Schema.{OrderStatus, StockCardStatus, RefundStatus, RefundInitiator, Payment}
use winmelon_card.Schema.Store.{Store}
use winmelon_card.Sample.{ordered, order, card, refund}
use winmelon_card.Base.Table.{find, IsKeyed}
use winmelon_card.Order.Expiry.{expire_orders}
use winmelon_card.Refund.Locked.{mark_paid-expire_orders}
use winmelon_card.Refund.{PayoutRequest, RefundRequest, create, mark_paid}
use winmelon_card.Refund.Retry.{retry_refund}
use winmelon_card.Refund.Payout.{IsPaid, mark_paid-IsPaid}
use winmelon_card.Refund.Failures.{IsFailedAgain, retry_refund-IsFailedAgain}

-- A channel that pays back everything.
abbrev answer : ℕ → Payment → Option ℕ
answer order_id p = some 4343

abbrev by_hand : PayoutRequest
by_hand = record {
  manual_payout = Bool.true;
  trade_no = none;
  force_override = Bool.false;
  usdt = none;
}

abbrev complaint : RefundRequest
complaint = record { reason = 82 ∷ []; initiator = RefundInitiator.buyer; amount = none }

abbrev sold : Store
sold = ordered OrderStatus.delivered StockCardStatus.sold

abbrev with_refund : RefundStatus → ℕ → Store
with_refund s tries = record sold { refunds = (60, refund s tries) ∷ [] }

mark_paid-approved : (mark_paid answer 60 by_hand 9 (with_refund RefundStatus.approved 0)).0 ≡ ok tt
unfolding mark_paid ◌-ℤ◌
mark_paid-approved = refl

mark_paid-IsPaid_example :
    IsPaid 60 by_hand
      (with_refund RefundStatus.approved 0)
      (mark_paid answer 60 by_hand 9 (with_refund RefundStatus.approved 0)).1
mark_paid-IsPaid_example =
    mark_paid-IsPaid answer 60 by_hand 9 (with_refund RefundStatus.approved 0) mark_paid-approved

mark_paid-failed :
    (mark_paid answer 60 by_hand 9 (with_refund RefundStatus.failed 1)).0
    ≡ err (bad_request bad_status)
unfolding mark_paid
mark_paid-failed = refl

create-sold : (create 60 6000 50 complaint Bool.true 9 sold).0 ≡ ok 60
unfolding create trim
create-sold = refl

retry_refund-IsFailedAgain_example :
    ((retry_refund answer 60 9 (with_refund RefundStatus.failed 1)).0 ≡ ok (RefundStatus.failed, 2))
    × IsFailedAgain 60 9
        (refund RefundStatus.failed 1)
        (with_refund RefundStatus.failed 1)
        (retry_refund answer 60 9 (with_refund RefundStatus.failed 1)).1
retry_refund-IsFailedAgain_example =
    retry_refund-IsFailedAgain answer 60 9 (with_refund RefundStatus.failed 1)
      (refund RefundStatus.failed 1) refl refl refl refl

-- The order is refunded before its delivery.
abbrev undelivered : Store
undelivered = record (ordered OrderStatus.paid StockCardStatus.locked) {
  refunds = (60, refund RefundStatus.approved 0) ∷ [];
}

mark_paid-undelivered : (mark_paid answer 60 by_hand 9 undelivered).0 ≡ ok tt
unfolding mark_paid ◌-ℤ◌
mark_paid-undelivered = refl

undelivered-IsKeyed : IsKeyed (mark_paid answer 60 by_hand 9 undelivered).1.orders
unfolding mark_paid ◌-ℤ◌
undelivered-IsKeyed = (refl, tt)

mark_paid-expire_orders_example :
    find 30 (expire_orders 999999999 (mark_paid answer 60 by_hand 9 undelivered).1).1.stock_cards
    ≡ some (card StockCardStatus.locked (some 50))
mark_paid-expire_orders_example =
    mark_paid-expire_orders answer 60 by_hand 9 999999999 undelivered 30
      (card StockCardStatus.locked (some 50)) (refund RefundStatus.approved 0)
      (order OrderStatus.paid) refl refl refl mark_paid-undelivered undelivered-IsKeyed refl refl
      refl
