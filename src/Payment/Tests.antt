-- ===== src/Payment/Tests.antt =====
-- A notification on the sample shop.
use winmelon_card.Base.{◌==◌, ◌≡◌, refl, Bool, none, some, [], ◌∷◌, arith}
use winmelon_card.Base.Table.{find}
use winmelon_card.Delivery.{deliver}
use winmelon_card.Payment.Usdt.{Transfer, confirm_payment, poll_pending_payments}
use winmelon_card.Payment.Late.{deliver-confirm_payment}
use winmelon_card.Base.Int.{pos}
use winmelon_card.Base.Result.{ok, err, Error}
use winmelon_card.Schema.{OrderStatus, StockCardStatus, Payment, PaymentStatus}
use winmelon_card.Schema.Store.{Store}
use winmelon_card.Sample.{market, order, ordered}
use winmelon_card.Payment.{Notify, Parsed, handle_notify, success, fail, set_paid}
use winmelon_card.Payment.Stuck.{handle_notify-fail}
use winmelon_card.Payment.Confirm.{Notified, handle_notify-Notified, handle_notify-handle_notify}

abbrev waiting : Store
waiting = ordered OrderStatus.pending StockCardStatus.locked

abbrev message : Notify
message = record { out_trade_no = 5000; trade_no = 4242; amount = pos 500; success = Bool.true }

handle_notify-Notified_example :
    Notified 70 5 message 9 waiting
      (handle_notify 70 5 (Parsed.message message) 9 waiting).0
      (handle_notify 70 5 (Parsed.message message) 9 waiting).1
handle_notify-Notified_example = handle_notify-Notified 70 5 message 9 waiting

handle_notify-waiting : (handle_notify 70 5 (Parsed.message message) 9 waiting).0 ≡ ok success
unfolding handle_notify
handle_notify-waiting = refl

handle_notify-handle_notify_example :
    handle_notify 71 5
      (Parsed.message message)
      10
      (handle_notify 70 5 (Parsed.message message) 9 waiting).1
    ≡ (ok success, (handle_notify 70 5 (Parsed.message message) 9 waiting).1)
handle_notify-handle_notify_example =
    handle_notify-handle_notify 70 71 5 message 9 10 waiting refl refl (ground arith)
      handle_notify-waiting

-- A transfer of 5 USDT for an order that has expired.
abbrev transfer : Transfer
transfer = record { transaction_id = 99; value = 5000000 }

abbrev by_usdt : Payment
by_usdt = record {
  order_id = 50;
  channel = 6;
  trade_no = none;
  amount = pos 500;
  status = PaymentStatus.pending;
  paid_at = none;
  usdt_wallet = some 7;
  usdt_amount = some 5000000;
  usdt_tx_hash = none;
  expires_at = some 1800000;
}

abbrev expired : Store
expired = record market {
  orders = (50, order OrderStatus.expired) ∷ [];
  payments = (70, by_usdt) ∷ [];
}

deliver-confirm_payment_example :
    (find 50 (confirm_payment 6 70 50 99 700000 expired).1.orders
      ≡ some (set_paid 700000 (order OrderStatus.expired)))
    × ((e : Error) × ((deliver 50 700001 (confirm_payment 6 70 50 99 700000 expired).1).0 ≡ err e)
        × ((deliver 50 700001 (confirm_payment 6 70 50 99 700000 expired).1).1
            ≡ (confirm_payment 6 70 50 99 700000 expired).1))
deliver-confirm_payment_example =
    deliver-confirm_payment 6 70 50 99 700000 700001 expired by_usdt (order OrderStatus.expired)
      refl refl (refl, tt) (omega arith)

-- The poll finds the transfer and pays the order.
poll_pending_payments-expired :
    (poll_pending_payments (λ a v. a == v) 6 (λ w. some (transfer ∷ [])) 700000 expired).1.orders
    ≡ (50, set_paid 700000 (order OrderStatus.expired)) ∷ []
unfolding poll_pending_payments
poll_pending_payments-expired = refl

-- The buyer has opened two payments in channel 5.
abbrev twice : Store
twice = record waiting {
  payments =
      (70, record by_usdt { channel = 5; trade_no = some 1 })
      ∷ (71, record by_usdt { channel = 5; trade_no = some 2 })
      ∷ [];
}

handle_notify-fail_example :
    ((handle_notify 72 5 (Parsed.message message) 9 twice).0 ≡ ok fail)
    × ((handle_notify 72 5 (Parsed.message message) 9 twice).1.orders ≡ twice.orders)
    × ((handle_notify 72 5 (Parsed.message message) 9 twice).1.payments ≡ twice.payments)
handle_notify-fail_example =
    handle_notify-fail 72 5 message 9 50 (order OrderStatus.pending) twice refl refl refl
      (omega arith) refl refl refl
