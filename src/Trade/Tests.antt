-- ===== src/Trade/Tests.antt =====
-- A sale on the sample shop, from the order to the delivery.
use winmelon_card.Base.{◌≡◌, refl, true, none, some, List, [], ◌∷◌, arith}
use winmelon_card.Base.Int.{pos, ◌+ℤ◌, scale}
use winmelon_card.Base.Table.{find}
use winmelon_card.Schema.{Order, OrderStatus, StockCard, StockCardStatus}
use winmelon_card.Sample.{market, order, card}
use winmelon_card.Order.{CreateOrder}
use winmelon_card.Payment.{Parsed, Notify, set_paid}
use winmelon_card.Delivery.{set_delivered, set_sold}
use winmelon_card.Trade.{Call, orders, notifies, hands_over, retries, expires, perform, perform_all}
use winmelon_card.Trade.Step.{Steps, perform-Steps}
use winmelon_card.Trade.Invariant.{IsSound, IsSettled, perform_all-IsSound, perform_all-IsSettled}
use winmelon_card.Trade.Promise.{IsHandedOver, perform_all-deliver}

abbrev wanted : CreateOrder
wanted = record {
  shop_code = 100;
  buyer_email = 900;
  idempotency_key = 77;
  items = record { product_id = 20; quantity = 1 } ∷ [];
  invite_code = none;
}

abbrev message : Notify
message = record { out_trade_no = 5000; trade_no = 8000; amount = pos 500; success = true }

abbrev purchase : List Call
purchase = orders 50 5000 wanted 3 0 ∷ notifies 60 5 (Parsed.message message) 10 ∷ []

abbrev sale : List Call
sale = orders 50 5000 wanted 3 0 ∷ notifies 60 5 (Parsed.message message) 10 ∷ hands_over 50 20 ∷ []

abbrev more : List Call
more =
    expires 900000
    ∷ retries 50 30
    ∷ orders 51 5001 (record wanted { idempotency_key = 78 }) 3 40
    ∷ []

market-IsSound : IsSound market
market-IsSound = record {
  consistent = record {
    keyed_orders = tt;
    keyed_cards = (refl, (refl, tt));
    fitting = λ k c h. ground arith;
  };
  filled = λ j o h waits. absurd (ground arith);
}

abbrev paid_order : Order
paid_order = set_paid 10 (record (order OrderStatus.pending) { expire_at = 600000 })

purchase-market : find 50 (perform_all purchase market).orders ≡ some paid_order
unfolding perform_all ◌+ℤ◌ scale
purchase-market = refl

perform-Steps_example : Steps market (perform (orders 50 5000 wanted 3 0) market)
perform-Steps_example = perform-Steps (orders 50 5000 wanted 3 0) market tt

perform_all-IsSound_example : IsSound (perform_all sale market)
perform_all-IsSound_example = perform_all-IsSound sale market market-IsSound

perform_all-deliver_example : IsHandedOver 50 20 paid_order (perform_all purchase market)
perform_all-deliver_example =
    perform_all-deliver purchase market 50 20 paid_order market-IsSound purchase-market refl

abbrev delivered_order : Order
delivered_order = set_delivered 20 paid_order

abbrev sold_card : StockCard
sold_card = set_sold 20 (card StockCardStatus.sold (some 50))

sale-market : IsSettled 50 30 delivered_order sold_card (perform_all sale market)
unfolding perform_all ◌+ℤ◌ scale
sale-market = record {
  order_there = refl;
  card_there = refl;
  order_delivered = refl;
  card_sold = refl;
}

perform_all-IsSettled_example :
    IsSettled 50 30 delivered_order sold_card (perform_all more (perform_all sale market))
perform_all-IsSettled_example =
    perform_all-IsSettled more (perform_all sale market) 50 30 delivered_order sold_card
      (perform_all-IsSound sale market market-IsSound) sale-market
