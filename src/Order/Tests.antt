-- ===== src/Order/Tests.antt =====
-- Orders on the sample shop.
use winmelon_card.Base.{◌≡◌, ◌≤◌, refl, none, [], ◌∷◌}
use winmelon_card.Base.Result.{ok}
use winmelon_card.Base.Int.{pos, ◌+ℤ◌, scale}
use winmelon_card.Schema.{OrderStatus, StockCardStatus}
use winmelon_card.Schema.Store.{Store}
use winmelon_card.Sample.{market, ordered, order}
use winmelon_card.Order.{CreateOrder, create, new_reply, replay}
use winmelon_card.Order.Creation.{Created, create-Created}
use winmelon_card.Order.Cards.{requested}
use winmelon_card.Order.Stock.{create-requested, IsOrdered, create-IsOrdered}

abbrev wanted : CreateOrder
wanted = record {
  shop_code = 100;
  buyer_email = 900;
  idempotency_key = 77;
  items = record { product_id = 20; quantity = 1 } ∷ [];
  invite_code = none;
}

abbrev waiting : Store
waiting = ordered OrderStatus.pending StockCardStatus.locked

create-market : (create 50 5000 wanted 3 0 market).0 ≡ ok (new_reply 50 5000 (pos 500) 0)
unfolding create ◌+ℤ◌ scale
create-market = refl

create-Created_example :
    Created 50 5000 wanted 0 market
      (create 50 5000 wanted 3 0 market).0
      (create 50 5000 wanted 3 0 market).1
create-Created_example = create-Created 50 5000 wanted 3 0 market

create-requested_example : requested wanted.items ≤ 1
create-requested_example =
    create-requested 50 5000 wanted 3 0 market (new_reply 50 5000 (pos 500) 0) create-market refl

create-IsOrdered_example :
    IsOrdered 50 wanted 0 (pos 500) market (create 50 5000 wanted 3 0 market).1
create-IsOrdered_example =
    create-IsOrdered 50 5000 wanted 3 0 market (new_reply 50 5000 (pos 500) 0) create-market refl

create-waiting : (create 51 5001 wanted 3 9 waiting).0 ≡ ok (replay (50, order OrderStatus.pending))
unfolding create
create-waiting = refl
