-- ===== src/Order/Query.antt =====
-- apps/api/src/modules/order/order.service.ts, `findByOrderNo`: a buyer looks at an order, and the
-- first look at the cards is recorded as the receipt of the goods. Decryption is an argument.
use winmelon_card.Base.{
  ℕ, Bool, true, false, ◌&&◌, some, List, [], ◌∷◌, ◌==◌, if◌then◌else◌, is_none,
}
use winmelon_card.Base.Table.{Table, find_first, find_many, adjust}
use winmelon_card.Base.Result.{not_found, row_missing}
use winmelon_card.Base.Text.{Text}
use winmelon_card.Schema.{StockCard, StockCardStatus, Order, OrderStatus}
use winmelon_card.Schema.Action.{Action, pure, gets, or_throw, modify, ◌>>=◌, ◌>>◌}
use winmelon_card.Order.{belongs_to}

abbrev pub is_delivered : OrderStatus → Bool
is_delivered OrderStatus.delivered = true
is_delivered OrderStatus.pending = false
is_delivered OrderStatus.paid = false
is_delivered OrderStatus.expired = false
is_delivered OrderStatus.refunded = false
is_delivered OrderStatus.closed = false

abbrev pub is_sold : StockCardStatus → Bool
is_sold StockCardStatus.sold = true
is_sold StockCardStatus.available = false
is_sold StockCardStatus.locked = false
is_sold StockCardStatus.disabled = false

abbrev pub sold_for : ℕ → ℕ → StockCard → Bool
sold_for order_id id c = belongs_to order_id id c && is_sold c.status

abbrev pub set_viewed : ℕ → Order → Order
set_viewed now o = record o { viewed_at = some now }

pub record OrderView : Type 0 where
  pub order : Order
  pub cards : List Text

abbrev same_buyer : ℕ → ℕ → ℕ → Order → Bool
same_buyer order_no email id o = o.order_no == order_no && o.buyer_email == email

module _ (decrypt : ℕ → Text) where
  abbrev pub contents : Table StockCard → List Text
  contents [] = []
  contents ((id, c) ∷ t) = decrypt c.ciphertext ∷ contents t

  pub find_by_order_no : ℕ → ℕ → ℕ → Action OrderView
  find_by_order_no order_no email now = do
    row ←
        or_throw (← gets (λ db. find_first (same_buyer order_no email) db.orders))
          (not_found row_missing)
    cards ← gets (λ db.
        if is_delivered row.1.status
        then contents (find_many (sold_for row.0) db.stock_cards)
        else [])
    if is_delivered row.1.status && is_none row.1.viewed_at
        then modify (λ db. record db { orders = adjust row.0 (set_viewed now) db.orders })
        else pure tt
    pure (record { order = row.1; cards = cards })
