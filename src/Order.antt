-- ===== src/Order.antt =====
-- apps/api/src/modules/order/order.service.ts: placing an order takes cards out of stock, and a
-- timer gives back the cards of orders that nobody pays. Identifiers, the order number of the
-- snowflake service and the time are arguments.
pub mod Expiry
pub mod Query
pub mod Keys
pub mod Cards
pub mod Placement
pub mod Placed
pub mod Creation
pub mod Stock
pub mod Release
mod Tests
use winmelon_card.Base.{
  ℕ, ◌+◌, ◌*◌, Bool, true, false, ◌&&◌, Option, none, some, List, [], ◌∷◌, ◌++◌, ltb, ◌==◌,
  if◌then◌else◌, includes, is_none, is_some_of, length, take,
}
use winmelon_card.Base.Int.{ℤ, pos, ◌+ℤ◌, scale}
use winmelon_card.Base.Table.{Table, find, find_first, find_many, insert, update_many, count}
use winmelon_card.Base.Result.{
  Error, bad_request, not_found, conflict, unique_violation, failure, shop_missing, product_missing,
  limit_exceeded, no_stock,
}
use winmelon_card.Schema.{
  Shop, Product, ProductStatus, StockCard, StockCardStatus, Order, OrderItem, OrderStatus,
}
use winmelon_card.Schema.Store.{Store, order_create}
use winmelon_card.Schema.Action.{
  Action, ⊤, pure, throw, gets, or_throw, throw_if, modify, transaction, catch, record_audit, ◌>>=◌,
  ◌>>◌,
}
use winmelon_card.Risk.{check_order, record_pending}

-- 10 minutes.
abbrev pub order_ttl_ms : ℕ
order_ttl_ms = 10 * 60 * 1000

pub record CreateOrderItem : Type 0 where
  pub product_id : ℕ
  pub quantity : ℕ

pub record CreateOrder : Type 0 where
  pub shop_code : ℕ
  pub buyer_email : ℕ
  pub idempotency_key : ℕ
  pub items : List CreateOrderItem
  pub invite_code : Option ℕ

pub record OrderReply : Type 0 where
  pub order_id : ℕ
  pub order_no : ℕ
  pub status : OrderStatus
  pub total_amount : ℤ
  pub expire_at : ℕ
  pub idempotent_replay : Bool

abbrev pub is_online : ProductStatus → Bool
is_online ProductStatus.online = true
is_online ProductStatus.offline = false
is_online ProductStatus.sold_out = false

abbrev pub is_available : StockCardStatus → Bool
is_available StockCardStatus.available = true
is_available StockCardStatus.locked = false
is_available StockCardStatus.sold = false
is_available StockCardStatus.disabled = false

abbrev pub is_locked : StockCardStatus → Bool
is_locked StockCardStatus.locked = true
is_locked StockCardStatus.available = false
is_locked StockCardStatus.sold = false
is_locked StockCardStatus.disabled = false

abbrev pub product_ids : List CreateOrderItem → List ℕ
product_ids [] = []
product_ids (i ∷ is) = i.product_id ∷ product_ids is

abbrev pub sellable : ℕ → List ℕ → ℕ → Product → Bool
sellable shop_id ids id p =
    includes ids id && p.shop_id == shop_id && is_online p.status && is_none p.deleted_at

abbrev pub over_limit : Option ℕ → ℕ → Bool
over_limit none n = false
over_limit (some limit) n = if limit == 0 then false else ltb limit n

-- The loop over `dto.items` that checks `purchaseLimit`.
unfoldable pub check_limits : List CreateOrderItem → Table Product → Action ⊤
check_limits [] products = pure tt
check_limits (i ∷ is) products = do
  p ← or_throw (find i.product_id products) failure
  throw_if (over_limit p.purchase_limit i.quantity) (bad_request limit_exceeded)
  check_limits is products

abbrev pub keys : {A : Type 0} → Table A → List ℕ
keys [] = []
keys ((k, a) ∷ t) = k ∷ keys t

abbrev pub in_stock : ℕ → ℕ → StockCard → Bool
in_stock product_id id c = c.product_id == product_id && is_available c.status

-- `SELECT id FROM stock_cards WHERE productId = … AND status = 'AVAILABLE' LIMIT … FOR UPDATE`
abbrev pub select_cards : ℕ → ℕ → Table StockCard → List ℕ
select_cards product_id n t = take n (keys (find_many (in_stock product_id) t))

abbrev pub set_locked : StockCard → StockCard
set_locked c = record c { status = StockCardStatus.locked }

abbrev pub lock_cards : List ℕ → Table StockCard → Table StockCard
lock_cards ids = update_many (λ id c. includes ids id) set_locked

abbrev pub order_row : CreateOrderItem → Product → OrderItem
order_row i p = record {
  product_id = i.product_id;
  unit_price = p.price;
  quantity = i.quantity;
  subtotal = scale p.price i.quantity;
}

-- One round of the loop in the transaction: the cards taken, and the row of the order.
unfoldable pub lock_item : CreateOrderItem → Table Product → Action (List ℕ × OrderItem)
lock_item i products = do
  p ← or_throw (find i.product_id products) failure
  ids ← gets (λ db. select_cards i.product_id i.quantity db.stock_cards)
  throw_if (ltb (length ids) i.quantity) (conflict no_stock)
  modify (λ db. record db { stock_cards = lock_cards ids db.stock_cards })
  pure (ids, order_row i p)

unfoldable pub lock_items : List CreateOrderItem → Table Product → Action (List ℕ × List OrderItem)
unfolding lock_item
lock_items [] products = pure ([], [])
lock_items (i ∷ is) products = do
  one ← lock_item i products
  rest ← lock_items is products
  pure (one.0 ++ rest.0, one.1 ∷ rest.1)

-- `totalAmount += subtotal`
abbrev pub order_total : List OrderItem → ℤ
order_total [] = pos 0
order_total (it ∷ its) = it.subtotal +ℤ order_total its

-- `order.create`: the primary key, `orderNo` and `idempotencyKey` are unique.
abbrev pub taken : ℕ → Order → ℕ → Order → Bool
taken id o j other =
    if j == id
    then true
    else if other.order_no == o.order_no
    then true
    else other.idempotency_key == o.idempotency_key

unfoldable pub insert_order : ℕ → Order → Action ⊤
insert_order id o = do
  clash ← gets (λ db. find_first (taken id o) db.orders)
  throw_if (if is_none clash then false else true) unique_violation
  modify (λ db. record db { orders = insert id o db.orders })

abbrev pub set_order_id : ℕ → StockCard → StockCard
set_order_id order_id c = record c { order_id = some order_id }

abbrev pub belongs_to : ℕ → ℕ → StockCard → Bool
belongs_to order_id id c = is_some_of c.order_id order_id

-- `stockCard.updateMany` with `orderId`, under the unique index `stock_cards_orderId_key`.
unfoldable pub link_cards : List ℕ → ℕ → Action ⊤
link_cards ids order_id = do
  modify (λ db. record db {
    stock_cards = update_many (λ id c. includes ids id) (set_order_id order_id) db.stock_cards;
  })
  throw_if (← gets (λ db. ltb 1 (count (belongs_to order_id) db.stock_cards))) unique_violation

pub record NewOrder : Type 0 where
  pub order_id : ℕ
  pub order_no : ℕ
  pub shop_id : ℕ
  pub merchant_id : ℕ

abbrev pub new_order : NewOrder → CreateOrder → List OrderItem → ℕ → Order
new_order n dto items now = record {
  order_no = n.order_no;
  shop_id = n.shop_id;
  buyer_email = dto.buyer_email;
  total_amount = order_total items;
  status = OrderStatus.pending;
  expire_at = now + order_ttl_ms;
  paid_at = none;
  delivered_at = none;
  viewed_at = none;
  idempotency_key = dto.idempotency_key;
  used_invite_code = dto.invite_code;
  merchant_id = some n.merchant_id;
  items = items;
}

-- The body of the transaction.
unfoldable pub place : NewOrder → CreateOrder → Table Product → ℕ → Action ℤ
unfolding lock_items insert_order link_cards
place n dto products now = do
  taken ← lock_items dto.items products
  insert_order n.order_id (new_order n dto taken.1 now)
  link_cards taken.0 n.order_id
  pure (order_total taken.1)

abbrev pub replay : ℕ × Order → OrderReply
replay (id, o) = record {
  order_id = id;
  order_no = o.order_no;
  status = o.status;
  total_amount = o.total_amount;
  expire_at = o.expire_at;
  idempotent_replay = true;
}

abbrev pub new_reply : ℕ → ℕ → ℤ → ℕ → OrderReply
new_reply order_id order_no amount now = record {
  order_id = order_id;
  order_no = order_no;
  status = OrderStatus.pending;
  total_amount = amount;
  expire_at = now + order_ttl_ms;
  idempotent_replay = false;
}

abbrev pub by_idempotency_key : ℕ → ℕ → Order → Bool
by_idempotency_key key id o = o.idempotency_key == key

-- The handler of the transaction's exceptions.
abbrev pub on_conflict : ℕ → Error → Action OrderReply
on_conflict key unique_violation = do
  again ← gets (λ db. find_first (by_idempotency_key key) db.orders)
  elim again [ none ↦ throw unique_violation | some row ↦ pure (replay row) ]
on_conflict key (bad_request w) = throw (bad_request w)
on_conflict key (not_found w) = throw (not_found w)
on_conflict key (Error.forbidden w) = throw (Error.forbidden w)
on_conflict key (conflict w) = throw (conflict w)
on_conflict key failure = throw failure

abbrev pub open_shop : ℕ → ℕ → Shop → Bool
open_shop code id s = s.code == code && s.is_online

-- `create` from the look-up of the shop on.
unfoldable pub create_new : ℕ → ℕ → CreateOrder → ℕ → ℕ → Action OrderReply
unfolding check_limits place record_pending
create_new order_id order_no dto ip now = do
  shop ←
      or_throw (← gets (λ db. find_first (open_shop dto.shop_code) db.shops))
        (not_found shop_missing)
  products ← gets (λ db. find_many (sellable shop.0 (product_ids dto.items)) db.products)
  throw_if (if length products == length dto.items then false else true) (not_found product_missing)
  check_limits dto.items products
  let n : NewOrder = record {
    order_id = order_id;
    order_no = order_no;
    shop_id = shop.0;
    merchant_id = shop.1.merchant_id;
  }
  catch
      (do
        amount ← transaction (place n dto products now)
        record_audit order_create order_id
        record_pending ip dto.buyer_email now
        pure (new_reply order_id order_no amount now))
      (on_conflict dto.idempotency_key)

unfoldable pub create : ℕ → ℕ → CreateOrder → ℕ → ℕ → Action OrderReply
unfolding create_new check_order
create order_id order_no dto ip now = do
  check_order ip dto.buyer_email now
  existing ← gets (λ db. find_first (by_idempotency_key dto.idempotency_key) db.orders)
  elim existing [ none ↦ create_new order_id order_no dto ip now | some row ↦ pure (replay row) ]
