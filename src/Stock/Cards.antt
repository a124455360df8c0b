-- ===== src/Stock/Cards.antt =====
-- apps/api/src/modules/stock/stock.service.ts: cards locked, deleted, shown and counted.
use winmelon_card.Base.{
  ℕ, ◌+◌, Bool, true, false, ◌&&◌, Option, none, some, List, [], ◌∷◌, ◌==◌, if◌then◌else◌, includes,
  not,
}
use winmelon_card.Base.Text.{Text}
use winmelon_card.Base.Table.{Table, find, find_many, update_many, delete_many, count}
use winmelon_card.Base.Result.{
  failure, not_found, conflict, forbidden, product_missing, row_missing, bad_status, foreign_card,
}
use winmelon_card.Schema.{Product, StockCard, StockCardStatus}
use winmelon_card.Schema.Store.{
  Store, stock_batch_lock, stock_batch_unlock, stock_batch_delete, stock_reveal, stock_delete,
}
use winmelon_card.Schema.Action.{
  Action, ⊤, pure, gets, or_throw, throw_if, modify, record_audit, ◌>>=◌, ◌>>◌,
}
use winmelon_card.Stock.{find_product, is_nil, is_own}

-- `where: { id: { in: cardIds } }`
abbrev pub listed : {A : Type 0} → List ℕ → ℕ → A → Bool
listed ids id a = includes ids id

-- `cards.map((c) => c.productId)`
abbrev pub product_ids : Table StockCard → List ℕ
product_ids [] = []
product_ids ((id, c) ∷ cs) = c.product_id ∷ product_ids cs

-- Of the products of the listed cards, those of the merchant, or those that are not.
abbrev pub products_of : List ℕ → Store → Table Product
products_of ids db =
    find_many (listed (product_ids (find_many (listed ids) db.stock_cards))) db.products

abbrev pub keys : {A : Type 0} → Table A → List ℕ
keys [] = []
keys ((k, a) ∷ t) = k ∷ keys t

abbrev pub foreign_to : Option ℕ → ℕ → Product → Bool
foreign_to merchant id p = if is_own merchant p then false else true

abbrev pub own_by : Option ℕ → ℕ → Product → Bool
own_by merchant id p = is_own merchant p

abbrev pub set_status : StockCardStatus → StockCard → StockCard
set_status s c = record c { status = s }

abbrev pub lock_status : Bool → StockCardStatus
lock_status true = StockCardStatus.disabled
lock_status false = StockCardStatus.available

-- `batchLock`
unfoldable pub batch_lock : Option ℕ → List ℕ → Bool → Action ℕ
batch_lock merchant [] lock = pure 0
batch_lock merchant (i ∷ is) lock = do
  cards ← gets (λ db. find_many (listed (i ∷ is)) db.stock_cards)
  products ← gets (products_of (i ∷ is))
  let foreign = find_many (foreign_to merchant) products
  elim cards [
    | [] ↦ pure 0
    | row ∷ rows ↦ do
      throw_if (not (is_nil foreign)) (forbidden foreign_card)
      updated ← gets (λ db. count (listed (i ∷ is)) db.stock_cards)
      modify (λ db. record db {
        stock_cards = update_many (listed (i ∷ is)) (set_status (lock_status lock)) db.stock_cards;
      })
      record_audit (if lock then stock_batch_lock else stock_batch_unlock) 0
      pure updated
  ]

abbrev pub is_available : StockCardStatus → Bool
is_available StockCardStatus.available = true
is_available _ = false

-- The `where` of `batchDelete`; the products are looked at for a merchant only.
abbrev pub to_delete : Option ℕ → List ℕ → Store → ℕ → StockCard → Bool
to_delete none ids db id c = includes ids id && is_available c.status
to_delete (some m) ids db id c =
    includes ids id
    && is_available c.status
    && includes (keys (find_many (own_by (some m)) (products_of ids db))) c.product_id

-- `batchDelete`
unfoldable pub batch_delete : Option ℕ → List ℕ → Action ℕ
batch_delete merchant [] = pure 0
batch_delete merchant (i ∷ is) = do
  chosen ← gets (to_delete merchant (i ∷ is))
  deleted ← gets (λ db. count chosen db.stock_cards)
  modify (λ db. record db { stock_cards = delete_many chosen db.stock_cards })
  record_audit stock_batch_delete 0
  pure deleted

-- A card with its product, if the merchant may see it.
abbrev pub find_card : Option ℕ → ℕ → Store → Option StockCard
find_card merchant id db = elim (find id db.stock_cards) [
  | none ↦ none
  | some c ↦ elim (find c.product_id db.products) [
    | none ↦ none
    | some p ↦ if is_own merchant p then some c else none
  ]
]

abbrev pub is_held : StockCardStatus → Bool
is_held StockCardStatus.sold = true
is_held StockCardStatus.locked = true
is_held _ = false

abbrev pub with_id : {A : Type 0} → ℕ → ℕ → A → Bool
with_id k id a = id == k

-- `delete`
unfoldable pub delete : Option ℕ → ℕ → Action ⊤
delete merchant id = do
  card ← or_throw (← gets (find_card merchant id)) (not_found row_missing)
  throw_if (is_held card.status) (conflict bad_status)
  modify (λ db. record db { stock_cards = delete_many (with_id id) db.stock_cards })
  record_audit stock_delete id

abbrev pub is_sold : StockCardStatus → Bool
is_sold StockCardStatus.sold = true
is_sold _ = false

-- `reveal`; `decrypt` may throw.
unfoldable pub reveal : (ℕ → Option Text) → Option ℕ → ℕ → Action (Text × StockCardStatus)
reveal decrypt merchant id = do
  card ← or_throw (← gets (find_card merchant id)) (not_found row_missing)
  throw_if (is_sold card.status) (conflict bad_status)
  content ← or_throw (decrypt card.ciphertext) failure
  record_audit stock_reveal id
  pure (content, card.status)

pub record Stats : Type 0 where
  pub available : ℕ
  pub locked : ℕ
  pub sold : ℕ
  pub disabled : ℕ
  pub all : ℕ

abbrev pub is_locked : StockCardStatus → Bool
is_locked StockCardStatus.locked = true
is_locked _ = false

abbrev pub is_disabled : StockCardStatus → Bool
is_disabled StockCardStatus.disabled = true
is_disabled _ = false

-- The size of one group of `groupBy`.
abbrev pub group_size : (StockCardStatus → Bool) → ℕ → Table StockCard → ℕ
group_size p product_id cards = count (λ id c. c.product_id == product_id && p c.status) cards

abbrev pub stats_of : ℕ → Table StockCard → Stats
stats_of product_id cards =
    let available = group_size is_available product_id cards in
    let locked = group_size is_locked product_id cards in
    let sold = group_size is_sold product_id cards in
    let disabled = group_size is_disabled product_id cards in
    record {
      available = available;
      locked = locked;
      sold = sold;
      disabled = disabled;
      all = available + locked + sold + disabled;
    }

-- `stats`
unfoldable pub stats : Option ℕ → ℕ → Action Stats
stats merchant product_id = do
  product ← or_throw (← gets (find_product merchant product_id)) (forbidden product_missing)
  gets (λ db. stats_of product_id db.stock_cards)
