-- ===== src/Stock.antt =====
-- apps/api/src/modules/stock/stock.service.ts: the cards of a merchant. The hash, the cipher, the
-- identifiers of new rows, the rows of an Excel sheet, and whether the database refuses to create
-- many rows at once are arguments. An audit entry without a resource has the number 0.
pub mod Cards
pub mod Distinct
pub mod Imported
pub mod Unique
pub mod Removal
pub mod Unlock
mod Tests
use winmelon_card.Base.{
  ℕ, suc, ◌+◌, ◌-◌, Bool, true, false, ◌&&◌, Option, none, some, List, [], ◌∷◌, ◌++◌, ◌==◌, ltb,
  if◌then◌else◌, is_none, includes, length, take, map, not,
}
use winmelon_card.Base.Text.{Text, trim, is_empty}
use winmelon_card.Base.Table.{Table, find, find_many, insert, update_many, delete_many, count}
use winmelon_card.Base.Result.{
  failure, not_found, conflict, forbidden, product_missing, row_missing, empty_csv, too_many_rows,
  bad_status, foreign_card,
}
use winmelon_card.Schema.{Product, StockCard, StockCardStatus}
use winmelon_card.Schema.Store.{
  Store, stock_import, stock_import_excel, stock_batch_lock, stock_batch_unlock, stock_batch_delete,
  stock_reveal, stock_delete,
}
use winmelon_card.Schema.Action.{
  Action, ⊤, pure, gets, or_throw, throw_if, modify, record_audit, ◌>>=◌, ◌>>◌,
}
use winmelon_card.Csv.{parse_csv}

abbrev pub max_import_rows : ℕ
max_import_rows = 5000

abbrev pub max_card_length : ℕ
max_card_length = 4096

pub record ImportResult : Type 0 where
  pub imported : ℕ
  pub duplicated : ℕ
  pub failed : ℕ
  pub errors : List ℕ

-- `merchantId` is undefined for the platform.
abbrev pub is_own : Option ℕ → Product → Bool
is_own none p = true
is_own (some m) p = p.merchant_id == m

-- `where: { id, deletedAt: null, merchantId }`
abbrev pub find_product : Option ℕ → ℕ → Store → Option Product
find_product merchant id db = elim (find id db.products) [
  | none ↦ none
  | some p ↦ if is_none p.deleted_at && is_own merchant p then some p else none
]

-- The variables of the import's loop: `seen`, `toCreate`, `duplicated`, and the numbers of the lines
-- in `errors`.
pub record Batch : Type 0 where
  pub seen : List ℕ
  pub to_create : List StockCard
  pub duplicated : ℕ
  pub errors : List ℕ

abbrev pub empty_batch : Batch
empty_batch = record { seen = []; to_create = []; duplicated = 0; errors = [] }

abbrev pub new_card : ℕ → ℕ → ℕ → StockCard
new_card product_id hash ciphertext = record {
  product_id = product_id;
  ciphertext = ciphertext;
  content_hash = hash;
  status = StockCardStatus.available;
  order_id = none;
  sold_at = none;
}

abbrev pub holds : ℕ → ℕ → ℕ → StockCard → Bool
holds product_id hash id c = c.product_id == product_id && c.content_hash == hash

-- `existingSet.has`, of the cards of the product.
abbrev pub is_stored : ℕ → ℕ → Table StockCard → Bool
is_stored product_id hash [] = false
is_stored product_id hash ((id, c) ∷ cs) =
    if holds product_id hash id c then true else is_stored product_id hash cs

-- `toCreate.filter`
abbrev pub not_stored : List StockCard → Table StockCard → List StockCard
not_stored [] t = []
not_stored (c ∷ cs) t =
    let rest = not_stored cs t in if is_stored c.product_id c.content_hash t then rest else c ∷ rest

-- What became of new rows: how many were written, how many the primary key refused.
pub record Written : Type 0 where
  pub imported : ℕ
  pub refused : ℕ
  pub table : Table StockCard

-- `createMany` with `skipDuplicates`, and the loop of `create` that stands in for it.
abbrev pub create_cards : (ℕ → ℕ) → ℕ → List StockCard → Table StockCard → Written
create_cards fresh n [] t = record { imported = 0; refused = 0; table = t }
create_cards fresh n (c ∷ cs) t = elim (find (fresh n) t) [
  | none ↦
      let rest = create_cards fresh (suc n) cs (insert (fresh n) c t) in
      record rest { imported = suc rest.imported }
  | some d ↦
      let rest = create_cards fresh (suc n) cs t in record rest { refused = suc rest.refused }
]

-- A row that the primary key refuses counts as a duplicate in the loop only.
abbrev pub refused_by : Bool → Written → ℕ
refused_by true w = w.refused
refused_by false w = 0

module _ (sha256 : Text → ℕ) (encrypt : Text → Option ℕ) where
  -- One turn of the loop over the lines of a CSV text; `none` where `encrypt` throws.
  abbrev pub take_line : ℕ → ℕ → Text → Batch → Option Batch
  take_line product_id n raw b =
      let content = trim raw in
      if is_empty content
      then some b
      else if ltb max_card_length (length content)
      then some (record b { errors = b.errors ++ n ∷ [] })
      else if includes b.seen (sha256 content)
      then some (record b { duplicated = suc b.duplicated })
      else elim (encrypt content) [
        | none ↦ none
        | some ciphertext ↦ some (record b {
          seen = sha256 content ∷ b.seen;
          to_create = b.to_create ++ new_card product_id (sha256 content) ciphertext ∷ [];
        })
      ]

  abbrev pub take_lines : ℕ → ℕ → List Text → Batch → Option Batch
  take_lines product_id n [] b = some b
  take_lines product_id n (raw ∷ ls) b = elim (take_line product_id n raw b) [
    | none ↦ none
    | some b' ↦ take_lines product_id (suc n) ls b'
  ]

  -- One row of an Excel sheet: its number and the text of its first cell.
  abbrev pub take_row : ℕ → ℕ × Text → Batch → Batch
  take_row product_id (n, raw) b =
      let content = trim raw in
      if n == 1
      then b
      else if is_empty content
      then b
      else if ltb max_card_length (length content)
      then record b { errors = b.errors ++ n ∷ [] }
      else if includes b.seen (sha256 content)
      then record b { duplicated = suc b.duplicated }
      else elim (encrypt content) [
        | none ↦ record b { seen = sha256 content ∷ b.seen; errors = b.errors ++ n ∷ [] }
        | some ciphertext ↦ record b {
          seen = sha256 content ∷ b.seen;
          to_create = b.to_create ++ new_card product_id (sha256 content) ciphertext ∷ [];
        }
      ]

  abbrev pub take_rows : ℕ → List (ℕ × Text) → Batch → Batch
  take_rows product_id [] b = b
  take_rows product_id (r ∷ rs) b = take_rows product_id rs (take_row product_id r b)

-- The result of a batch whose rows are written.
abbrev pub result_of : Batch → ℕ → ℕ → ImportResult
result_of b imported duplicated = record {
  imported = imported;
  duplicated = duplicated;
  failed = length b.errors;
  errors = take 20 b.errors;
}

-- The rows of a batch that the product does not have yet, and their number.
abbrev pub final_create : Batch → Store → List StockCard
final_create b db = not_stored b.to_create db.stock_cards

abbrev pub skipped : Batch → Store → ℕ
skipped b db = length b.to_create - length (final_create b db)

-- The end of `import`. `broken` says that `createMany` throws, and the rows are created one by one.
unfoldable pub store_batch : Bool → (ℕ → ℕ) → ℕ → Batch → Action ImportResult
store_batch broken fresh product_id b = do
  cs ← gets (final_create b)
  skip ← gets (skipped b)
  written ← gets (λ db. create_cards fresh 0 cs db.stock_cards)
  modify (λ db. record db { stock_cards = written.table })
  record_audit stock_import product_id
  pure (result_of b written.imported (b.duplicated + skip + refused_by broken written))

-- The end of `importFromExcel`, where a failure of `createMany` is one error more.
unfoldable pub store_rows : Bool → (ℕ → ℕ) → ℕ → Batch → Action ImportResult
store_rows broken fresh product_id b = do
  cs ← gets (final_create b)
  skip ← gets (skipped b)
  written ← gets (λ db. create_cards fresh 0 cs db.stock_cards)
  let fails = broken && (if length cs == 0 then false else true)
  modify (λ db. if fails then db else record db { stock_cards = written.table })
  record_audit stock_import_excel product_id
  pure (
      if fails
      then result_of (record b { errors = b.errors ++ 0 ∷ [] }) 0 (b.duplicated + skip)
      else result_of b written.imported (b.duplicated + skip))

abbrev pub is_nil {ℓ} : {A : Type ℓ} → List A → Bool
is_nil [] = true
is_nil (x ∷ xs) = false

module _ (sha256 : Text → ℕ) (encrypt : Text → Option ℕ) (broken : Bool) (fresh : ℕ → ℕ) where
  -- `import`
  unfoldable pub import_csv : Option ℕ → ℕ → Text → Action ImportResult
  unfolding store_batch
  import_csv merchant product_id csv_content = do
    product ← or_throw (← gets (find_product merchant product_id)) (not_found product_missing)
    let lines = parse_csv csv_content
    throw_if (is_nil lines) (conflict empty_csv)
    throw_if (ltb max_import_rows (length lines)) (conflict too_many_rows)
    b ← or_throw (take_lines sha256 encrypt product_id 1 lines empty_batch) failure
    if is_nil b.to_create
        then pure (result_of b 0 b.duplicated)
        else store_batch broken fresh product_id b

  -- `importFromExcel`, on the rows of the first sheet, if there is one.
  unfoldable pub import_from_excel : Option ℕ → ℕ → Option (List (ℕ × Text)) → Action ImportResult
  unfolding store_rows
  import_from_excel merchant product_id sheet = do
    product ← or_throw (← gets (find_product merchant product_id)) (not_found product_missing)
    rows ← or_throw sheet (conflict empty_csv)
    let b = take_rows sha256 encrypt product_id rows empty_batch
    if is_nil b.to_create
        then pure (result_of b 0 b.duplicated)
        else store_rows broken fresh product_id b
