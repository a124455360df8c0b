-- ===== src/Stock/Unique.antt =====
-- Any number of imports, from CSV texts and from Excel sheets.
use winmelon_card.Base.{
  ℕ, ◌≡◌, sym, subst, ◌⊎◌, inl, inr, Bool, true, false, ◌&&◌, Option, some, List, [], ◌∷◌, ◌==◌,
  ltb, if◌then◌else◌, length, arith, Bool-cases, Option-cases,
}
use winmelon_card.Base.Text.{Text}
use winmelon_card.Base.Table.{Table}
use winmelon_card.Schema.{StockCard}
use winmelon_card.Schema.Store.{Store}
use winmelon_card.Csv.{parse_csv}
use winmelon_card.Stock.{
  Batch, empty_batch, not_stored, create_cards, take_lines, take_rows, final_create, store_batch,
  store_rows, import_csv, import_from_excel, is_nil, find_product, max_import_rows,
}
use winmelon_card.Stock.Distinct.{
  IsDistinct, create_cards-IsDistinct, not_stored-AreDistinct, not_stored-AreMissing,
}
use winmelon_card.Stock.Imported.{
  IsBatch, HasBatch, empty_batch-IsBatch, take_lines-IsBatch, take_rows-IsBatch,
}

-- The table that a batch leaves.
abbrev pub stored : (ℕ → ℕ) → Batch → Table StockCard → Table StockCard
stored fresh b t = (create_cards fresh 0 (not_stored b.to_create t) t).table

stored-IsDistinct :
    (fresh : ℕ → ℕ) (product_id : ℕ) (b : Batch) (t : Table StockCard)
    → IsBatch product_id b
    → IsDistinct t
    → IsDistinct (stored fresh b t)
stored-IsDistinct fresh product_id b t is distinct =
    create_cards-IsDistinct fresh 0 (not_stored b.to_create t) t
      (not_stored-AreDistinct b.to_create t is.distinct) (not_stored-AreMissing b.to_create t)
      distinct

module _ (sha256 : Text → ℕ) (encrypt : Text → Option ℕ) (broken : Bool) (fresh : ℕ → ℕ) where
  -- A call of import writes what its loop has collected, or nothing.
  import_csv-left :
      (merchant : Option ℕ) (product_id : ℕ) (csv : Text) (db : Store)
      → ((import_csv sha256 encrypt broken fresh merchant product_id csv db).1.stock_cards
          ≡ db.stock_cards)
        ⊎ ((b : Batch) × (take_lines sha256 encrypt product_id 1 (parse_csv csv) empty_batch
              ≡ some b)
            × ((import_csv sha256 encrypt broken fresh merchant product_id csv db).1.stock_cards
                ≡ stored fresh b db.stock_cards))
  unfolding import_csv store_batch
  import_csv-left merchant product_id csv db =
      let lines = parse_csv csv in
      let loop = take_lines sha256 encrypt product_id 1 lines empty_batch in
      elim (Option-cases (find_product merchant product_id db)) [
        | inl e ↦ inl (ground arith)
        | inr (p, e) ↦ elim (Bool-cases (is_nil lines)) [
          | inl f ↦ inl (ground arith)
          | inr f ↦ elim (Bool-cases (ltb max_import_rows (length lines))) [
            | inl g ↦ inl (ground arith)
            | inr g ↦ elim (Option-cases loop) [
              | inl thrown ↦ inl (ground arith)
              | inr (b, done) ↦ elim (Bool-cases (is_nil b.to_create)) [
                | inl h ↦ inl (ground arith)
                | inr h ↦ inr (b, done, ground arith)
              ]
            ]
          ]
        ]
      ]

  import_from_excel-left :
      (merchant : Option ℕ) (product_id : ℕ) (sheet : Option (List (ℕ × Text))) (db : Store)
      → ((import_from_excel sha256 encrypt broken fresh merchant product_id sheet db).1.stock_cards
          ≡ db.stock_cards)
        ⊎ ((rows : List (ℕ × Text)) × ((import_from_excel sha256 encrypt broken fresh merchant
                product_id sheet db).1.stock_cards
              ≡ stored fresh (take_rows sha256 encrypt product_id rows empty_batch) db.stock_cards))
  unfolding import_from_excel store_rows
  import_from_excel-left merchant product_id sheet db =
      elim (Option-cases (find_product merchant product_id db)) [
        | inl e ↦ inl (ground arith)
        | inr (p, e) ↦ elim (Option-cases sheet) [
          | inl f ↦ inl (ground arith)
          | inr (rows, f) ↦
              let b = take_rows sha256 encrypt product_id rows empty_batch in
              elim (Bool-cases (is_nil b.to_create)) [
                | inl h ↦ inl (ground arith)
                | inr h ↦
                    elim (Bool-cases
                      (broken && (if length (final_create b db) == 0 then false else true))) [
                        | inl k ↦ inl (ground arith)
                        | inr k ↦ inr (rows, ground arith)
                      ]
              ]
        ]
      ]

  import_csv-IsDistinct :
      (merchant : Option ℕ) (product_id : ℕ) (csv : Text) (db : Store)
      → IsDistinct db.stock_cards
      → IsDistinct (import_csv sha256 encrypt broken fresh merchant product_id csv db).1.stock_cards
  import_csv-IsDistinct merchant product_id csv db distinct =
      let loop =
        take_lines-IsBatch sha256 encrypt product_id 1 (parse_csv csv) empty_batch
          (empty_batch-IsBatch product_id) in
      elim (import_csv-left merchant product_id csv db) [
        | inl same ↦ subst IsDistinct (sym same) distinct
        | inr (b, done, same) ↦ subst IsDistinct (sym same) (
            stored-IsDistinct fresh product_id b db.stock_cards
              (subst (HasBatch product_id) done loop) distinct)
      ]

  import_from_excel-IsDistinct :
      (merchant : Option ℕ) (product_id : ℕ) (sheet : Option (List (ℕ × Text))) (db : Store)
      → IsDistinct db.stock_cards
      → IsDistinct
          (import_from_excel sha256 encrypt broken fresh merchant product_id sheet db).1.stock_cards
  import_from_excel-IsDistinct merchant product_id sheet db distinct =
      elim (import_from_excel-left merchant product_id sheet db) [
        | inl same ↦ subst IsDistinct (sym same) distinct
        | inr (rows, same) ↦
            let b = take_rows sha256 encrypt product_id rows empty_batch in
            let is =
              take_rows-IsBatch sha256 encrypt product_id rows empty_batch
                (empty_batch-IsBatch product_id) in
            subst IsDistinct (sym same)
              (stored-IsDistinct fresh product_id b db.stock_cards is distinct)
      ]

-- The calls that add cards. Each says whether the database refuses to create many rows at once, and
-- has the identifiers of its new rows.
pub data Import : Type 0 where
  from_csv : Bool → (ℕ → ℕ) → Option ℕ → ℕ → Text → Import
  from_excel : Bool → (ℕ → ℕ) → Option ℕ → ℕ → Option (List (ℕ × Text)) → Import

module _ (sha256 : Text → ℕ) (encrypt : Text → Option ℕ) where
  abbrev pub import_one : Import → Store → Store
  import_one (Import.from_csv broken fresh merchant product_id csv) db =
      (import_csv sha256 encrypt broken fresh merchant product_id csv db).1
  import_one (Import.from_excel broken fresh merchant product_id sheet) db =
      (import_from_excel sha256 encrypt broken fresh merchant product_id sheet db).1

  abbrev pub import_all : List Import → Store → Store
  import_all [] db = db
  import_all (i ∷ is) db = import_all is (import_one i db)

  -- If no two cards of a product have the same hash, none have after any number of imports, from
  -- CSV texts or Excel sheets, for any merchants and products, whichever of them fail.
  pub import_all-IsDistinct :
      (is : List Import) (db : Store)
      → IsDistinct db.stock_cards
      → IsDistinct (import_all is db).stock_cards
  import_all-IsDistinct [] db distinct = distinct
  import_all-IsDistinct (Import.from_csv broken fresh merchant product_id csv ∷ is) db distinct =
      import_all-IsDistinct is (import_csv sha256 encrypt broken fresh merchant product_id csv db).1
        (import_csv-IsDistinct sha256 encrypt broken fresh merchant product_id csv db distinct)
  import_all-IsDistinct (Import.from_excel broken fresh merchant product_id sheet ∷ is) db
        distinct =
      import_all-IsDistinct is
        (import_from_excel sha256 encrypt broken fresh merchant product_id sheet db).1
        (import_from_excel-IsDistinct sha256 encrypt broken fresh merchant product_id sheet db
          distinct)
