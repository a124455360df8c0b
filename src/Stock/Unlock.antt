-- ===== src/Stock/Unlock.antt =====
-- Cards that are locked and unlocked.
use winmelon_card.Base.{
  ℕ, ◌≡◌, refl, sym, ◌∙◌, ap, ◌⊎◌, inl, inr, Bool, true, false, if◌then◌else◌, Option, none, some,
  List, [], ◌∷◌, ◌==◌, ==_iff, includes, arith, Bool-cases,
}
use winmelon_card.Base.Table.{Table, find, find_many, update_many, delete_many}
use winmelon_card.Base.Result.{ok}
use winmelon_card.Schema.{StockCard, StockCardStatus}
use winmelon_card.Schema.Store.{Store}
use winmelon_card.Stock.{is_nil}
use winmelon_card.Stock.Cards.{
  batch_delete, to_delete, batch_lock, listed, set_status, lock_status, foreign_to, products_of,
}

rows_cases :
    (t : Table StockCard)
    → (t ≡ []) ⊎ ((row : ℕ × StockCard) × (rows : Table StockCard) × (t ≡ row ∷ rows))
rows_cases [] = inl refl
rows_cases (row ∷ rows) = inr (row, rows, refl)

find_many-some :
    (k : ℕ) (p : ℕ → StockCard → Bool) (t : Table StockCard) (c : StockCard)
    → find k t ≡ some c
    → p k c ≡ true
    → is_nil (find_many p t) ≡ false
find_many-some k p [] c here chosen = absurd (ground arith)
find_many-some k p ((j, d) ∷ t) c here chosen = elim (Bool-cases (p j d)) [
  | inl e ↦ ground arith
  | inr e ↦ elim (Bool-cases (j == k)) [
    | inl f ↦ absurd (ground (arith, ==_iff j k))
    | inr f ↦ ground (arith, find_many-some k p t c (ground arith) chosen)
  ]
]

delete_many-update_many :
    (k : ℕ) (ids : List ℕ) (db : Store) (t : Table StockCard)
    → includes ids k ≡ true
    → find k (
        delete_many
          (to_delete none ids db)
          (update_many (listed ids) (set_status StockCardStatus.available) t))
      ≡ none
delete_many-update_many k ids db [] mine = refl
delete_many-update_many k ids db ((j, c) ∷ t) mine =
    let rest = delete_many-update_many k ids db t mine in
    let after = update_many (listed ids) (set_status StockCardStatus.available) t in
    let row = if includes ids j then set_status StockCardStatus.available c else c in
    elim (Bool-cases (j == k)) [
      | inl e ↦ let same : includes ids j ≡ true = ground (arith, ==_iff j k) in ground arith
      | inr e ↦ elim (Bool-cases (to_delete none ids db j row)) [
        | inl f ↦ ground arith
        | inr f ↦ ground arith
      ]
    ]

-- The cards that an accepted call of batchLock leaves.
batch_lock-cards :
    (merchant : Option ℕ) (ids : List ℕ) (lock : Bool) (id n : ℕ) (db : Store) (c : StockCard)
    → (batch_lock merchant ids lock db).0 ≡ ok n
    → includes ids id ≡ true
    → find id db.stock_cards ≡ some c
    → (batch_lock merchant ids lock db).1.stock_cards
      ≡ update_many (listed ids) (set_status (lock_status lock)) db.stock_cards
unfolding batch_lock
batch_lock-cards merchant [] lock id n db c done mine here = absurd (ground arith)
batch_lock-cards merchant (i ∷ is) lock id n db c done mine here =
    let cards = find_many (listed (i ∷ is)) db.stock_cards in
    let foreign = find_many (foreign_to merchant) (products_of (i ∷ is) db) in
    elim (rows_cases cards) [
      | inl e ↦
          absurd (ground (arith, find_many-some id (listed (i ∷ is)) db.stock_cards c here mine))
      | inr (row, rows, e) ↦ elim (Bool-cases (is_nil foreign)) [
        | inr f ↦ absurd (ground arith)
        | inl f ↦ ground arith
      ]
    ]

delete_many-none : (db : Store) (t : Table StockCard) → delete_many (to_delete none [] db) t ≡ t
delete_many-none db [] = refl
delete_many-none db ((j, c) ∷ t) = ap (λ x. (j, c) ∷ x) (delete_many-none db t)

batch_delete-cards :
    (ids : List ℕ) (db : Store)
    → (batch_delete none ids db).1.stock_cards ≡ delete_many (to_delete none ids db) db.stock_cards
unfolding batch_delete
batch_delete-cards [] db = sym (delete_many-none db db.stock_cards)
batch_delete-cards (i ∷ is) db = refl

-- A card in any status, a SOLD one of an order too, is deleted by two calls: an unlocking batchLock
-- that goes through, of any merchant or of the platform, and then the platform's batchDelete, both of
-- the same list with the card.
pub batch_delete-batch_lock :
    (merchant : Option ℕ) (ids : List ℕ) (id n : ℕ) (db : Store) (c : StockCard)
    → (batch_lock merchant ids false db).0 ≡ ok n
    → includes ids id ≡ true
    → find id db.stock_cards ≡ some c
    → find id (batch_delete none ids (batch_lock merchant ids false db).1).1.stock_cards ≡ none
batch_delete-batch_lock merchant ids id n db c done mine here =
    let db' = (batch_lock merchant ids false db).1 in
    ap (find id) (batch_delete-cards ids db')
    ∙ ap (λ t. find id (delete_many (to_delete none ids db') t))
        (batch_lock-cards merchant ids false id n db c done mine here)
    ∙ delete_many-update_many id ids db' db.stock_cards mine
