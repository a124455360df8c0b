-- ===== src/Stock/Removal.antt =====
-- What deleting and locking do to the cards of orders.
use winmelon_card.Base.{
  ℕ, ◌≡◌, refl, sym, inl, inr, Bool, true, false, Option, none, some, List, [], ◌∷◌, ◌==◌, ==_iff,
  arith, Bool-cases, Option-cases,
}
use winmelon_card.Base.Table.{Table, find, delete_many}
use winmelon_card.Schema.{StockCard, StockCardStatus}
use winmelon_card.Schema.Store.{Store}
use winmelon_card.Stock.{is_own}
use winmelon_card.Stock.Cards.{
  batch_delete, delete, to_delete, with_id, find_card, is_held, is_available,
}

find-delete_many :
    (k : ℕ) (p : ℕ → StockCard → Bool) (t : Table StockCard) (c : StockCard)
    → find k t ≡ some c
    → p k c ≡ false
    → find k (delete_many p t) ≡ some c
find-delete_many k p [] c h keep = absurd (ground arith)
find-delete_many k p ((j, d) ∷ t) c h keep = elim (Bool-cases (j == k)) [
  | inl e ↦ let same : p j d ≡ false = ground (arith, ==_iff j k) in ground arith
  | inr e ↦
      let rest = find-delete_many k p t c (ground arith) keep in
      elim (Bool-cases (p j d)) [ inl f ↦ ground arith | inr f ↦ ground arith ]
]

find_card-find :
    (merchant : Option ℕ) (id : ℕ) (db : Store) (c : StockCard)
    → find_card merchant id db ≡ some c
    → find id db.stock_cards ≡ some c
find_card-find merchant id db c h = elim (Option-cases (find id db.stock_cards)) [
  | inl e ↦ absurd (ground arith)
  | inr (d, e) ↦ elim (Option-cases (find d.product_id db.products)) [
    | inl f ↦ absurd (ground arith)
    | inr (p, f) ↦ elim (Bool-cases (is_own merchant p)) [
      | inl g ↦ ground arith
      | inr g ↦ absurd (ground arith)
    ]
  ]
]

-- The calls that delete cards.
pub data Removal : Type 0 where
  one : Option ℕ → ℕ → Removal
  many : Option ℕ → List ℕ → Removal

abbrev pub remove : Removal → Store → Store
remove (Removal.one merchant id) db = (delete merchant id db).1
remove (Removal.many merchant ids) db = (batch_delete merchant ids db).1

abbrev pub remove_all : List Removal → Store → Store
remove_all [] db = db
remove_all (r ∷ rs) db = remove_all rs (remove r db)

held-available : (s : StockCardStatus) → is_held s ≡ true → is_available s ≡ false
held-available StockCardStatus.available h = sym h
held-available StockCardStatus.locked h = refl
held-available StockCardStatus.sold h = refl
held-available StockCardStatus.disabled h = refl

to_delete-held :
    (merchant : Option ℕ) (ids : List ℕ) (db : Store) (k : ℕ) (c : StockCard)
    → is_held c.status ≡ true
    → to_delete merchant ids db k c ≡ false
to_delete-held none ids db k c held = ground (arith, held-available c.status held)
to_delete-held (some m) ids db k c held = ground (arith, held-available c.status held)

delete-held :
    (merchant : Option ℕ) (id k : ℕ) (db : Store) (c : StockCard)
    → find k db.stock_cards ≡ some c
    → is_held c.status ≡ true
    → find k (delete merchant id db).1.stock_cards ≡ some c
unfolding delete
delete-held merchant id k db c here held = elim (Option-cases (find_card merchant id db)) [
  | inl none_found ↦ ground arith
  | inr (d, found) ↦ elim (Bool-cases (is_held d.status)) [
    | inl refused ↦ ground arith
    | inr free ↦
        let shown : find id db.stock_cards ≡ some d = find_card-find merchant id db d found in
        let other : with_id id k c ≡ false = elim (Bool-cases (k == id)) [
          | inl e ↦ absurd (ground (arith, ==_iff k id))
          | inr e ↦ e
        ] in
        ground (arith, find-delete_many k (with_id id) db.stock_cards c here other)
  ]
]

batch_delete-held :
    (merchant : Option ℕ) (ids : List ℕ) (k : ℕ) (db : Store) (c : StockCard)
    → find k db.stock_cards ≡ some c
    → is_held c.status ≡ true
    → find k (batch_delete merchant ids db).1.stock_cards ≡ some c
unfolding batch_delete
batch_delete-held merchant [] k db c here held = here
batch_delete-held merchant (i ∷ is) k db c here held =
    find-delete_many k (to_delete merchant (i ∷ is) db) db.stock_cards c here
      (to_delete-held merchant (i ∷ is) db k c held)

-- A card that is SOLD or LOCKED is kept as it is by any calls of delete and of batchDelete, for any
-- merchants or for the platform and for any cards.
pub remove_all-held :
    (rs : List Removal) (k : ℕ) (db : Store) (c : StockCard)
    → find k db.stock_cards ≡ some c
    → is_held c.status ≡ true
    → find k (remove_all rs db).stock_cards ≡ some c
remove_all-held [] k db c here held = here
remove_all-held (Removal.one merchant id ∷ rs) k db c here held =
    remove_all-held rs k (delete merchant id db).1 c (delete-held merchant id k db c here held) held
remove_all-held (Removal.many merchant ids ∷ rs) k db c here held =
    remove_all-held rs k (batch_delete merchant ids db).1 c
      (batch_delete-held merchant ids k db c here held) held
