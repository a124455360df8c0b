-- ===== src/Stock/Distinct.antt =====
-- The hashes of the cards of a product, through the steps of an import.
use winmelon_card.Base.{
  ℕ, suc, ◌≡◌, refl, sym, subst, inl, inr, Bool, false, ◌||◌, List, [], ◌∷◌, ◌++◌, ==_iff, arith,
  Bool-cases, Option-cases,
}
use winmelon_card.Base.Table.{Table, find, insert}
use winmelon_card.Schema.{StockCard}
use winmelon_card.Stock.{holds, is_stored, not_stored, create_cards}

-- No two cards of a product have the same hash.
abbrev pub IsDistinct : Table StockCard → Type 0
IsDistinct [] = Unit
IsDistinct ((id, c) ∷ t) = (is_stored c.product_id c.content_hash t ≡ false) × IsDistinct t

abbrev pub has_card : ℕ → ℕ → List StockCard → Bool
has_card p h [] = false
has_card p h (c ∷ cs) = holds p h 0 c || has_card p h cs

abbrev pub AreDistinct : List StockCard → Type 0
AreDistinct [] = Unit
AreDistinct (c ∷ cs) = (has_card c.product_id c.content_hash cs ≡ false) × AreDistinct cs

-- None of the cards is in the table.
abbrev pub AreMissing : List StockCard → Table StockCard → Type 0
AreMissing [] t = Unit
AreMissing (c ∷ cs) t = (is_stored c.product_id c.content_hash t ≡ false) × AreMissing cs t

pub has_card-snoc :
    (p h : ℕ) (xs : List StockCard) (c : StockCard)
    → has_card p h xs ≡ false
    → holds p h 0 c ≡ false
    → has_card p h (xs ++ c ∷ []) ≡ false
has_card-snoc p h [] c a b = ground arith
has_card-snoc p h (x ∷ xs) c a b = ground (arith, has_card-snoc p h xs c)

pub snoc-AreDistinct :
    (xs : List StockCard) (c : StockCard)
    → AreDistinct xs
    → has_card c.product_id c.content_hash xs ≡ false
    → AreDistinct (xs ++ c ∷ [])
snoc-AreDistinct [] c d new = (refl, tt)
snoc-AreDistinct (x ∷ xs) c (here, rest) new =
    let apart : holds x.product_id x.content_hash 0 c ≡ false = ground (
      arith,
      ==_iff x.product_id c.product_id,
      ==_iff x.content_hash c.content_hash,
      ==_iff c.product_id x.product_id,
      ==_iff c.content_hash x.content_hash,
    ) in
    (
      has_card-snoc x.product_id x.content_hash xs c here apart,
      snoc-AreDistinct xs c rest (ground arith),
    )

insert-AreMissing :
    (id : ℕ) (c : StockCard) (cs : List StockCard) (t : Table StockCard)
    → has_card c.product_id c.content_hash cs ≡ false
    → AreMissing cs t
    → AreMissing cs (insert id c t)
insert-AreMissing id c [] t new missing = tt
insert-AreMissing id c (d ∷ cs) t new (here, missing) =
    let still : is_stored d.product_id d.content_hash (insert id c t) ≡ false = ground (
      arith,
      ==_iff d.product_id c.product_id,
      ==_iff d.content_hash c.content_hash,
      ==_iff c.product_id d.product_id,
      ==_iff c.content_hash d.content_hash,
    ) in
    (still, insert-AreMissing id c cs t (ground arith) missing)

pub create_cards-IsDistinct :
    (fresh : ℕ → ℕ) (n : ℕ) (cs : List StockCard) (t : Table StockCard)
    → AreDistinct cs
    → AreMissing cs t
    → IsDistinct t
    → IsDistinct (create_cards fresh n cs t).table
create_cards-IsDistinct fresh n [] t d missing distinct = distinct
create_cards-IsDistinct fresh n (c ∷ cs) t (new, d) (here, missing) distinct =
    elim (Option-cases (find (fresh n) t)) [
      | inl e ↦
          let t' = insert (fresh n) c t in
          let same : (create_cards fresh n (c ∷ cs) t).table
              ≡ (create_cards fresh (suc n) cs t').table =
            ground arith in
          subst IsDistinct (sym same) (
            create_cards-IsDistinct fresh (suc n) cs t' d
              (insert-AreMissing (fresh n) c cs t new missing) (here, distinct))
      | inr (x, e) ↦
          let same : (create_cards fresh n (c ∷ cs) t).table
              ≡ (create_cards fresh (suc n) cs t).table =
            ground arith in
          subst IsDistinct (sym same)
            (create_cards-IsDistinct fresh (suc n) cs t d missing distinct)
    ]

has_card-not_stored :
    (p h : ℕ) (cs : List StockCard) (t : Table StockCard)
    → has_card p h cs ≡ false
    → has_card p h (not_stored cs t) ≡ false
has_card-not_stored p h [] t new = refl
has_card-not_stored p h (c ∷ cs) t new = ground (arith, has_card-not_stored p h cs t)

pub not_stored-AreDistinct :
    (cs : List StockCard) (t : Table StockCard) → AreDistinct cs → AreDistinct (not_stored cs t)
not_stored-AreDistinct [] t d = tt
not_stored-AreDistinct (c ∷ cs) t (new, d) =
    let rest = not_stored-AreDistinct cs t d in
    elim (Bool-cases (is_stored c.product_id c.content_hash t)) [
      | inl e ↦
          let same : not_stored (c ∷ cs) t ≡ not_stored cs t = ground arith in
          subst AreDistinct (sym same) rest
      | inr e ↦
          let same : not_stored (c ∷ cs) t ≡ c ∷ not_stored cs t = ground arith in
          subst AreDistinct (sym same)
            (has_card-not_stored c.product_id c.content_hash cs t new, rest)
    ]

pub not_stored-AreMissing :
    (cs : List StockCard) (t : Table StockCard) → AreMissing (not_stored cs t) t
not_stored-AreMissing [] t = tt
not_stored-AreMissing (c ∷ cs) t =
    let rest = not_stored-AreMissing cs t in
    elim (Bool-cases (is_stored c.product_id c.content_hash t)) [
      | inl e ↦
          let same : not_stored (c ∷ cs) t ≡ not_stored cs t = ground arith in
          subst (λ x. AreMissing x t) (sym same) rest
      | inr e ↦
          let same : not_stored (c ∷ cs) t ≡ c ∷ not_stored cs t = ground arith in
          subst (λ x. AreMissing x t) (sym same) (e, rest)
    ]
