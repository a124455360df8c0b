-- ===== src/Stock/Imported.antt =====
-- The loop of an import.
use winmelon_card.Base.{
  ℕ, suc, ◌≡◌, refl, sym, ◌∙◌, ap, subst, inl, inr, false, ◌||◌, Option, none, some, List, [], ◌∷◌,
  ◌++◌, ◌==◌, ltb, includes, length, arith, Bool-cases, Option-cases,
}
use winmelon_card.Base.Text.{Text, trim, is_empty}
use winmelon_card.Stock.{Batch, empty_batch, new_card, take_line, take_lines, take_row, take_rows}
use winmelon_card.Stock.Distinct.{has_card, AreDistinct, snoc-AreDistinct, has_card-snoc}

-- The loop has seen what it has collected, and has collected nothing twice.
pub record IsBatch (product_id : ℕ) (b : Batch) : Type 0 where
  pub distinct : AreDistinct b.to_create
  pub seen : (h : ℕ) → includes b.seen h ≡ false → has_card product_id h b.to_create ≡ false

pub empty_batch-IsBatch : (product_id : ℕ) → IsBatch product_id empty_batch
empty_batch-IsBatch product_id = record { distinct = tt; seen = λ h no. refl }

-- `none` stands for a loop that threw.
abbrev pub HasBatch : ℕ → Option Batch → Type 0
HasBatch product_id none = Unit
HasBatch product_id (some b) = IsBatch product_id b

abbrev pub added : ℕ → ℕ → ℕ → Batch → Batch
added product_id h ciphertext b = record b {
  seen = h ∷ b.seen;
  to_create = b.to_create ++ new_card product_id h ciphertext ∷ [];
}

added-IsBatch :
    (product_id h ciphertext : ℕ) (b : Batch)
    → includes b.seen h ≡ false
    → IsBatch product_id b
    → IsBatch product_id (added product_id h ciphertext b)
added-IsBatch product_id h ciphertext b new is = record {
  distinct =
      snoc-AreDistinct b.to_create (new_card product_id h ciphertext) is.distinct (is.seen h new);
  seen = λ g unseen.
      let before = is.seen g (ground arith) in
      has_card-snoc product_id g b.to_create (new_card product_id h ciphertext) before
        (ground arith);
}

seen-IsBatch :
    (product_id h : ℕ) (b b' : Batch)
    → b'.to_create ≡ b.to_create
    → b'.seen ≡ h ∷ b.seen
    → IsBatch product_id b
    → IsBatch product_id b'
seen-IsBatch product_id h b b' same more is = record {
  distinct = subst AreDistinct (sym same) is.distinct;
  seen =
      λ g unseen. let before = is.seen g (ground arith) in ap (has_card product_id g) same ∙ before;
}

same-IsBatch :
    (product_id : ℕ) (b b' : Batch)
    → b'.to_create ≡ b.to_create
    → b'.seen ≡ b.seen
    → IsBatch product_id b
    → IsBatch product_id b'
same-IsBatch product_id b b' same more is = record {
  distinct = subst AreDistinct (sym same) is.distinct;
  seen = λ g unseen. ap (has_card product_id g) same ∙ is.seen g (ground arith);
}

module _ (sha256 : Text → ℕ) (encrypt : Text → Option ℕ) (product_id : ℕ) where
  take_line-IsBatch :
      (n : ℕ) (raw : Text) (b : Batch)
      → IsBatch product_id b
      → HasBatch product_id (take_line sha256 encrypt product_id n raw b)
  take_line-IsBatch n raw b is =
      let content = trim raw in
      let line = take_line sha256 encrypt product_id n raw b in
      elim (Bool-cases (is_empty content)) [
        | inl e ↦
            let same : line ≡ some b = ground arith in subst (HasBatch product_id) (sym same) is
        | inr e ↦ elim (Bool-cases (ltb 4096 (length content))) [
          | inl f ↦
              let same : line ≡ some (record b { errors = b.errors ++ n ∷ [] }) = ground arith in
              subst (HasBatch product_id) (sym same)
                (same-IsBatch product_id b (record b { errors = b.errors ++ n ∷ [] }) refl refl is)
          | inr f ↦ elim (Bool-cases (includes b.seen (sha256 content))) [
            | inl g ↦
                let same : line ≡ some (record b { duplicated = suc b.duplicated }) =
                  ground arith in
                subst (HasBatch product_id) (sym same) (
                  same-IsBatch product_id b (record b { duplicated = suc b.duplicated }) refl refl
                    is)
            | inr g ↦ elim (Option-cases (encrypt content)) [
              | inl thrown ↦
                  let same : line ≡ none = ground arith in subst (HasBatch product_id) (sym same) tt
              | inr (z, made) ↦
                  let same : line ≡ some (added product_id (sha256 content) z b) = ground arith in
                  subst (HasBatch product_id) (sym same)
                    (added-IsBatch product_id (sha256 content) z b g is)
            ]
          ]
        ]
      ]

  pub take_lines-IsBatch :
      (n : ℕ) (ls : List Text) (b : Batch)
      → IsBatch product_id b
      → HasBatch product_id (take_lines sha256 encrypt product_id n ls b)
  take_lines-IsBatch n [] b is = is
  take_lines-IsBatch n (raw ∷ ls) b is =
      let line = take_line sha256 encrypt product_id n raw b in
      let run = take_lines sha256 encrypt product_id n (raw ∷ ls) b in
      let first = take_line-IsBatch n raw b is in
      elim (Option-cases line) [
        | inl e ↦ let same : run ≡ none = ground arith in subst (HasBatch product_id) (sym same) tt
        | inr (b', e) ↦
            let same : run ≡ take_lines sha256 encrypt product_id (suc n) ls b' = ground arith in
            subst (HasBatch product_id) (sym same)
              (take_lines-IsBatch (suc n) ls b' (subst (HasBatch product_id) e first))
      ]

  take_row-IsBatch :
      (n : ℕ) (raw : Text) (b : Batch)
      → IsBatch product_id b
      → IsBatch product_id (take_row sha256 encrypt product_id (n, raw) b)
  take_row-IsBatch n raw b is =
      let content = trim raw in
      let hash = sha256 content in
      let row = take_row sha256 encrypt product_id (n, raw) b in
      elim (Bool-cases (n == 1 || is_empty content)) [
        | inl e ↦ same-IsBatch product_id b row (ground arith) (ground arith) is
        | inr e ↦ elim (Bool-cases (ltb 4096 (length content) || includes b.seen hash)) [
          | inl f ↦ same-IsBatch product_id b row (ground arith) (ground arith) is
          | inr f ↦ elim (Option-cases (encrypt content)) [
            | inl thrown ↦ seen-IsBatch product_id hash b row (ground arith) (ground arith) is
            | inr (z, made) ↦
                let same : row ≡ added product_id hash z b = ground arith in
                subst (IsBatch product_id) (sym same)
                  (added-IsBatch product_id hash z b (ground arith) is)
          ]
        ]
      ]

  pub take_rows-IsBatch :
      (rs : List (ℕ × Text)) (b : Batch)
      → IsBatch product_id b
      → IsBatch product_id (take_rows sha256 encrypt product_id rs b)
  take_rows-IsBatch [] b is = is
  take_rows-IsBatch ((n, raw) ∷ rs) b is =
      take_rows-IsBatch rs (take_row sha256 encrypt product_id (n, raw) b)
        (take_row-IsBatch n raw b is)
