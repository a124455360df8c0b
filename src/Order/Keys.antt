-- ===== src/Order/Keys.antt =====
-- The keys that a query with a limit returns, as the timers and the reservation of cards use them.
use winmelon_card.Base.{
  ℕ, zero, suc, ◌≡◌, refl, sym, ◌∙◌, ap, inl, inr, Bool, true, false, none, some, List, [], ◌∷◌,
  arith, if◌then◌else◌, includes, take, Bool-cases, ==_iff,
}
use winmelon_card.Base.Table.{Table, find, find_many, IsKeyed}
use winmelon_card.Order.{keys}

pub by_contrast : (a b : Bool) → (a ≡ true → b ≡ true) → b ≡ false → a ≡ false
by_contrast true b f h = sym (f refl) ∙ h
by_contrast false b f h = refl

module _ {A : Type 0} (p : ℕ → A → Bool) where
  abbrev pub query : ℕ → Table A → List ℕ
  query n t = take n (keys (find_many p t))

  pub query_skip :
      (n k : ℕ) (a : A) (t : Table A) → p k a ≡ false → query n ((k, a) ∷ t) ≡ query n t
  query_skip n k a t e =
      ap (λ b. take n (keys (if b then (k, a) ∷ find_many p t else find_many p t))) e

  pub query_take :
      (n k : ℕ) (a : A) (t : Table A) → p k a ≡ true → query (suc n) ((k, a) ∷ t) ≡ k ∷ query n t
  query_take n k a t e =
      ap (λ b. take (suc n) (keys (if b then (k, a) ∷ find_many p t else find_many p t))) e

  -- A key that is not in the table is not returned.
  pub query_absent :
      (n : ℕ) (t : Table A) (k : ℕ) → find k t ≡ none → includes (query n t) k ≡ false
  query_absent zero t k h = refl
  query_absent (suc n) [] k h = refl
  query_absent (suc n) ((j, b) ∷ t) k h = elim (Bool-cases (p j b)) [
    | inl e ↦ ap (λ xs. includes xs k) (query_take n j b t e) ∙ ground (arith, query_absent n t k)
    | inr e ↦
        ap (λ xs. includes xs k) (query_skip (suc n) j b t e)
        ∙ ground (arith, query_absent (suc n) t k)
  ]

  -- A row that is returned passes the test.
  pub query_passes :
      (n : ℕ) (t : Table A) (k : ℕ) (a : A)
      → IsKeyed t
      → find k t ≡ some a
      → includes (query n t) k ≡ true
      → p k a ≡ true
  query_passes zero t k a keyed here h = absurd (ground arith)
  query_passes (suc n) [] k a keyed here h = absurd (ground arith)
  query_passes (suc n) ((j, b) ∷ t) k a (fresh, keyed) here h = elim (Bool-cases (p j b)) [
    | inl e ↦
        let tail = sym (ap (λ xs. includes xs k) (query_take n j b t e)) ∙ h in
        let rest = query_passes n t k a keyed in ground (arith, ==_iff j k)
    | inr e ↦
        let tail = sym (ap (λ xs. includes xs k) (query_skip (suc n) j b t e)) ∙ h in
        let rest = query_passes (suc n) t k a keyed in
        let absent = query_absent (suc n) t k in ground (arith, ==_iff j k)
  ]
