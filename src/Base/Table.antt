-- ===== src/Base/Table.antt =====
-- A database table as a list of rows under their primary keys, with the queries and updates that
-- the services make through Prisma. `update({ where: { id } })` changes the row with that key,
-- `updateMany` all the rows that pass a test, and says how many.
use winmelon_card.Base.{
  ℕ, suc, ◌≡◌, refl, ◌≢◌, Bool, Option, none, some, List, [], ◌∷◌, arith, ◌==◌, if◌then◌else◌,
  Bool-cases, Option-cases, ==_iff, ==_refl, inl, inr, ◌&&◌, true, sym, ap, ◌∙◌,
}
use winmelon_card.Base.Int.{ℤ, pos, ◌+ℤ◌, int_laws}

abbrev pub Table : Type 0 → Type 0
Table A = List (ℕ × A)

module _ {A : Type 0} where
  -- `findUnique({ where: { id } })`
  abbrev pub find : ℕ → Table A → Option A
  find k [] = none
  find k ((j, a) ∷ t) = if j == k then some a else find k t

  -- `findFirst({ where })`, with the key of the row.
  abbrev pub find_first : (ℕ → A → Bool) → Table A → Option (ℕ × A)
  find_first p [] = none
  find_first p ((j, a) ∷ t) = if p j a then some (j, a) else find_first p t

  -- `findMany({ where })`
  abbrev pub find_many : (ℕ → A → Bool) → Table A → Table A
  find_many p [] = []
  find_many p ((j, a) ∷ t) = if p j a then (j, a) ∷ find_many p t else find_many p t

  -- `create`, under a fresh key.
  abbrev pub insert : ℕ → A → Table A → Table A
  insert k a t = (k, a) ∷ t

  -- `update({ where: { id } })`
  abbrev pub adjust : ℕ → (A → A) → Table A → Table A
  adjust k f [] = []
  adjust k f ((j, a) ∷ t) = if j == k then (j, f a) ∷ t else (j, a) ∷ adjust k f t

  -- `updateMany({ where })`
  abbrev pub update_many : (ℕ → A → Bool) → (A → A) → Table A → Table A
  update_many p f [] = []
  update_many p f ((j, a) ∷ t) = (j, if p j a then f a else a) ∷ update_many p f t

  -- `deleteMany({ where })`
  abbrev pub delete_many : (ℕ → A → Bool) → Table A → Table A
  delete_many p [] = []
  delete_many p ((j, a) ∷ t) = if p j a then delete_many p t else (j, a) ∷ delete_many p t

  -- `count({ where })`, and the count that `updateMany` returns.
  abbrev pub count : (ℕ → A → Bool) → Table A → ℕ
  count p [] = 0
  count p ((j, a) ∷ t) = if p j a then suc (count p t) else count p t

  -- `aggregate({ _sum })`
  abbrev pub total : (ℕ → A → ℤ) → Table A → ℤ
  total g [] = pos 0
  total g ((j, a) ∷ t) = g j a +ℤ total g t

  -- The primary key: no two rows have the same.
  abbrev pub IsKeyed : Table A → Type 0
  IsKeyed [] = Unit
  IsKeyed ((k, a) ∷ t) = (find k t ≡ none) × IsKeyed t

  pub find-adjust_self :
      (k : ℕ) (f : A → A) (t : Table A) (a : A)
      → find k t ≡ some a
      → find k (adjust k f t) ≡ some (f a)
  find-adjust_self k f [] a h = cc
  find-adjust_self k f ((j, b) ∷ t) a h = elim (Bool-cases (j == k)) [
    | inl e ↦ ground arith
    | inr e ↦ ground (arith, find-adjust_self k f t a)
  ]

  pub find-adjust_ne :
      (j k : ℕ) (f : A → A) (t : Table A) → j ≢ k → find j (adjust k f t) ≡ find j t
  find-adjust_ne j k f [] h = refl
  find-adjust_ne j k f ((i, b) ∷ t) h = ground (arith, find-adjust_ne j k f t h)

  pub find-insert_ne : (j k : ℕ) (a : A) (t : Table A) → j ≢ k → find j (insert k a t) ≡ find j t
  find-insert_ne j k a t h = ground arith

  pub find-update_many-some :
      (k : ℕ) (p : ℕ → A → Bool) (f : A → A) (t : Table A) (a : A)
      → find k t ≡ some a
      → find k (update_many p f t) ≡ some (if p k a then f a else a)
  find-update_many-some k p f [] a h = cc
  find-update_many-some k p f ((j, b) ∷ t) a h = elim (Bool-cases (j == k)) [
    | inl e ↦ ground (arith, (==_iff j k).0 e)
    | inr e ↦ ground (arith, find-update_many-some k p f t a)
  ]

  pub find-update_many-none :
      (k : ℕ) (p : ℕ → A → Bool) (f : A → A) (t : Table A)
      → find k t ≡ none
      → find k (update_many p f t) ≡ none
  find-update_many-none k p f [] h = refl
  find-update_many-none k p f ((j, b) ∷ t) h = ground (arith, find-update_many-none k p f t)

  pub total-adjust :
      (g : ℕ → A → ℤ) (k : ℕ) (f : A → A) (t : Table A) (a : A)
      → find k t ≡ some a
      → total g (adjust k f t) +ℤ g k a ≡ total g t +ℤ g k (f a)
  total-adjust g k f [] a h = cc
  total-adjust g k f ((j, b) ∷ t) a h = elim (Bool-cases (j == k)) [
    | inl e ↦ grind (int_laws, (==_iff j k).0 e)
    | inr e ↦ grind (int_laws, total-adjust g k f t a)
  ]

  pub update_many-IsKeyed :
      (p : ℕ → A → Bool) (f : A → A) (t : Table A) → IsKeyed t → IsKeyed (update_many p f t)
  update_many-IsKeyed p f [] h = tt
  update_many-IsKeyed p f ((j, b) ∷ t) (fresh, rest) =
      (find-update_many-none j p f t fresh, update_many-IsKeyed p f t rest)

  -- An update leaves the keys alone.
  pub count-update_many :
      (q : ℕ → Bool) (p : ℕ → A → Bool) (f : A → A) (t : Table A)
      → count (λ k a. q k) (update_many p f t) ≡ count (λ k a. q k) t
  count-update_many q p f [] = refl
  count-update_many q p f ((j, b) ∷ t) = ground (arith, count-update_many q p f t)

  pub update_many_none :
      (p : ℕ → A → Bool) (f : A → A) (t : Table A) → count p t ≡ 0 → update_many p f t ≡ t
  update_many_none p f [] h = refl
  update_many_none p f ((j, b) ∷ t) h = ground (arith, update_many_none p f t)

  -- `updateMany({ where: { id, … } })` meets one row at most.
  pub count_absent :
      (k : ℕ) (q : A → Bool) (t : Table A) → find k t ≡ none → count (λ j a. j == k && q a) t ≡ 0
  count_absent k q [] h = refl
  count_absent k q ((j, b) ∷ t) h = ground (arith, count_absent k q t)

  pub count_keyed :
      (k : ℕ) (q : A → Bool) (t : Table A) (a : A)
      → IsKeyed t
      → find k t ≡ some a
      → count (λ j b. j == k && q b) t ≡ (if q a then 1 else 0)
  count_keyed k q [] a keyed h = absurd (ground arith)
  count_keyed k q ((j, b) ∷ t) a (fresh, keyed) h = elim (Bool-cases (j == k)) [
    | inl e ↦ ground (arith, ==_iff j k, count_absent k q t)
    | inr e ↦ ground (arith, count_keyed k q t a keyed)
  ]

  find-adjust-none :
      (j k : ℕ) (f : A → A) (t : Table A) → find j t ≡ none → find j (adjust k f t) ≡ none
  find-adjust-none j k f [] h = refl
  find-adjust-none j k f ((i, b) ∷ t) h = ground (arith, find-adjust-none j k f t)

  pub adjust-IsKeyed : (k : ℕ) (f : A → A) (t : Table A) → IsKeyed t → IsKeyed (adjust k f t)
  adjust-IsKeyed k f [] h = tt
  adjust-IsKeyed k f ((j, b) ∷ t) (fresh, rest) = elim (Bool-cases (j == k)) [
    | inl e ↦ rw e (fresh, rest)
    | inr e ↦ rw e (find-adjust-none j k f t fresh, adjust-IsKeyed k f t rest)
  ]

  -- A row of the table after an update comes from a row of the table before it.
  pub find-update_many-back :
      (k : ℕ) (p : ℕ → A → Bool) (f : A → A) (t : Table A) (b : A)
      → find k (update_many p f t) ≡ some b
      → (a : A) × (find k t ≡ some a) × (b ≡ (if p k a then f a else a))
  find-update_many-back k p f t b after = elim (Option-cases (find k t)) [
    | inl e ↦ absurd (ground (arith, find-update_many-none k p f t e))
    | inr (a, e) ↦ let kept = find-update_many-some k p f t a e in (a, e, ground arith)
  ]

  pub find-adjust-back :
      (j k : ℕ) (f : A → A) (t : Table A) (b : A)
      → find j (adjust k f t) ≡ some b
      → (a : A) × (find j t ≡ some a) × (b ≡ (if j == k then f a else a))
  find-adjust-back j k f t b after = elim (Option-cases (find j t)) [
    | inl e ↦ absurd (ground (arith, find-adjust-none j k f t e))
    | inr (a, e) ↦ elim (Bool-cases (j == k)) [
      | inl same ↦
          let here = find-adjust_self j f t a e in (a, e, ground (arith, (==_iff j k).0 same))
      | inr other ↦ let kept = find-adjust_ne j k f t in (a, e, ground (arith, ==_iff j k))
    ]
  ]

  pub find_first-find :
      (p : ℕ → A → Bool) (t : Table A) (k : ℕ) (a : A)
      → find_first p t ≡ some (k, a)
      → IsKeyed t
      → (find k t ≡ some a) × (p k a ≡ true)
  find_first-find p [] k a h keyed = absurd (ground arith)
  find_first-find p ((j, b) ∷ t) k a h (fresh, keyed) = elim (Bool-cases (p j b)) [
    | inl e ↦
        let same : j ≡ k = ground arith in
        let row : b ≡ a = ground arith in
        (ground (arith, ==_refl j), ap (λ x. p x a) (sym same) ∙ ap (λ x. p j x) (sym row) ∙ e)
    | inr e ↦
        let (there, passes) = find_first-find p t k a (ground arith) keyed in
        (ground (arith, ==_iff j k), passes)
  ]

  -- An update that a query does not notice.
  pub find_first-adjust :
      (p : ℕ → A → Bool) (f : A → A) (t : Table A) (k : ℕ) (a : A)
      → ((j : ℕ) (b : A) → p j (f b) ≡ p j b)
      → find_first p t ≡ some (k, a)
      → IsKeyed t
      → find_first p (adjust k f t) ≡ some (k, f a)
  find_first-adjust p f [] k a same h keyed = absurd (ground arith)
  find_first-adjust p f ((j, b) ∷ t) k a same h (fresh, keyed) = elim (Bool-cases (p j b)) [
    | inl e ↦
        let key : j ≡ k = ground arith in
        let row : b ≡ a = ground arith in ground (arith, ==_iff j k, same j b)
    | inr e ↦
        let rest = find_first-adjust p f t k a same in
        let (there, passes) = find_first-find p t k a (ground arith) keyed in
        ground (arith, ==_iff j k, same j b)
  ]
