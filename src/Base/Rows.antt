-- ===== src/Base/Rows.antt =====
-- Rows that were read from a table, while others of them are updated one by one.
use winmelon_card.Base.Tests.{==_iff, Bool-cases}
use Prim.Native.Nat.{ℕ}
use mathlib.Core.Path.{◌≡◌, sym, ◌∙◌, subst}
use mathlib.Core.Logic.{◌≢◌, inl, inr}
use mathlib.Core.Bool.{Bool}
use mathlib.Core.Option.{none, some}
use mathlib.Core.List.{[], ◌∷◌}
use native.Mathlib.Omega.{arith}
use winmelon_card.Base.Table.{Table, find, find_many, adjust, IsKeyed, find-adjust_ne}

module _ {A : Type 0} where
  -- Each of the rows is in the table, and none is there twice.
  abbrev pub AreRows : Table A → Table A → Type 0
  AreRows [] t = Unit
  AreRows ((id, r) ∷ rs) t = (find id t ≡ some r) × (find id rs ≡ none) × AreRows rs t

  pub adjust-AreRows :
      (id : ℕ) (f : A → A) (rs t : Table A)
      → find id rs ≡ none
      → AreRows rs t
      → AreRows rs (adjust id f t)
  adjust-AreRows id f [] t absent h = tt
  adjust-AreRows id f ((j, r) ∷ rs) t absent (here, once, rest) =
      let other : j ≢ id = ground (arith, ==_iff j id) in
      (find-adjust_ne j id f t other ∙ here, once, adjust-AreRows id f rs t (ground arith) rest)

  later-AreRows :
      (k : ℕ) (a : A) (rs t : Table A) → find k t ≡ none → AreRows rs t → AreRows rs ((k, a) ∷ t)
  later-AreRows k a [] t new h = tt
  later-AreRows k a ((j, r) ∷ rs) t new (here, once, rest) =
      let still : find j ((k, a) ∷ t) ≡ some r = ground (arith, ==_iff k j) in
      (still, once, later-AreRows k a rs t new rest)

  find_many_absent :
      (k : ℕ) (p : ℕ → A → Bool) (t : Table A) → find k t ≡ none → find k (find_many p t) ≡ none
  find_many_absent k p [] h = h
  find_many_absent k p ((j, r) ∷ t) h = ground (arith, find_many_absent k p t)

  pub find_many-AreRows : (p : ℕ → A → Bool) (t : Table A) → IsKeyed t → AreRows (find_many p t) t
  find_many-AreRows p [] keyed = tt
  find_many-AreRows p ((j, r) ∷ t) (new, keyed) =
      let rs = find_many p t in
      let rest = later-AreRows j r rs t new (find_many-AreRows p t keyed) in
      elim (Bool-cases (p j r)) [
        | inr e ↦
            let same : find_many p ((j, r) ∷ t) ≡ rs = ground arith in
            subst (λ x. AreRows x ((j, r) ∷ t)) (sym same) rest
        | inl e ↦
            let same : find_many p ((j, r) ∷ t) ≡ (j, r) ∷ rs = ground arith in
            let here : find j ((j, r) ∷ t) ≡ some r = ground (arith, ==_iff j j) in
            subst (λ x. AreRows x ((j, r) ∷ t)) (sym same) (here, find_many_absent j p t new, rest)
      ]
