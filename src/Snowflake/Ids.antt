-- ===== src/Snowflake/Ids.antt =====
-- The identifiers that the generator returns over its life.
use winmelon_card.Base.{
  ℕ, ◌≡◌, refl, sym, ◌∙◌, ap, subst, ◌⊎◌, inl, inr, ◌<◌, ◌≤◌, Option, none, some, List, [], ◌∷◌,
  ◌||◌, arith, Bool-cases, Option-cases,
}
use winmelon_card.Base.Int.{ℤ, pos, ltb_ℤ, pos_part}
use winmelon_card.Base.Result.{Result, ok, err, ok_inj}
use winmelon_card.Snowflake.{Snowflake, new_snowflake, Clock, next, id_of}
use winmelon_card.Snowflake.Step.{id_of_sum, AreSteady, IsLater, Issued, IsGood, next-IsGood}

-- The identifiers of a row of calls; a refused call has none.
abbrev pub ids : List Clock → Snowflake → List ℕ
ids [] s = []
ids (c ∷ cs) s = elim (next c s) [
  | none ↦ []
  | some (ok id, s') ↦ id ∷ ids cs s'
  | some (err e, s') ↦ ids cs s'
]

abbrev pub AreAbove : ℕ → List ℕ → Type 0
AreAbove b [] = Unit
AreAbove b (id ∷ rest) = (b < id) × AreAbove id rest

abbrev pub AreAscending : List ℕ → Type 0
AreAscending [] = Unit
AreAscending (id ∷ rest) = AreAbove id rest

-- Above the last identifier of the generator, where there is one.
abbrev pub AreNew : Option ℕ → Snowflake → List ℕ → Type 0
AreNew none s xs = AreAscending xs
AreNew (some t) s xs = AreAbove (id_of t s.machine_id s.sequence) xs

issued-above :
    (t m m' q ts q' : ℕ)
    → m ≤ 1023
    → q ≤ 4095
    → q' ≤ 4095
    → m' ≡ m
    → (t < ts) ⊎ ((t ≡ ts) × (q < q'))
    → id_of t m q < id_of ts m' q'
issued-above t m m' q ts q' hm hq hq' same (inl h) =
    ground (arith, id_of_sum t m q hm hq, id_of_sum ts m q' hm hq')
issued-above t m m' q ts q' hm hq hq' same (inr (e, h)) =
    ground (arith, id_of_sum t m q hm hq, id_of_sum ts m q' hm hq')

ids-Issued :
    (s s' : Snowflake) (id : ℕ) (rest : List ℕ)
    → s.machine_id ≤ 1023
    → s.sequence ≤ 4095
    → Issued s id s'
    → AreNew s'.last_timestamp s' rest
    → AreNew s.last_timestamp s (id ∷ rest)
ids-Issued s s' id rest machine range h above =
    let behind : AreAbove id rest =
      subst (λ x. AreAbove x rest) (sym h.value) (subst (λ x. AreNew x s' rest) h.last above) in
    elim (Option-cases s.last_timestamp) [
      | inl e ↦ subst (λ x. AreNew x s (id ∷ rest)) (sym e) behind
      | inr (t, e) ↦
          let later : IsLater (some t) s.sequence h.ts s'.sequence =
            subst (λ x. IsLater x s.sequence h.ts s'.sequence) e h.later in
          let up : id_of t s.machine_id s.sequence < id_of h.ts s'.machine_id s'.sequence =
            issued-above t s.machine_id s'.machine_id s.sequence h.ts s'.sequence machine range
              h.range h.machine later in
          subst (λ x. AreNew x s (id ∷ rest)) (sym e)
            (subst (λ x. id_of t s.machine_id s.sequence < x) (sym h.value) up, behind)
    ]

AreNew-none : (s : Snowflake) → AreNew s.last_timestamp s []
AreNew-none s = elim (Option-cases s.last_timestamp) [
  | inl e ↦ subst (λ x. AreNew x s []) (sym e) tt
  | inr (t, e) ↦ subst (λ x. AreNew x s []) (sym e) tt
]

ids-AreNew :
    (cs : List Clock) (s : Snowflake)
    → s.machine_id ≤ 1023
    → s.sequence ≤ 4095
    → AreSteady cs
    → AreNew s.last_timestamp s (ids cs s)
ids-AreNew [] s machine range steady = AreNew-none s
ids-AreNew (c ∷ cs) s machine range (steady, later) =
    outcome (λ s' m r. ids-AreNew cs s' m r later) (next c s) refl (next-IsGood c s range steady)
  where
    outcome :
        ((s' : Snowflake)
          → s'.machine_id ≤ 1023
          → s'.sequence ≤ 4095
          → AreNew s'.last_timestamp s' (ids cs s'))
        → (y : Option (Result ℕ × Snowflake)) → next c s ≡ y
        → IsGood s y
        → AreNew s.last_timestamp s (ids (c ∷ cs) s)
    outcome ih none e good =
        let same : ids (c ∷ cs) s ≡ [] = ground arith in
        subst (AreNew s.last_timestamp s) (sym same) (AreNew-none s)
    outcome ih (some (ok id, s')) e good =
        let same : ids (c ∷ cs) s ≡ id ∷ ids cs s' = ground arith in
        let machine' : s'.machine_id ≤ 1023 = subst (λ x. x ≤ 1023) (sym good.machine) machine in
        subst (AreNew s.last_timestamp s) (sym same)
          (ids-Issued s s' id (ids cs s') machine range good (ih s' machine' good.range))
    outcome ih (some (err why, s')) e good =
        let same : ids (c ∷ cs) s ≡ ids cs s' = ground arith in
        subst (AreNew s.last_timestamp s) (sym (same ∙ ap (ids cs) good)) (ih s machine range)

-- A new generator.
abbrev pub IsStarted : Snowflake → Type 0
IsStarted s = (s.machine_id ≤ 1023) × (s.sequence ≡ 0) × (s.last_timestamp ≡ none)

new_snowflake-IsStarted : (mid : ℤ) (s : Snowflake) → new_snowflake mid ≡ ok s → IsStarted s
new_snowflake-IsStarted mid s made = elim (Bool-cases (ltb_ℤ mid (pos 0) || ltb_ℤ (pos 1023) mid)) [
  | inl e ↦ absurd (ground arith)
  | inr e ↦
      let first : Snowflake = record {
        machine_id = pos_part mid;
        last_timestamp = none;
        sequence = 0;
      } in
      let made' : ok first ≡ ok s = ground arith in
      subst IsStarted (ok_inj made') (ground arith, refl, refl)
]

-- The identifiers that a generator returns from its start on are strictly ascending, over any number
-- of calls, refused ones among them, and whatever the clock shows between the calls, if within the
-- wait of one call the clock is not set back and does not stand still for five seconds.
pub ids-AreAscending :
    (mid : ℤ) (s : Snowflake) (cs : List Clock)
    → new_snowflake mid ≡ ok s
    → AreSteady cs
    → AreAscending (ids cs s)
ids-AreAscending mid s cs made steady =
    let (fits, starts, none_yet) = new_snowflake-IsStarted mid s made in
    subst (λ x. AreNew x s (ids cs s)) none_yet (ids-AreNew cs s fits (omega arith) steady)
