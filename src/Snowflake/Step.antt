-- ===== src/Snowflake/Step.antt =====
-- One call of the generator.
use Prim.Native.Nat.{bit_and}
use winmelon_card.Base.{
  ℕ, ◌≡◌, refl, sym, subst, ◌⊎◌, inl, inr, ◌+◌, ◌-◌, ◌*◌, ◌%◌, ◌<◌, ◌≤◌, Option, none, some, List,
  [], ◌∷◌, ◌==◌, ltb, leb, arith, Bool-cases, Option-cases, ==_iff,
}
use winmelon_card.Base.Bits.{◌<<◌, bit_or_low, bit_and_low}
use winmelon_card.Base.Result.{Result, ok, err, failure}
use winmelon_card.Snowflake.{
  Snowflake, Clock, Wait, spin, same_ms, new_ms, next, id_of, max_sequence,
}

-- `|` joins the fields without overlap.
pub id_of_sum : (ts m q : ℕ) → m ≤ 1023 → q ≤ 4095 → id_of ts m q ≡ ts * 4194304 + m * 4096 + q
id_of_sum ts m q hm hq =
    let outer = bit_or_low 22 ts (m * 4096) (omega arith) in
    let inner = bit_or_low 12 (ts * 1024 + m) q (omega arith) in
    let shape : (ts * 1024 + m) << 12 ≡ (ts << 22) + m * 4096 = omega arith in ground arith

-- The clock is not set back during one wait, and the wait does not take five seconds.
abbrev pub IsSteadyTurns : ℕ → List (ℕ × ℕ) → Type 0
IsSteadyTurns start [] = Unit
IsSteadyTurns start ((t, u) ∷ ts) = (t ≤ u) × (u ≤ start + 5000) × IsSteadyTurns start ts

abbrev pub IsSteady : Clock → Type 0
IsSteady c = IsSteadyTurns c.spin_start c.turns

abbrev pub AreSteady : List Clock → Type 0
AreSteady [] = Unit
AreSteady (c ∷ cs) = IsSteady c × AreSteady cs

spin_steady :
    (last start : ℕ) (ts : List (ℕ × ℕ))
    → IsSteadyTurns start ts
    → (spin last start ts ≡ Wait.waiting)
      ⊎ ((u : ℕ) × (spin last start ts ≡ Wait.resumed u) × (last < u))
spin_steady last start [] steady = inl refl
spin_steady last start ((t, u) ∷ ts) (forward, short, rest) = elim (Bool-cases (leb t last)) [
  | inr e ↦ inr (u, ground arith, ground arith)
  | inl e ↦ elim (spin_steady last start ts rest) [
    | inl h ↦ inl (ground arith)
    | inr (v, h, later) ↦ inr (v, ground arith, later)
  ]
]

-- A later millisecond, or a later number in the same one.
abbrev pub IsLater : Option ℕ → ℕ → ℕ → ℕ → Type 0
IsLater none q ts q' = Unit
IsLater (some t) q ts q' = (t < ts) ⊎ ((t ≡ ts) × (q < q'))

pub record Issued (s : Snowflake) (id : ℕ) (s' : Snowflake) : Type 0 where
  pub ts : ℕ
  pub machine : s'.machine_id ≡ s.machine_id
  pub range : s'.sequence ≤ 4095
  pub last : s'.last_timestamp ≡ some ts
  pub value : id ≡ id_of ts s'.machine_id s'.sequence
  pub later : IsLater s.last_timestamp s.sequence ts s'.sequence

-- A refused call leaves the generator as it was.
abbrev pub IsGood : Snowflake → Option (Result ℕ × Snowflake) → Type 0
IsGood s none = Unit
IsGood s (some (ok id, s')) = Issued s id s'
IsGood s (some (err e, s')) = s' ≡ s

same_ms-IsGood :
    (last : ℕ) (c : Clock) (s : Snowflake)
    → s.last_timestamp ≡ some last
    → s.sequence ≤ 4095
    → IsSteady c
    → IsGood s (same_ms last c s)
same_ms-IsGood last c s here range steady =
    let sequence = bit_and (s.sequence + 1) max_sequence in
    let mask : sequence ≡ (s.sequence + 1) % 4096 = bit_and_low 12 (s.sequence + 1) in
    let reset = record s { sequence = sequence } in
    elim (Bool-cases (sequence == 0)) [
      | inr e ↦
          let same : same_ms last c s ≡ some (ok (id_of last s.machine_id sequence), reset) =
            ground arith in
          let later : IsLater s.last_timestamp s.sequence last sequence =
            subst (λ x. IsLater x s.sequence last sequence) (sym here) (inr (refl, ground arith)) in
          subst (IsGood s) (sym same) (record {
            ts = last;
            machine = refl;
            range = ground arith;
            last = here;
            value = refl;
            later = later;
          })
      | inl e ↦ elim (spin_steady last c.spin_start c.turns steady) [
        | inl h ↦
            let same : same_ms last c s ≡ none = ground arith in subst (IsGood s) (sym same) tt
        | inr (u, h, after) ↦
            let same : same_ms last c s
                ≡ some
                    (ok (id_of u s.machine_id sequence), record reset { last_timestamp = some u }) =
              ground arith in
            let later : IsLater s.last_timestamp s.sequence u sequence =
              subst (λ x. IsLater x s.sequence u sequence) (sym here) (inl after) in
            subst (IsGood s) (sym same) (record {
              ts = u;
              machine = refl;
              range = ground arith;
              last = refl;
              value = refl;
              later = later;
            })
      ]
    ]

pub next-IsGood : (c : Clock) (s : Snowflake) → s.sequence ≤ 4095 → IsSteady c → IsGood s (next c s)
next-IsGood c s range steady = elim (Option-cases s.last_timestamp) [
  | inl e ↦
      let same : next c s ≡ new_ms c.now s = ground arith in
      let later : IsLater s.last_timestamp s.sequence c.now 0 =
        subst (λ x. IsLater x s.sequence c.now 0) (sym e) tt in
      subst (IsGood s) (sym same) (issued later)
  | inr (last, e) ↦ elim (Bool-cases (ltb c.now last)) [
    | inl back ↦ elim (Bool-cases (ltb 100 (last - c.now))) [
      | inl far ↦
          let result : Option (Result ℕ × Snowflake) = some (err failure, s) in
          let same : next c s ≡ result = ground arith in subst (IsGood s) (sym same) refl
      | inr near ↦
          let same : next c s ≡ same_ms last c s = ground arith in
          subst (IsGood s) (sym same) (same_ms-IsGood last c s e range steady)
    ]
    | inr forward ↦ elim (Bool-cases (c.now == last)) [
      | inl now ↦
          let same : next c s ≡ same_ms last c s = ground arith in
          subst (IsGood s) (sym same) (same_ms-IsGood last c s e range steady)
      | inr past ↦
          let same : next c s ≡ new_ms c.now s = ground arith in
          let after : last < c.now = ground (arith, ==_iff c.now last) in
          let later : IsLater s.last_timestamp s.sequence c.now 0 =
            subst (λ x. IsLater x s.sequence c.now 0) (sym e) (inl after) in
          subst (IsGood s) (sym same) (issued later)
    ]
  ]
]
  where
    issued : IsLater s.last_timestamp s.sequence c.now 0 → IsGood s (new_ms c.now s)
    issued later = record {
      ts = c.now;
      machine = refl;
      range = omega arith;
      last = refl;
      value = refl;
      later = later;
    }
