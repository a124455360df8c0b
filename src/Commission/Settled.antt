-- ===== src/Commission/Settled.antt =====
-- The settlement of an order: what it writes.
use winmelon_card.Base.{
  ℕ, ◌≡◌, refl, sym, ◌∙◌, subst, ◌⊎◌, inl, inr, false, Option, none, some, List, [], ◌∷◌, arith,
  Bool-cases, Option-cases,
}
use winmelon_card.Base.Int.{ℤ, pos, leb_ℤ}
use winmelon_card.Base.Table.{find, find_first, adjust, IsKeyed}
use winmelon_card.Base.Result.{ok, Result-cases}
use winmelon_card.Schema.{Order, Merchant, CommissionRecord}
use winmelon_card.Schema.Store.{Store}
use winmelon_card.Commission.{
  deduct, settle_levels, settle_in, settle_chain, settle_commission, handle_order_paid, Level,
  count_use, levels_of, settled_for,
}
use winmelon_card.Commission.Kept.{Kept, Kept-refl, Kept-trans, one_settled, one_settled-Kept}

module _ (commission : ℤ → ℕ → ℤ) (fresh : ℕ → ℕ) (order_id source : ℕ) (base : ℤ) where
  -- A level whose amount is positive, where the merchants are there and the identifier is fresh.
  pub settle_levels-step :
      (l : Level) (ls : List Level) (db : Store) (m m' : Merchant)
      → leb_ℤ (commission base l.rate) (pos 0) ≡ false
      → find (fresh l.level) db.commission_records ≡ none
      → find source db.merchants ≡ some m
      → find l.inviter_id (adjust source (deduct (commission base l.rate)) db.merchants) ≡ some m'
      → (a : ℤ) → (settle_levels commission fresh order_id source base (l ∷ ls) db).0 ≡ ok a
      → ((b : ℤ) × ((settle_levels commission fresh order_id source base ls
              (one_settled (fresh l.level) order_id source base l (commission base l.rate) db)).0
            ≡ ok b))
        × ((settle_levels commission fresh order_id source base (l ∷ ls) db).1
            ≡ (settle_levels commission fresh order_id source base ls
                (one_settled (fresh l.level) order_id source base l (commission base l.rate) db)).1)
  unfolding settle_levels
  settle_levels-step l ls db m m' positive new from to a h =
      elim (Result-cases
        (settle_levels commission fresh order_id source base ls
          (one_settled (fresh l.level) order_id source base l (commission base l.rate) db)).0) [
            | inl (b, e) ↦ ((b, e), ground arith)
            | inr (e, no_value) ↦ absurd (ground arith)
          ]

  -- A level with a positive amount that was settled: its record was new, both merchants are there.
  pub settle_levels_rows :
      (l : Level) (ls : List Level) (db : Store)
      → leb_ℤ (commission base l.rate) (pos 0) ≡ false
      → (a : ℤ) → (settle_levels commission fresh order_id source base (l ∷ ls) db).0 ≡ ok a
      → (find (fresh l.level) db.commission_records ≡ none)
        × ((m : Merchant) × (find source db.merchants ≡ some m))
        × ((m : Merchant) × (find l.inviter_id
                (adjust source (deduct (commission base l.rate)) db.merchants)
              ≡ some m))
  unfolding settle_levels
  settle_levels_rows l ls db positive a h =
      elim (Option-cases (find (fresh l.level) db.commission_records)) [
        | inr (r, there) ↦ absurd (ground arith)
        | inl new ↦ elim (Option-cases (find source db.merchants)) [
          | inl missing ↦ absurd (ground arith)
          | inr from ↦
              elim (Option-cases (
                find l.inviter_id (adjust source (deduct (commission base l.rate)) db.merchants))) [
                  | inl missing ↦ absurd (ground arith)
                  | inr to ↦ (new, from, to)
                ]
        ]
      ]

  pub settle_levels-Kept :
      (ls : List Level) (db : Store)
      → IsKeyed db.commission_records
      → (a : ℤ) → (settle_levels commission fresh order_id source base ls db).0 ≡ ok a
      → Kept db (settle_levels commission fresh order_id source base ls db).1
  unfolding settle_levels
  settle_levels-Kept [] db keyed a h = Kept-refl db keyed
  settle_levels-Kept (l ∷ ls) db keyed a h =
      elim (Bool-cases (leb_ℤ (commission base l.rate) (pos 0))) [
        | inl e ↦
            let same : settle_levels commission fresh order_id source base (l ∷ ls) db
                ≡ settle_levels commission fresh order_id source base ls db =
              ground arith in
            subst (λ y. Kept db y.1) (sym same) (settle_levels-Kept ls db keyed a (ground arith))
        | inr e ↦
            let (new, (m, from), (m', to)) = settle_levels_rows l ls db e a h in
            let ((b, done), same) = settle_levels-step l ls db m m' e new from to a h in
            let amount = commission base l.rate in
            let db' = one_settled (fresh l.level) order_id source base l amount db in
            let first =
              one_settled-Kept (fresh l.level) order_id source base l amount db m m' keyed new from
                to in
            subst (Kept db) (sym same) (
              Kept-trans db db' (settle_levels commission fresh order_id source base ls db').1 first
                (settle_levels-Kept ls db' first.keyed b done))
      ]

-- The rest of the store does not count.
pub same-Kept :
    (a b c : Store)
    → c.merchants ≡ b.merchants
    → c.commission_records ≡ b.commission_records
    → Kept a b
    → Kept a c
same-Kept a b c h k kept = record {
  keyed = subst IsKeyed (sym k) kept.keyed;
  each = λ i. rw (h, k) (kept.each i);
  sum = rw (h) kept.sum;
}

count_use-merchants : (code : Option ℕ) (db : Store) → (count_use code db).merchants ≡ db.merchants
count_use-merchants none db = refl
count_use-merchants (some code) db = ground arith

pub count_use-commission_records :
    (code : Option ℕ) (db : Store) → (count_use code db).commission_records ≡ db.commission_records
count_use-commission_records none db = refl
count_use-commission_records (some code) db = ground arith

module _ (commission : ℤ → ℕ → ℤ) (fresh : ℕ → ℕ) (order_id : ℕ) where
  settle_in-Kept :
      (o : Order) (source : ℕ) (l : Level) (ls : List Level) (db : Store)
      → IsKeyed db.commission_records
      → (u : Unit) → (settle_in commission fresh order_id o source l ls db).0 ≡ ok u
      → Kept db (settle_in commission fresh order_id o source l ls db).1
  unfolding settle_in
  settle_in-Kept o source l ls db keyed u h =
      let after = settle_levels commission fresh order_id source o.total_amount (l ∷ ls) db in
      let left = (settle_in commission fresh order_id o source l ls db).1 in
      elim (Option-cases (find_first (settled_for order_id) db.commission_records)) [
        | inr (row, there) ↦
            let same : left ≡ db = ground arith in subst (Kept db) (sym same) (Kept-refl db keyed)
        | inl fresh_order ↦ elim (Result-cases after.0) [
          | inr failed ↦ absurd (ground arith)
          | inl (a, done) ↦
              same-Kept db after.1 left
                (ground (arith, count_use-merchants o.used_invite_code after.1))
                (ground (arith, count_use-commission_records o.used_invite_code after.1))
                (settle_levels-Kept commission fresh order_id source o.total_amount (l ∷ ls) db
                  keyed a done)
        ]
      ]

  settle_chain-Kept :
      (o : Order) (source : ℕ) (ls : List Level) (db : Store)
      → IsKeyed db.commission_records
      → Kept db (settle_chain commission fresh order_id o source ls db).1
  unfolding settle_chain
  settle_chain-Kept o source [] db keyed = Kept-refl db keyed
  settle_chain-Kept o source (l ∷ ls) db keyed =
      let run = settle_in commission fresh order_id o source l ls db in
      let left = (settle_chain commission fresh order_id o source (l ∷ ls) db).1 in
      elim (Result-cases run.0) [
        | inl (u, done) ↦
            let same : left ≡ run.1 = ground arith in
            subst (Kept db) (sym same) (settle_in-Kept o source l ls db keyed u done)
        | inr (e, failed) ↦
            let same : left ≡ db = ground arith in subst (Kept db) (sym same) (Kept-refl db keyed)
      ]

  -- The listener comes to the levels of the order, or it writes nothing.
  pub handle_order_paid-left :
      (db : Store)
      → ((handle_order_paid commission fresh order_id db).1 ≡ db)
        ⊎ ((o : Order) × (source : ℕ) × (ls : List Level) × ((handle_order_paid commission fresh
                order_id db).1
              ≡ (settle_chain commission fresh order_id o source ls db).1))
  unfolding handle_order_paid settle_commission
  handle_order_paid-left db = elim (Option-cases (find order_id db.orders)) [
    | inl missing ↦ inl (ground arith)
    | inr (o, there) ↦ elim (Option-cases (find o.shop_id db.shops)) [
      | inl missing ↦ inl (ground arith)
      | inr (s, its_shop) ↦ elim (Option-cases (find s.merchant_id db.merchants)) [
        | inl missing ↦ inl (ground arith)
        | inr (m, its_merchant) ↦ elim (Bool-cases (leb_ℤ o.total_amount (pos 0))) [
          | inl e ↦ inl (ground arith)
          | inr e ↦
              let ls = levels_of o s.merchant_id m db in
              elim (Result-cases (settle_chain commission fresh order_id o s.merchant_id ls db).0) [
                | inl (u, done) ↦ inr (o, s.merchant_id, ls, ground arith)
                | inr (e, failed) ↦ inr (o, s.merchant_id, ls, ground arith)
              ]
        ]
      ]
    ]
  ]

  pub handle_order_paid-Kept :
      (db : Store)
      → IsKeyed db.commission_records
      → Kept db (handle_order_paid commission fresh order_id db).1
  handle_order_paid-Kept db keyed = elim (handle_order_paid-left db) [
    | inl same ↦ subst (Kept db) (sym same) (Kept-refl db keyed)
    | inr (o, source, ls, same) ↦
        subst (Kept db) (sym same) (settle_chain-Kept o source ls db keyed)
  ]

  settle_chain_again :
      (o : Order) (source : ℕ) (ls : List Level) (db : Store) (row : ℕ × CommissionRecord)
      → find_first (settled_for order_id) db.commission_records ≡ some row
      → (settle_chain commission fresh order_id o source ls db).1 ≡ db
  unfolding settle_chain settle_in
  settle_chain_again o source [] db row there = refl
  settle_chain_again o source (l ∷ ls) db row there = ground arith

  -- A payment that is signalled again, for an order that has a settled commission record, writes
  -- nothing: no commission is paid twice, and no code is counted twice.
  pub handle_order_paid_again :
      (db : Store) (row : ℕ × CommissionRecord)
      → find_first (settled_for order_id) db.commission_records ≡ some row
      → (handle_order_paid commission fresh order_id db).1 ≡ db
  handle_order_paid_again db row there = elim (handle_order_paid-left db) [
    | inl same ↦ same
    | inr (o, source, ls, same) ↦ same ∙ settle_chain_again o source ls db row there
  ]
