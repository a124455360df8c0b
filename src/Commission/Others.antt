-- ===== src/Commission/Others.antt =====
-- The commissions of the other orders, while one is settled.
use winmelon_card.Base.{
  ℕ, ◌≡◌, refl, sym, ◌∙◌, ap, inl, inr, true, false, ◌&&◌, none, List, [], ◌∷◌, ◌==◌, ==_refl,
  if◌then◌else◌, arith, Bool-cases, Option-cases,
}
use winmelon_card.Base.Int.{ℤ, pos, ◌+ℤ◌, ◌-ℤ◌, leb_ℤ, int_laws}
use winmelon_card.Base.Table.{Table, find_first, total}
use winmelon_card.Base.Result.{ok, Result-cases}
use winmelon_card.Schema.{Order, CommissionRecord}
use winmelon_card.Schema.Store.{Store}
use winmelon_card.Commission.{
  settle_levels, settle_in, settle_chain, handle_order_paid, Level, new_record, is_settled,
  settled_for,
}
use winmelon_card.Commission.Ledger.{amount_if, gain, commissions}
use winmelon_card.Commission.Kept.{one_settled}
use winmelon_card.Commission.Settled.{
  settle_levels_rows, settle_levels-step, handle_order_paid-left, count_use-commission_records,
}

abbrev pub other_gain : ℕ → ℕ → ℕ → CommissionRecord → ℤ
other_gain order_id i id r = if r.order_id == order_id then pos 0 else gain i id r

-- What the settled records of all other orders have brought a merchant.
abbrev pub others : ℕ → ℕ → Table CommissionRecord → ℤ
others order_id i rs = total (other_gain order_id i) rs

zero_diff : pos 0 -ℤ pos 0 ≡ pos 0
zero_diff = omega int_laws

zero_sum : (a : ℤ) → pos 0 +ℤ a ≡ a
zero_sum a = omega int_laws

gain-reversed :
    (i id : ℕ) (r : CommissionRecord) → is_settled r.status ≡ false → gain i id r ≡ pos 0
gain-reversed i id r h =
    ap
      (λ b.
        amount_if (b && r.inviter_merchant_id == i) r.amount
        -ℤ amount_if (b && r.source_merchant_id == i) r.amount)
      h
    ∙ zero_diff

pub the_zero :
    (order_id i id : ℕ) (r : CommissionRecord)
    → (r.order_id == order_id) ≡ true
    → other_gain order_id i id r ≡ pos 0
the_zero order_id i id r e = ap (λ b. if b then pos 0 else gain i id r) e

-- An order without settled records has brought nothing.
pub others-commissions :
    (order_id i : ℕ) (rs : Table CommissionRecord)
    → find_first (settled_for order_id) rs ≡ none
    → others order_id i rs ≡ commissions i rs
others-commissions order_id i [] h = refl
others-commissions order_id i ((id, r) ∷ rs) h = elim (Bool-cases (r.order_id == order_id)) [
  | inr e ↦
      let rest = others-commissions order_id i rs (ground arith) in
      let same : other_gain order_id i id r ≡ gain i id r = ground arith in
      ap (λ x. x +ℤ others order_id i rs) same ∙ ap (λ x. gain i id r +ℤ x) rest
  | inl e ↦
      let off : is_settled r.status ≡ false = elim (Bool-cases (is_settled r.status)) [
        | inl f ↦ absurd (ground arith)
        | inr f ↦ f
      ] in
      let rest = others-commissions order_id i rs (ground arith) in
      let same : other_gain order_id i id r ≡ gain i id r =
        the_zero order_id i id r e ∙ sym (gain-reversed i id r off) in
      ap (λ x. x +ℤ others order_id i rs) same ∙ ap (λ x. gain i id r +ℤ x) rest
]

-- The two stores have the same commissions of all other orders.
abbrev pub IsOrderOnly : ℕ → Store → Store → Type 0
IsOrderOnly order_id a b =
    (i : ℕ) → others order_id i b.commission_records ≡ others order_id i a.commission_records

module _ (commission : ℤ → ℕ → ℤ) (fresh : ℕ → ℕ) (order_id : ℕ) where
  settle_levels-IsOrderOnly :
      (source : ℕ) (base : ℤ) (ls : List Level) (db : Store) (a : ℤ)
      → (settle_levels commission fresh order_id source base ls db).0 ≡ ok a
      → IsOrderOnly order_id db (settle_levels commission fresh order_id source base ls db).1
  unfolding settle_levels
  settle_levels-IsOrderOnly source base [] db a h i = refl
  settle_levels-IsOrderOnly source base (l ∷ ls) db a h i =
      elim (Bool-cases (leb_ℤ (commission base l.rate) (pos 0))) [
        | inl e ↦
            let same : settle_levels commission fresh order_id source base (l ∷ ls) db
                ≡ settle_levels commission fresh order_id source base ls db =
              ground arith in
            ap (λ y. others order_id i y.1.commission_records) same
            ∙ settle_levels-IsOrderOnly source base ls db a (ground arith) i
        | inr e ↦
            let (new, (m, from), (m', to)) =
              settle_levels_rows commission fresh order_id source base l ls db e a h in
            let ((b, done), same) =
              settle_levels-step commission fresh order_id source base l ls db m m' e new from to a
                h in
            let amount = commission base l.rate in
            let db' = one_settled (fresh l.level) order_id source base l amount db in
            let r = new_record order_id source base l amount in
            ap (λ y. others order_id i y.commission_records) same
            ∙ settle_levels-IsOrderOnly source base ls db' b done i
            ∙ ap (λ x. x +ℤ others order_id i db.commission_records)
                (the_zero order_id i (fresh l.level) r (==_refl order_id))
            ∙ zero_sum (others order_id i db.commission_records)
      ]

  settle_in-IsOrderOnly :
      (o : Order) (source : ℕ) (l : Level) (ls : List Level) (db : Store) (u : Unit)
      → (settle_in commission fresh order_id o source l ls db).0 ≡ ok u
      → IsOrderOnly order_id db (settle_in commission fresh order_id o source l ls db).1
  unfolding settle_in
  settle_in-IsOrderOnly o source l ls db u h i =
      let after = settle_levels commission fresh order_id source o.total_amount (l ∷ ls) db in
      let left = (settle_in commission fresh order_id o source l ls db).1 in
      elim (Option-cases (find_first (settled_for order_id) db.commission_records)) [
        | inr (row, there) ↦
            let same : left ≡ db = ground arith in
            ap (λ y. others order_id i y.commission_records) same
        | inl fresh_order ↦ elim (Result-cases after.0) [
          | inr failed ↦ absurd (ground arith)
          | inl (a, done) ↦
              let same : left.commission_records ≡ after.1.commission_records =
                ground (arith, count_use-commission_records o.used_invite_code after.1) in
              ap (others order_id i) same
              ∙ settle_levels-IsOrderOnly source o.total_amount (l ∷ ls) db a done i
        ]
      ]

  settle_chain-IsOrderOnly :
      (o : Order) (source : ℕ) (ls : List Level) (db : Store)
      → IsOrderOnly order_id db (settle_chain commission fresh order_id o source ls db).1
  unfolding settle_chain
  settle_chain-IsOrderOnly o source [] db i = refl
  settle_chain-IsOrderOnly o source (l ∷ ls) db i =
      let run = settle_in commission fresh order_id o source l ls db in
      let left = (settle_chain commission fresh order_id o source (l ∷ ls) db).1 in
      elim (Result-cases run.0) [
        | inl (u, done) ↦
            let same : left ≡ run.1 = ground arith in
            ap (λ y. others order_id i y.commission_records) same
            ∙ settle_in-IsOrderOnly o source l ls db u done i
        | inr (e, failed) ↦
            let same : left ≡ db = ground arith in
            ap (λ y. others order_id i y.commission_records) same
      ]

  pub handle_order_paid-IsOrderOnly :
      (db : Store) → IsOrderOnly order_id db (handle_order_paid commission fresh order_id db).1
  handle_order_paid-IsOrderOnly db i = elim (handle_order_paid-left commission fresh order_id db) [
    | inl same ↦ ap (λ y. others order_id i y.commission_records) same
    | inr (o, source, ls, same) ↦
        ap (λ y. others order_id i y.commission_records) same
        ∙ settle_chain-IsOrderOnly o source ls db i
  ]
