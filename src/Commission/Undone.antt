-- ===== src/Commission/Undone.antt =====
-- The settlement of an order and its reversal.
use winmelon_card.Base.{
  ℕ, ◌≡◌, refl, sym, ◌∙◌, ap, subst, inl, inr, true, false, none, some, [], ◌∷◌, ◌==◌, ==_iff,
  arith, Bool-cases,
}
use winmelon_card.Base.Int.{ℤ, pos, ◌+ℤ◌, int_laws}
use winmelon_card.Base.Table.{
  Table, find, find_first, find_many, adjust, total-adjust, IsKeyed, adjust-IsKeyed,
}
use winmelon_card.Base.Rows.{AreRows, find_many-AreRows}
use winmelon_card.Base.Result.{ok, Result-cases}
use winmelon_card.Schema.{CommissionRecord}
use winmelon_card.Schema.Store.{Store}
use winmelon_card.Commission.{handle_order_paid, settled_for}
use winmelon_card.Commission.Reversal.{
  set_reversed, reverse_records, reverse_in, reverse_commission,
}
use winmelon_card.Commission.Ledger.{balance_of, commissions}
use winmelon_card.Commission.Kept.{Kept-trans, one_reversed}
use winmelon_card.Commission.Settled.{handle_order_paid-Kept}
use winmelon_card.Commission.Reversed.{reverse_records_rows, reverse_commission-Kept}
use winmelon_card.Commission.Others.{
  other_gain, others, the_zero, others-commissions, IsOrderOnly, handle_order_paid-IsOrderOnly,
}

same_zeros : (a b x y : ℤ) → a +ℤ x ≡ b +ℤ y → x ≡ pos 0 → y ≡ pos 0 → a ≡ b
same_zeros a b x y h k l = grind (int_laws, h, k, l)

module _ (order_id : ℕ) where
  find_many-head :
      (t rs : Table CommissionRecord) (id : ℕ) (r : CommissionRecord)
      → find_many (settled_for order_id) t ≡ (id, r) ∷ rs
      → settled_for order_id id r ≡ true
  find_many-head [] rs id r h = absurd (ground arith)
  find_many-head ((j, b) ∷ t) rs id r h = elim (Bool-cases (settled_for order_id j b)) [
    | inl e ↦ ground arith
    | inr e ↦ find_many-head t rs id r (ground arith)
  ]

  find_many-find :
      (t rs : Table CommissionRecord) (id : ℕ) (r : CommissionRecord)
      → IsKeyed t
      → find_many (settled_for order_id) t ≡ (id, r) ∷ rs
      → find id t ≡ some r
  find_many-find t rs id r keyed h =
      (subst (λ x. AreRows x t) h (find_many-AreRows (settled_for order_id) t keyed)).0

  find_many-adjust :
      (now : ℕ) (t rs : Table CommissionRecord) (id : ℕ) (r : CommissionRecord)
      → IsKeyed t
      → find_many (settled_for order_id) t ≡ (id, r) ∷ rs
      → find_many (settled_for order_id) (adjust id (set_reversed now) t) ≡ rs
  find_many-adjust now [] rs id r keyed h = absurd (ground arith)
  find_many-adjust now ((j, b) ∷ t) rs id r (new, keyed) h =
      elim (Bool-cases (settled_for order_id j b)) [
        | inl e ↦
            let off : settled_for order_id j (set_reversed now b) ≡ false =
              elim (Bool-cases (b.order_id == order_id)) [
                | inl f ↦ ground arith
                | inr f ↦ ground arith
              ] in
            let tail : find_many (settled_for order_id) t ≡ rs = ground arith in
            ground (arith, ==_iff j id)
        | inr e ↦
            let later : find_many (settled_for order_id) t ≡ (id, r) ∷ rs = ground arith in
            let here = find_many-find t rs id r keyed later in
            let other : (j == id) ≡ false = elim (Bool-cases (j == id)) [
              | inl f ↦ absurd (ground (arith, ==_iff j id))
              | inr f ↦ f
            ] in
            ground (arith, find_many-adjust now t rs id r keyed later)
      ]

  adjust-others :
      (now i : ℕ) (t : Table CommissionRecord) (id : ℕ) (r : CommissionRecord)
      → find id t ≡ some r
      → (r.order_id == order_id) ≡ true
      → others order_id i (adjust id (set_reversed now) t) ≡ others order_id i t
  adjust-others now i t id r here mine =
      let step = total-adjust (other_gain order_id i) id (set_reversed now) t r here in
      let before = the_zero order_id i id r mine in
      let after = the_zero order_id i id (set_reversed now r) mine in
      same_zeros (others order_id i (adjust id (set_reversed now) t)) (others order_id i t)
        (other_gain order_id i id r) (other_gain order_id i id (set_reversed now r)) step before
        after

  reverse_records-none :
      (rs : Table CommissionRecord) (now : ℕ) (db : Store) (u : Unit)
      → IsKeyed db.commission_records
      → find_many (settled_for order_id) db.commission_records ≡ rs
      → (reverse_records rs now db).0 ≡ ok u
      → (find_many (settled_for order_id) (reverse_records rs now db).1.commission_records ≡ [])
        × IsOrderOnly order_id db (reverse_records rs now db).1
  unfolding reverse_records
  reverse_records-none [] now db u keyed all h = (all, λ i. refl)
  reverse_records-none ((id, r) ∷ rs) now db u keyed all h =
      let t = db.commission_records in
      let (from, to, same) = reverse_records_rows id r rs now db u h in
      let db' = one_reversed id r now db in
      let here = find_many-find t rs id r keyed all in
      let head = find_many-head t rs id r all in
      let mine : (r.order_id == order_id) ≡ true = elim (Bool-cases (r.order_id == order_id)) [
        | inl e ↦ e
        | inr e ↦ absurd (ground arith)
      ] in
      let (gone, only) =
        reverse_records-none rs now db' u (adjust-IsKeyed id (set_reversed now) t keyed)
          (find_many-adjust now t rs id r keyed all) (ap (λ y. y.0) (sym same) ∙ h) in
      (
        ap (λ y. find_many (settled_for order_id) y.1.commission_records) same ∙ gone,
        λ i.
            ap (λ y. others order_id i y.1.commission_records) same
            ∙ only i
            ∙ adjust-others now i t id r here mine,
      )

  find_first-none :
      (t : Table CommissionRecord)
      → find_many (settled_for order_id) t ≡ []
      → find_first (settled_for order_id) t ≡ none
  find_first-none [] h = refl
  find_first-none ((j, b) ∷ t) h = elim (Bool-cases (settled_for order_id j b)) [
    | inl e ↦ absurd (ground arith)
    | inr e ↦ ground (arith, find_first-none t (ground arith))
  ]

  reverse_commission-none :
      (now : ℕ) (db : Store)
      → IsKeyed db.commission_records
      → (reverse_commission order_id now db).0 ≡ ok tt
      → (find_many (settled_for order_id) (reverse_commission order_id now db).1.commission_records
          ≡ [])
        × IsOrderOnly order_id db (reverse_commission order_id now db).1
  unfolding reverse_commission reverse_in
  reverse_commission-none now db keyed done =
      let rs = find_many (settled_for order_id) db.commission_records in
      let run = reverse_records rs now db in
      elim (Result-cases run.0) [
        | inr (e, failed) ↦ absurd (ground arith)
        | inl (u, ran) ↦
            let (gone, only) = reverse_records-none rs now db u keyed refl ran in
            let same : (reverse_commission order_id now db).1.commission_records
                ≡ run.1.commission_records =
              ground arith in
            (
              ap (find_many (settled_for order_id)) same ∙ gone,
              λ i. ap (others order_id i) same ∙ only i,
            )
      ]

cancel_same : (a b x y : ℤ) → b +ℤ x ≡ a +ℤ y → y ≡ x → b ≡ a
cancel_same a b x y h k = grind (int_laws, h, k)

-- The commission service settles an order that has no settled commission record, in a store whose
-- records have distinct identifiers, and then reverses the commissions of the order, where the
-- reversal goes through: every merchant has the balance that it had before the settlement, whatever
-- was settled. The payout of a refund is not among these calls.
pub reverse_commission-handle_order_paid :
    (commission : ℤ → ℕ → ℤ) (fresh : ℕ → ℕ) (order_id now i : ℕ) (db : Store)
    → IsKeyed db.commission_records
    → find_first (settled_for order_id) db.commission_records ≡ none
    → (reverse_commission order_id now (handle_order_paid commission fresh order_id db).1).0 ≡ ok tt
    → balance_of i
        (reverse_commission order_id now
          (handle_order_paid commission fresh order_id db).1).1.merchants
      ≡ balance_of i db.merchants
reverse_commission-handle_order_paid commission fresh order_id now i db keyed new done =
    let paid = (handle_order_paid commission fresh order_id db).1 in
    let back = (reverse_commission order_id now paid).1 in
    let first = handle_order_paid-Kept commission fresh order_id db keyed in
    let both =
      Kept-trans db paid back first (reverse_commission-Kept order_id now paid first.keyed) in
    let (gone, only) = reverse_commission-none order_id now paid first.keyed done in
    let level : commissions i back.commission_records ≡ commissions i db.commission_records =
      sym (
        others-commissions order_id i back.commission_records
          (find_first-none order_id back.commission_records gone))
      ∙ only i
      ∙ handle_order_paid-IsOrderOnly commission fresh order_id db i
      ∙ others-commissions order_id i db.commission_records new in
    cancel_same (balance_of i db.merchants) (balance_of i back.merchants)
      (commissions i db.commission_records) (commissions i back.commission_records) (both.each i)
      level
