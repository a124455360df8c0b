-- ===== src/Commission/Balance.antt =====
-- Commissions over the whole life of the shop: any payments and refunds, signalled in any order.
use winmelon_card.Base.{
  ℕ, ◌≡◌, refl, subst, inl, inr, true, none, some, List, [], ◌∷◌, arith, ==_iff, Option-cases,
}
use winmelon_card.Base.Int.{ℤ, leb_ℤ}
use winmelon_card.Base.Table.{find, find_first, find_many, IsKeyed}
use winmelon_card.Base.Result.{ok}
use winmelon_card.Schema.{Merchant, Order, Shop, CommissionRecord}
use winmelon_card.Schema.Store.{Store}
use winmelon_card.Commission.{
  handle_order_paid, settle_commission, settle_chain, code_levels, levels_of, settled_for, by_code,
  negative_balance_threshold,
}
use winmelon_card.Commission.Reversal.{
  handle_order_refunded, reverse_commission, reverse_in, reverse_records, inviters_of, suspend_all,
}
use winmelon_card.Commission.Kept.{Kept, Kept-refl, Kept-trans}
use winmelon_card.Commission.Settled.{handle_order_paid-Kept}
use winmelon_card.Commission.Reversed.{handle_order_refunded-Kept}
use winmelon_card.Commission.Suspension.{IsSuspended, suspend_all-AllFused, includes-inviters_of}

-- The events that the listeners wait for: the order, with the identifiers of the records that the
-- database makes at each level, or with the time of the refund.
pub data Signal : Type 0 where
  paid : (ℕ → ℕ) → ℕ → Signal
  refunded : ℕ → ℕ → Signal

module _ (commission : ℤ → ℕ → ℤ) where
  abbrev pub handle : Signal → Store → Store
  handle (Signal.paid fresh order_id) db = (handle_order_paid commission fresh order_id db).1
  handle (Signal.refunded order_id now) db = (handle_order_refunded order_id now db).1

  abbrev pub handle_all : List Signal → Store → Store
  handle_all [] db = db
  handle_all (s ∷ ss) db = handle_all ss (handle s db)

  handle-Kept : (s : Signal) (db : Store) → IsKeyed db.commission_records → Kept db (handle s db)
  handle-Kept (Signal.paid fresh order_id) db keyed =
      handle_order_paid-Kept commission fresh order_id db keyed
  handle-Kept (Signal.refunded order_id now) db keyed =
      handle_order_refunded-Kept order_id now db keyed

  -- Whatever payments and refunds are signalled, in whatever order and however often, and whichever
  -- of them fail: each merchant's balance changes by exactly what its settled commission records
  -- change by (what it receives as inviter less what it pays as source), and the sum of all balances
  -- stays the same, if the records have distinct identifiers at the start; and so they have in the end.
  pub handle_all-Kept :
      (ss : List Signal) (db : Store) → IsKeyed db.commission_records → Kept db (handle_all ss db)
  handle_all-Kept [] db keyed = Kept-refl db keyed
  handle_all-Kept (s ∷ ss) db keyed =
      let first = handle-Kept s db keyed in
      Kept-trans db (handle s db) (handle_all ss (handle s db)) first
        (handle_all-Kept ss (handle s db) first.keyed)

code_levels_own : (code source : ℕ) (m : Merchant) (db : Store) → code_levels code source m db ≡ []
code_levels_own code source m db = elim (Option-cases (find_first (by_code code) db.invite_codes)) [
  | inl missing ↦ ground arith
  | inr ((id, c), there) ↦
      ground (arith, ==_iff c.inviter_merchant_id source, ==_iff source c.inviter_merchant_id)
]

-- The sale of a merchant that nobody invited pays no commission, and counts no use of a code,
-- whichever code the buyer entered: the second path asks that the code be the shop's own, and then
-- that it be not.
pub handle_order_paid_uninvited :
    (commission : ℤ → ℕ → ℤ) (fresh : ℕ → ℕ) (order_id : ℕ) (db : Store) (o : Order) (s : Shop)
    (m : Merchant)
    → find order_id db.orders ≡ some o
    → find o.shop_id db.shops ≡ some s
    → find s.merchant_id db.merchants ≡ some m
    → m.inviter_merchant_id ≡ none
    → handle_order_paid commission fresh order_id db ≡ (ok tt, db)
unfolding handle_order_paid settle_commission settle_chain
handle_order_paid_uninvited commission fresh order_id db o s m there its_shop its_merchant alone =
    let nobody : levels_of o s.merchant_id m db ≡ [] = elim (Option-cases o.used_invite_code) [
      | inl missing ↦ ground arith
      | inr (code, e) ↦ ground (arith, code_levels_own code s.merchant_id m db)
    ] in
    ground arith

-- After a reversal that goes through, the inviter of each record that was settled for the order is
-- marked as suspended for distribution and for withdrawals and has the codes of buyers switched off,
-- if its balance is then -¥500 or lower.
pub reverse_commission-IsSuspended :
    (order_id now id : ℕ) (db : Store) (r : CommissionRecord) (m : Merchant)
    → (reverse_commission order_id now db).0 ≡ ok tt
    → find id (find_many (settled_for order_id) db.commission_records) ≡ some r
    → find r.inviter_merchant_id (reverse_commission order_id now db).1.merchants ≡ some m
    → leb_ℤ m.balance negative_balance_threshold ≡ true
    → IsSuspended m
unfolding reverse_commission reverse_in
reverse_commission-IsSuspended order_id now id db r m done row there low =
    let rs = find_many (settled_for order_id) db.commission_records in
    let run = reverse_records rs now db in
    let same : (reverse_commission order_id now db).1.merchants
        ≡ suspend_all now (inviters_of rs []) run.1.merchants =
      ground arith in
    suspend_all-AllFused now (inviters_of rs []) r.inviter_merchant_id run.1.merchants
      (includes-inviters_of id r rs [] row refl) m
      (subst (λ ms. find r.inviter_merchant_id ms ≡ some m) same there) low
