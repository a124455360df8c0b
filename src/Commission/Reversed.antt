-- ===== src/Commission/Reversed.antt =====
-- The reversal of an order's commissions: what it writes.
use winmelon_card.Base.{
  ℕ, ◌≡◌, refl, sym, ◌∙◌, ap, subst, inl, inr, true, some, List, [], ◌∷◌, arith, ◌==◌, ==_iff,
  Bool-cases, Option-cases,
}
use winmelon_card.Base.Int.{ℤ}
use winmelon_card.Base.Table.{Table, find, find_many, adjust, total, IsKeyed}
use winmelon_card.Base.Rows.{AreRows, adjust-AreRows, find_many-AreRows}
use winmelon_card.Base.Result.{ok, Result-cases}
use winmelon_card.Schema.{Merchant, CommissionRecord}
use winmelon_card.Schema.Store.{Store}
use winmelon_card.Commission.{deduct, is_settled, settled_for}
use winmelon_card.Commission.Reversal.{
  set_reversed, reverse_records, inviters_of, set_suspended, suspend, suspend_all, reverse_in,
  reverse_commission, handle_order_refunded,
}
use winmelon_card.Commission.Ledger.{balance_of, all_balances, balance_of-adjust}
use winmelon_card.Commission.Kept.{Kept, Kept-refl, Kept-trans, one_reversed, one_reversed-Kept}

abbrev pub AreSettled : Table CommissionRecord → Type 0
AreSettled [] = Unit
AreSettled ((id, r) ∷ rs) = (is_settled r.status ≡ true) × AreSettled rs

find_many-AreSettled :
    (order_id : ℕ) (t : Table CommissionRecord) → AreSettled (find_many (settled_for order_id) t)
find_many-AreSettled order_id [] = tt
find_many-AreSettled order_id ((j, r) ∷ t) =
    let rs = find_many (settled_for order_id) t in
    let rest = find_many-AreSettled order_id t in
    elim (Bool-cases (settled_for order_id j r)) [
      | inr e ↦
          let same : find_many (settled_for order_id) ((j, r) ∷ t) ≡ rs = ground arith in
          subst AreSettled (sym same) rest
      | inl e ↦
          let same : find_many (settled_for order_id) ((j, r) ∷ t) ≡ (j, r) ∷ rs = ground arith in
          subst AreSettled (sym same) (ground arith, rest)
    ]

-- A record that was reversed: both merchants are there.
pub reverse_records_rows :
    (id : ℕ) (r : CommissionRecord) (rs : Table CommissionRecord) (now : ℕ) (db : Store) (u : Unit)
    → (reverse_records ((id, r) ∷ rs) now db).0 ≡ ok u
    → ((m : Merchant) × (find r.inviter_merchant_id db.merchants ≡ some m))
      × ((m : Merchant) × (find r.source_merchant_id
              (adjust r.inviter_merchant_id (deduct r.amount) db.merchants)
            ≡ some m))
      × (reverse_records ((id, r) ∷ rs) now db ≡ reverse_records rs now (one_reversed id r now db))
unfolding reverse_records
reverse_records_rows id r rs now db u h =
    elim (Option-cases (find r.inviter_merchant_id db.merchants)) [
      | inl missing ↦ absurd (ground arith)
      | inr (m, from) ↦
          elim (Option-cases (
            find r.source_merchant_id
              (adjust r.inviter_merchant_id (deduct r.amount) db.merchants))) [
                | inl missing ↦ absurd (ground arith)
                | inr (m', to) ↦ ((m, from), (m', to), ground arith)
              ]
    ]

reverse_records-Kept :
    (rs : Table CommissionRecord) (now : ℕ) (db : Store) (u : Unit)
    → IsKeyed db.commission_records
    → AreRows rs db.commission_records
    → AreSettled rs
    → (reverse_records rs now db).0 ≡ ok u
    → Kept db (reverse_records rs now db).1
unfolding reverse_records
reverse_records-Kept [] now db u keyed rows settled h = Kept-refl db keyed
reverse_records-Kept ((id, r) ∷ rs) now db u keyed (here, once, rest) (settled, others) h =
    let ((m, from), (m', to), same) = reverse_records_rows id r rs now db u h in
    let first = one_reversed-Kept id r now db m m' keyed here settled from to in
    let db' = one_reversed id r now db in
    let later = adjust-AreRows id (set_reversed now) rs db.commission_records once rest in
    subst (λ y. Kept db y.1) (sym same)
      (Kept-trans db db' (reverse_records rs now db').1 first
        (reverse_records-Kept rs now db' u first.keyed later others (ap (λ y. y.0) (sym same) ∙ h)))

total-adjust_same :
    (g : ℕ → Merchant → ℤ) (k : ℕ) (f : Merchant → Merchant) (ms : Table Merchant)
    → ((i : ℕ) (m : Merchant) → g i (f m) ≡ g i m)
    → total g (adjust k f ms) ≡ total g ms
total-adjust_same g k f [] same = refl
total-adjust_same g k f ((j, m) ∷ ms) same = elim (Bool-cases (j == k)) [
  | inl e ↦ ground (arith, same j m)
  | inr e ↦ ground (arith, total-adjust_same g k f ms same)
]

balance_of-suspend :
    (i now k : ℕ) (ms : Table Merchant) → balance_of i (suspend now k ms) ≡ balance_of i ms
balance_of-suspend i now k ms = elim (Option-cases (find k ms)) [
  | inl missing ↦ ground arith
  | inr (m, here) ↦
      let step = balance_of-adjust i k (set_suspended now) ms m here in
      elim (Bool-cases (k == i)) [ inl e ↦ ground (arith, ==_iff k i) | inr e ↦ ground arith ]
]

balance_of-suspend_all :
    (i now : ℕ) (ks : List ℕ) (ms : Table Merchant)
    → balance_of i (suspend_all now ks ms) ≡ balance_of i ms
balance_of-suspend_all i now [] ms = refl
balance_of-suspend_all i now (k ∷ ks) ms =
    balance_of-suspend_all i now ks (suspend now k ms) ∙ balance_of-suspend i now k ms

all_balances-suspend :
    (now k : ℕ) (ms : Table Merchant) → all_balances (suspend now k ms) ≡ all_balances ms
all_balances-suspend now k ms =
    let same = total-adjust_same (λ i m. m.balance) k (set_suspended now) ms (λ i m. refl) in
    elim (Option-cases (find k ms)) [ inl missing ↦ ground arith | inr (m, here) ↦ ground arith ]

all_balances-suspend_all :
    (now : ℕ) (ks : List ℕ) (ms : Table Merchant)
    → all_balances (suspend_all now ks ms) ≡ all_balances ms
all_balances-suspend_all now [] ms = refl
all_balances-suspend_all now (k ∷ ks) ms =
    all_balances-suspend_all now ks (suspend now k ms) ∙ all_balances-suspend now k ms

suspended-Kept :
    (now : ℕ) (ks : List ℕ) (a b : Store)
    → Kept a b
    → Kept a (record b { merchants = suspend_all now ks b.merchants })
suspended-Kept now ks a b kept = record {
  keyed = kept.keyed;
  each = λ i. rw (balance_of-suspend_all i now ks b.merchants) (kept.each i);
  sum = all_balances-suspend_all now ks b.merchants ∙ kept.sum;
}

-- The listener of a refund leaves what the transaction leaves.
pub handle_order_refunded-left :
    (order_id now : ℕ) (db : Store)
    → (handle_order_refunded order_id now db).1 ≡ (reverse_commission order_id now db).1
unfolding handle_order_refunded
handle_order_refunded-left order_id now db =
    elim (Result-cases (reverse_commission order_id now db).0) [
      | inl (u, done) ↦ ground arith
      | inr (e, failed) ↦ ground arith
    ]

pub reverse_commission-Kept :
    (order_id now : ℕ) (db : Store)
    → IsKeyed db.commission_records
    → Kept db (reverse_commission order_id now db).1
unfolding reverse_commission reverse_in
reverse_commission-Kept order_id now db keyed =
    let rs = find_many (settled_for order_id) db.commission_records in
    let run = reverse_records rs now db in
    elim (Result-cases run.0) [
      | inr (e, failed) ↦
          let same : (reverse_commission order_id now db).1 ≡ db = ground arith in
          subst (Kept db) (sym same) (Kept-refl db keyed)
      | inl (u, done) ↦
          let after = record run.1 {
            merchants = suspend_all now (inviters_of rs []) run.1.merchants;
          } in
          let same : (reverse_commission order_id now db).1 ≡ after = ground arith in
          let kept =
            reverse_records-Kept rs now db u keyed
              (find_many-AreRows (settled_for order_id) db.commission_records keyed)
              (find_many-AreSettled order_id db.commission_records) done in
          subst (Kept db) (sym same) (suspended-Kept now (inviters_of rs []) db run.1 kept)
    ]

pub handle_order_refunded-Kept :
    (order_id now : ℕ) (db : Store)
    → IsKeyed db.commission_records
    → Kept db (handle_order_refunded order_id now db).1
handle_order_refunded-Kept order_id now db keyed =
    subst (Kept db) (sym (handle_order_refunded-left order_id now db))
      (reverse_commission-Kept order_id now db keyed)
