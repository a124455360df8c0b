-- ===== src/Commission/Kept.antt =====
-- Balances and commission records of a store, beside those of the store before a call.
use winmelon_card.Base.{ℕ, ◌≡◌, refl, ◌∙◌, ap, true, ◌&&◌, none, some, ◌==◌}
use winmelon_card.Base.Int.{ℤ, pos, ◌+ℤ◌, ◌-ℤ◌, int_laws}
use winmelon_card.Base.Table.{find, insert, adjust, total-adjust, IsKeyed, adjust-IsKeyed}
use winmelon_card.Schema.{Merchant, CommissionRecord}
use winmelon_card.Schema.Store.{Store}
use winmelon_card.Commission.{deduct, is_settled, new_record, Level}
use winmelon_card.Commission.Reversal.{set_reversed}
use winmelon_card.Commission.Ledger.{
  balance_of, all_balances, amount_if, gain, commissions, paid_over, balance_of-paid_over,
  all_balances-paid_over,
}

kept_twice : (a b c x y z : ℤ) → b +ℤ x ≡ a +ℤ y → c +ℤ y ≡ b +ℤ z → c +ℤ x ≡ a +ℤ z
kept_twice a b c x y z h k = grind (int_laws, h, k)

kept_settled : (a b s v x : ℤ) → b +ℤ s ≡ a +ℤ v → b +ℤ x ≡ a +ℤ ((v -ℤ s) +ℤ x)
kept_settled a b s v x h = grind (int_laws, h)

kept_reversed :
    (a b s v x y g : ℤ)
    → b +ℤ v ≡ a +ℤ s
    → y +ℤ g ≡ x +ℤ (pos 0 -ℤ pos 0)
    → g ≡ v -ℤ s
    → b +ℤ x ≡ a +ℤ y
kept_reversed a b s v x y g h k e = grind (int_laws, h, k, e)

-- What holds of the store after a call, beside the store before it.
pub record Kept (db db' : Store) : Type 0 where
  pub keyed : IsKeyed db'.commission_records
  pub each :
      (i : ℕ)
      → balance_of i db'.merchants +ℤ commissions i db.commission_records
        ≡ balance_of i db.merchants +ℤ commissions i db'.commission_records
  pub sum : all_balances db'.merchants ≡ all_balances db.merchants

pub Kept-refl : (db : Store) → IsKeyed db.commission_records → Kept db db
Kept-refl db keyed = record { keyed = keyed; each = λ i. refl; sum = refl }

pub Kept-trans : (a b c : Store) → Kept a b → Kept b c → Kept a c
Kept-trans a b c h k = record {
  keyed = k.keyed;
  each = λ i.
      kept_twice (balance_of i a.merchants) (balance_of i b.merchants) (balance_of i c.merchants)
        (commissions i a.commission_records) (commissions i b.commission_records)
        (commissions i c.commission_records) (h.each i) (k.each i);
  sum = k.sum ∙ h.sum;
}

-- The store once one level is settled.
abbrev pub one_settled : ℕ → ℕ → ℕ → ℤ → Level → ℤ → Store → Store
one_settled id order_id source base l a db = record db {
  commission_records = insert id (new_record order_id source base l a) db.commission_records;
  merchants = paid_over source l.inviter_id a db.merchants;
}

pub one_settled-Kept :
    (id order_id source : ℕ) (base : ℤ) (l : Level) (a : ℤ) (db : Store) (m m' : Merchant)
    → IsKeyed db.commission_records
    → find id db.commission_records ≡ none
    → find source db.merchants ≡ some m
    → find l.inviter_id (adjust source (deduct a) db.merchants) ≡ some m'
    → Kept db (one_settled id order_id source base l a db)
one_settled-Kept id order_id source base l a db m m' keyed fresh from to = record {
  keyed = (fresh, keyed);
  each = λ i.
      let moved = balance_of-paid_over i source l.inviter_id a db.merchants m m' from to in
      kept_settled (balance_of i db.merchants)
        (balance_of i (paid_over source l.inviter_id a db.merchants)) (amount_if (source == i) a)
        (amount_if (l.inviter_id == i) a) (commissions i db.commission_records) moved;
  sum = all_balances-paid_over source l.inviter_id a db.merchants m m' from to;
}

-- The store once one record is reversed.
abbrev pub one_reversed : ℕ → CommissionRecord → ℕ → Store → Store
one_reversed id r now db = record db {
  commission_records = adjust id (set_reversed now) db.commission_records;
  merchants = paid_over r.inviter_merchant_id r.source_merchant_id r.amount db.merchants;
}

gain-settled :
    (i id : ℕ) (r : CommissionRecord)
    → is_settled r.status ≡ true
    → gain i id r
      ≡ amount_if (r.inviter_merchant_id == i) r.amount
        -ℤ amount_if (r.source_merchant_id == i) r.amount
gain-settled i id r h =
    ap
      (λ b.
        amount_if (b && r.inviter_merchant_id == i) r.amount
        -ℤ amount_if (b && r.source_merchant_id == i) r.amount)
      h

pub one_reversed-Kept :
    (id : ℕ) (r : CommissionRecord) (now : ℕ) (db : Store) (m m' : Merchant)
    → IsKeyed db.commission_records
    → find id db.commission_records ≡ some r
    → is_settled r.status ≡ true
    → find r.inviter_merchant_id db.merchants ≡ some m
    → find r.source_merchant_id (adjust r.inviter_merchant_id (deduct r.amount) db.merchants)
      ≡ some m'
    → Kept db (one_reversed id r now db)
one_reversed-Kept id r now db m m' keyed here settled from to = record {
  keyed = adjust-IsKeyed id (set_reversed now) db.commission_records keyed;
  each = λ i.
      let moved =
        balance_of-paid_over i r.inviter_merchant_id r.source_merchant_id r.amount db.merchants m m'
          from to in
      let taken = total-adjust (gain i) id (set_reversed now) db.commission_records r here in
      let was = gain-settled i id r settled in
      kept_reversed (balance_of i db.merchants)
        (balance_of i (paid_over r.inviter_merchant_id r.source_merchant_id r.amount db.merchants))
        (amount_if (r.source_merchant_id == i) r.amount)
        (amount_if (r.inviter_merchant_id == i) r.amount) (commissions i db.commission_records)
        (commissions i (adjust id (set_reversed now) db.commission_records)) (gain i id r) moved
        taken was;
  sum =
      all_balances-paid_over r.inviter_merchant_id r.source_merchant_id r.amount db.merchants m m'
        from to;
}
