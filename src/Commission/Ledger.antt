-- ===== src/Commission/Ledger.antt =====
-- The balances of merchants beside the commissions that are settled between them.
use winmelon_card.Base.{
  ℕ, ◌≡◌, refl, sym, inl, inr, Bool, true, false, ◌&&◌, none, some, arith, ◌==◌, if◌then◌else◌,
  Bool-cases, ==_iff,
}
use winmelon_card.Base.Int.{ℤ, pos, ◌+ℤ◌, ◌-ℤ◌, int_laws, -ℤ+ℤ_cancel, +ℤ_zero}
use winmelon_card.Base.Table.{
  Table, find, adjust, total, total-adjust, find-adjust_self, find-adjust_ne,
}
use winmelon_card.Schema.{Merchant, CommissionRecord}
use winmelon_card.Commission.{deduct, credit, is_settled}

-- The balance of a merchant, 0 where there is none.
abbrev pub balance_of : ℕ → Table Merchant → ℤ
balance_of i ms = elim (find i ms) [ none ↦ pos 0 | some m ↦ m.balance ]

abbrev pub all_balances : Table Merchant → ℤ
all_balances ms = total (λ k m. m.balance) ms

abbrev pub amount_if : Bool → ℤ → ℤ
amount_if true a = a
amount_if false a = pos 0

-- What a settled record has brought a merchant: its amount to the inviter, out of the source.
abbrev pub gain : ℕ → ℕ → CommissionRecord → ℤ
gain i id r =
    amount_if (is_settled r.status && r.inviter_merchant_id == i) r.amount
    -ℤ amount_if (is_settled r.status && r.source_merchant_id == i) r.amount

abbrev pub commissions : ℕ → Table CommissionRecord → ℤ
commissions i rs = total (gain i) rs

-- `amount` goes from one merchant to another.
abbrev pub paid_over : ℕ → ℕ → ℤ → Table Merchant → Table Merchant
paid_over payer payee a ms = adjust payee (credit a) (adjust payer (deduct a) ms)

pub balance_of-adjust :
    (i k : ℕ) (f : Merchant → Merchant) (ms : Table Merchant) (m : Merchant)
    → find k ms ≡ some m
    → balance_of i (adjust k f ms) ≡ (if k == i then (f m).balance else balance_of i ms)
balance_of-adjust i k f ms m there = elim (Bool-cases (k == i)) [
  | inl e ↦ ground (arith, ==_iff k i, find-adjust_self k f ms m)
  | inr e ↦ ground (arith, ==_iff k i, find-adjust_ne i k f ms)
]

balance_of-deduct :
    (i k : ℕ) (a : ℤ) (ms : Table Merchant) (m : Merchant)
    → find k ms ≡ some m
    → balance_of i (adjust k (deduct a) ms) +ℤ amount_if (k == i) a ≡ balance_of i ms
balance_of-deduct i k a ms m there =
    let step = balance_of-adjust i k (deduct a) ms m there in
    elim (Bool-cases (k == i)) [
      | inl e ↦
          let same : balance_of i ms ≡ m.balance = ground (arith, ==_iff k i) in
          rw (step, e) (rw (same) (-ℤ+ℤ_cancel m.balance a))
      | inr e ↦ rw (step, e) (+ℤ_zero (balance_of i ms))
    ]

balance_of-credit :
    (i k : ℕ) (a : ℤ) (ms : Table Merchant) (m : Merchant)
    → find k ms ≡ some m
    → balance_of i (adjust k (credit a) ms) ≡ balance_of i ms +ℤ amount_if (k == i) a
balance_of-credit i k a ms m there =
    let step = balance_of-adjust i k (credit a) ms m there in
    elim (Bool-cases (k == i)) [
      | inl e ↦
          let same : balance_of i ms ≡ m.balance = ground (arith, ==_iff k i) in
          rw (step, e) (rw (same) refl)
      | inr e ↦ rw (step, e) (sym (+ℤ_zero (balance_of i ms)))
    ]

pub balance_of-paid_over :
    (i payer payee : ℕ) (a : ℤ) (ms : Table Merchant) (m m' : Merchant)
    → find payer ms ≡ some m
    → find payee (adjust payer (deduct a) ms) ≡ some m'
    → balance_of i (paid_over payer payee a ms) +ℤ amount_if (payer == i) a
      ≡ balance_of i ms +ℤ amount_if (payee == i) a
balance_of-paid_over i payer payee a ms m m' from to =
    let first = balance_of-deduct i payer a ms m from in
    let second = balance_of-credit i payee a (adjust payer (deduct a) ms) m' to in
    grind (int_laws, first, second)

pub all_balances-paid_over :
    (payer payee : ℕ) (a : ℤ) (ms : Table Merchant) (m m' : Merchant)
    → find payer ms ≡ some m
    → find payee (adjust payer (deduct a) ms) ≡ some m'
    → all_balances (paid_over payer payee a ms) ≡ all_balances ms
all_balances-paid_over payer payee a ms m m' from to =
    let first = total-adjust (λ k m. m.balance) payer (deduct a) ms m from in
    let second =
      total-adjust (λ k m. m.balance) payee (credit a) (adjust payer (deduct a) ms) m' to in
    grind (int_laws, first, second)
