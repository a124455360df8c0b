-- ===== src/Commission/Reversal.antt =====
-- apps/api/src/modules/invite/invite.service.ts, `reverseCommission`: a refund takes the commissions
-- of the order back, and an inviter whose balance falls too low is suspended.
use winmelon_card.Base.{ℕ, false, none, some, List, [], ◌∷◌, if◌then◌else◌, includes, or_else}
use winmelon_card.Base.Int.{leb_ℤ}
use winmelon_card.Base.Table.{Table, find, find_many, adjust}
use winmelon_card.Schema.{Merchant, CommissionRecord, CommissionStatus}
use winmelon_card.Schema.Action.{
  Action, ⊤, pure, gets, modify, transaction, catch, update_merchant, ◌>>=◌, ◌>>◌,
}
use winmelon_card.Commission.{settled_for, deduct, credit, negative_balance_threshold}

abbrev pub set_reversed : ℕ → CommissionRecord → CommissionRecord
set_reversed now r = record r { status = CommissionStatus.reversed; reversed_at = some now }

unfoldable pub reverse_records : Table CommissionRecord → ℕ → Action ⊤
reverse_records [] now = pure tt
reverse_records ((id, r) ∷ rs) now = do
  update_merchant r.inviter_merchant_id (deduct r.amount)
  update_merchant r.source_merchant_id (credit r.amount)
  modify
      (λ db. record db { commission_records = adjust id (set_reversed now) db.commission_records })
  reverse_records rs now

-- `new Set`, in the order of insertion.
abbrev pub inviters_of : Table CommissionRecord → List ℕ → List ℕ
inviters_of [] seen = []
inviters_of ((id, r) ∷ rs) seen =
    let rest = inviters_of rs (r.inviter_merchant_id ∷ seen) in
    let skip = inviters_of rs seen in
    if includes seen r.inviter_merchant_id then skip else r.inviter_merchant_id ∷ rest

abbrev pub set_suspended : ℕ → Merchant → Merchant
set_suspended now m = record m {
  distribution_suspended_at = some (or_else m.distribution_suspended_at now);
  withdrawal_suspended_at = some (or_else m.withdrawal_suspended_at now);
  allow_buyer_invite_code = false;
}

-- The fuse for one inviter.
abbrev pub suspend : ℕ → ℕ → Table Merchant → Table Merchant
suspend now k ms = elim (find k ms) [
  | none ↦ ms
  | some m ↦
      if leb_ℤ m.balance negative_balance_threshold then adjust k (set_suspended now) ms else ms
]

abbrev pub suspend_all : ℕ → List ℕ → Table Merchant → Table Merchant
suspend_all now [] ms = ms
suspend_all now (k ∷ ks) ms = suspend_all now ks (suspend now k ms)

-- The body of the transaction.
unfoldable pub reverse_in : Table CommissionRecord → ℕ → Action ⊤
unfolding reverse_records
reverse_in rs now = do
  reverse_records rs now
  modify (λ db. record db { merchants = suspend_all now (inviters_of rs []) db.merchants })

-- `reverseCommission`
unfoldable pub reverse_commission : ℕ → ℕ → Action ⊤
unfolding reverse_in
reverse_commission order_id now = do
  rs ← gets (λ db. find_many (settled_for order_id) db.commission_records)
  transaction (reverse_in rs now)

-- The listener of ORDER_REFUNDED_EVENT.
unfoldable pub handle_order_refunded : ℕ → ℕ → Action ⊤
unfolding reverse_commission
handle_order_refunded order_id now = catch (reverse_commission order_id now) (λ e. pure tt)
