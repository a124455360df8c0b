-- ===== src/Commission/Suspension.antt =====
-- The fuse at the end of a reversal.
use winmelon_card.Base.{
  ℕ, ◌≡◌, refl, sym, subst, inl, inr, true, false, some, List, [], ◌∷◌, arith, ◌==◌, ==_iff,
  Bool-cases, Option-cases, includes, is_none,
}
use winmelon_card.Base.Int.{leb_ℤ}
use winmelon_card.Base.Table.{Table, find, find-adjust_ne, find-adjust_self}
use winmelon_card.Schema.{Merchant, CommissionRecord}
use winmelon_card.Commission.{negative_balance_threshold}
use winmelon_card.Commission.Reversal.{inviters_of, set_suspended, suspend, suspend_all}

-- Suspended for distribution and for withdrawals, and the codes of buyers switched off.
abbrev pub IsSuspended : Merchant → Type 0
IsSuspended m =
    (is_none m.distribution_suspended_at ≡ false)
    × (is_none m.withdrawal_suspended_at ≡ false)
    × (m.allow_buyer_invite_code ≡ false)

abbrev pub IsFused : Merchant → Type 0
IsFused m = leb_ℤ m.balance negative_balance_threshold ≡ true → IsSuspended m

abbrev pub AllFused : ℕ → Table Merchant → Type 0
AllFused k ms = (m : Merchant) → find k ms ≡ some m → IsFused m

set_suspended-IsFused : (now : ℕ) (m : Merchant) → IsFused (set_suspended now m)
set_suspended-IsFused now m low = (refl, refl, refl)

suspend-AllFused : (now k : ℕ) (ms : Table Merchant) → AllFused k (suspend now k ms)
suspend-AllFused now k ms m there = elim (Option-cases (find k ms)) [
  | inl missing ↦ absurd (ground arith)
  | inr (m', here) ↦ elim (Bool-cases (leb_ℤ m'.balance negative_balance_threshold)) [
    | inl e ↦
        let is : set_suspended now m' ≡ m =
          ground (arith, find-adjust_self k (set_suspended now) ms m' here) in
        subst IsFused is (set_suspended-IsFused now m')
    | inr e ↦ λ low. absurd (ground arith)
  ]
]

suspend-keeps_fused :
    (now j k : ℕ) (ms : Table Merchant) → AllFused k ms → AllFused k (suspend now j ms)
suspend-keeps_fused now j k ms fused m there = elim (Bool-cases (j == k)) [
  | inl e ↦
      let same : j ≡ k = (==_iff j k).0 e in
      suspend-AllFused now k ms m (subst (λ x. find k (suspend now x ms) ≡ some m) same there)
  | inr e ↦ fused m (ground (arith, ==_iff j k, find-adjust_ne k j (set_suspended now) ms))
]

suspend_all-keeps_fused :
    (now : ℕ) (ks : List ℕ) (k : ℕ) (ms : Table Merchant)
    → AllFused k ms
    → AllFused k (suspend_all now ks ms)
suspend_all-keeps_fused now [] k ms fused = fused
suspend_all-keeps_fused now (j ∷ ks) k ms fused =
    suspend_all-keeps_fused now ks k (suspend now j ms) (suspend-keeps_fused now j k ms fused)

pub suspend_all-AllFused :
    (now : ℕ) (ks : List ℕ) (k : ℕ) (ms : Table Merchant)
    → includes ks k ≡ true
    → AllFused k (suspend_all now ks ms)
suspend_all-AllFused now [] k ms h = absurd (ground arith)
suspend_all-AllFused now (j ∷ ks) k ms h = elim (Bool-cases (j == k)) [
  | inl e ↦
      let same : j ≡ k = (==_iff j k).0 e in
      suspend_all-keeps_fused now ks k (suspend now j ms)
        (subst (λ x. AllFused k (suspend now x ms)) (sym same) (suspend-AllFused now k ms))
  | inr e ↦ suspend_all-AllFused now ks k (suspend now j ms) (ground (arith, ==_iff j k))
]

pub includes-inviters_of :
    (id : ℕ) (r : CommissionRecord) (rs : Table CommissionRecord) (seen : List ℕ)
    → find id rs ≡ some r
    → includes seen r.inviter_merchant_id ≡ false
    → includes (inviters_of rs seen) r.inviter_merchant_id ≡ true
includes-inviters_of id r [] seen here new = absurd (ground arith)
includes-inviters_of id r ((j, s) ∷ rs) seen here new =
    elim (Bool-cases (s.inviter_merchant_id == r.inviter_merchant_id)) [
      | inl e ↦ ground (arith, ==_iff s.inviter_merchant_id r.inviter_merchant_id)
      | inr e ↦
          let later : find id rs ≡ some r = ground (
            arith,
            ==_iff s.inviter_merchant_id r.inviter_merchant_id,
            ==_iff r.inviter_merchant_id r.inviter_merchant_id,
          ) in
          let skip = includes-inviters_of id r rs seen later new in
          let take = includes-inviters_of id r rs (s.inviter_merchant_id ∷ seen) later in
          ground (arith, ==_iff s.inviter_merchant_id r.inviter_merchant_id)
    ]
