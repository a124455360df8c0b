-- ===== src/Withdrawal/Lifecycle.antt =====
-- The states of a request.
use winmelon_card.Base.{
  ℕ, ◌≡◌, refl, inl, inr, Bool, true, false, some, [], ◌∷◌, arith, ◌==◌, Bool-cases, ==_iff,
}
use winmelon_card.Base.Table.{Table, find, adjust, delete_many, find-adjust_self, find-adjust_ne}
use winmelon_card.Schema.{Withdrawal, WithdrawalStatus}
use winmelon_card.Schema.Store.{Store}
use winmelon_card.Withdrawal.{set_approving, set_rejected, set_paid}
use winmelon_card.Withdrawal.Step.{
  Step, skip, ask, endorse, refuse, pay, clean, is_open, Call, perform, perform-Step,
}

-- The edges of the state machine.
pub data Next : WithdrawalStatus → WithdrawalStatus → Type 0 where
  endorsed : Next WithdrawalStatus.pending WithdrawalStatus.approving
  refused_early : Next WithdrawalStatus.pending WithdrawalStatus.rejected
  refused_late : Next WithdrawalStatus.approving WithdrawalStatus.rejected
  paid_out : Next WithdrawalStatus.approving WithdrawalStatus.paid

-- What may become of a request in one call: it stays as it is, it takes one edge and keeps its
-- merchant and its amounts, or it is deleted once no money is frozen for it.
pub data Fate (id : ℕ) (w : Withdrawal) (ws : Table Withdrawal) : Type 0 where
  stays : find id ws ≡ some w → Fate id w ws
  moves :
      (w' : Withdrawal)
      → find id ws ≡ some w'
      → Next w.status w'.status
      → w'.merchant_id ≡ w.merchant_id
      → w'.amount ≡ w.amount
      → Fate id w ws
  leaves : is_open w.status ≡ false → Fate id w ws

Next-reject : (s : WithdrawalStatus) → is_open s ≡ true → Next s WithdrawalStatus.rejected
Next-reject WithdrawalStatus.pending h = refused_early
Next-reject WithdrawalStatus.approving h = refused_late
Next-reject WithdrawalStatus.paid h = absurd (ground arith)
Next-reject WithdrawalStatus.rejected h = absurd (ground arith)
Next-reject WithdrawalStatus.failed h = absurd (ground arith)

Next-approve :
    (s : WithdrawalStatus) → s ≡ WithdrawalStatus.pending → Next s WithdrawalStatus.approving
Next-approve WithdrawalStatus.pending h = endorsed
Next-approve WithdrawalStatus.approving h = cc
Next-approve WithdrawalStatus.paid h = cc
Next-approve WithdrawalStatus.rejected h = cc
Next-approve WithdrawalStatus.failed h = cc

Next-pay : (s : WithdrawalStatus) → s ≡ WithdrawalStatus.approving → Next s WithdrawalStatus.paid
Next-pay WithdrawalStatus.approving h = paid_out
Next-pay WithdrawalStatus.pending h = cc
Next-pay WithdrawalStatus.paid h = cc
Next-pay WithdrawalStatus.rejected h = cc
Next-pay WithdrawalStatus.failed h = cc

adjust-Fate :
    (id j : ℕ) (f : Withdrawal → Withdrawal) (w v : Withdrawal) (ws : Table Withdrawal)
    → find id ws ≡ some w
    → find j ws ≡ some v
    → ((u : Withdrawal) → (f u).merchant_id ≡ u.merchant_id)
    → ((u : Withdrawal) → (f u).amount ≡ u.amount)
    → Next v.status (f v).status
    → Fate id w (adjust j f ws)
adjust-Fate id j f w v ws found there keep same edge = elim (Bool-cases (id == j)) [
  | inl e ↦
      let one : v ≡ w = ground (arith, (==_iff id j).0 e) in
      moves (f w) (ground (arith, find-adjust_self j f ws v there, (==_iff id j).0 e))
        (rw one at edge) (keep w) (same w)
  | inr e ↦ stays (ground (arith, find-adjust_ne id j f ws))
]

delete-Fate :
    (id : ℕ) (w : Withdrawal) (p : ℕ → Withdrawal → Bool) (ws : Table Withdrawal)
    → ((j : ℕ) (v : Withdrawal) → p j v ≡ true → is_open v.status ≡ false)
    → is_open w.status ≡ true
    → find id ws ≡ some w
    → find id (delete_many p ws) ≡ some w
delete-Fate id w p [] closed live h = cc
delete-Fate id w p ((j, v) ∷ ws) closed live h = elim (Bool-cases (p j v)) [
  | inl e ↦ ground (arith, delete-Fate id w p ws closed live, closed j v e)
  | inr e ↦ ground (arith, delete-Fate id w p ws closed live)
]

Step-Fate :
    (id : ℕ) (w : Withdrawal) {asked : ℕ} {db db' : Store}
    → Step asked db db'
    → find id db.withdrawals ≡ some w
    → Fate id w db'.withdrawals
Step-Fate id w (skip em ew) h = stays (rw ew h)
Step-Fate id w (ask j v r found new fresh amount least cover em ew) h = stays (ground arith)
Step-Fate id w {asked} {db} (endorse j admin now v found was em ew) h = rw ew (
    adjust-Fate id j (set_approving admin now) w v db.withdrawals h found (λ u. refl) (λ u. refl)
      (Next-approve v.status was))
Step-Fate id w {asked} {db} (refuse j admin now reason v r found mine was em ew) h = rw ew (
    adjust-Fate id j (set_rejected admin reason now) w v db.withdrawals h found (λ u. refl)
      (λ u. refl) (Next-reject v.status was))
Step-Fate id w {asked} {db} (pay j ref v r found mine was em ew) h = rw ew (
    adjust-Fate id j (set_paid ref) w v db.withdrawals h found (λ u. refl) (λ u. refl)
      (Next-pay v.status was))
Step-Fate id w {asked} {db} (clean cutoff closed em ew) h = elim (Bool-cases (is_open w.status)) [
  | inl e ↦ stays (rw ew (delete-Fate id w cutoff db.withdrawals closed e h))
  | inr e ↦ leaves e
]

-- Whatever call is made, a request stays as it is, or takes one of the four edges PENDING to
-- APPROVING, PENDING or APPROVING to REJECTED, APPROVING to PAID with its merchant and amount
-- unchanged, or is no longer open and may be deleted.
pub perform-Fate :
    (c : Call) (id : ℕ) (w : Withdrawal) (db : Store)
    → find id db.withdrawals ≡ some w
    → Fate id w (perform c db).withdrawals
perform-Fate c id w db h = Step-Fate id w (perform-Step c db) h
