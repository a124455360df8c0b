-- ===== src/Withdrawal/Frozen.antt =====
-- `freezeBalance` is the sum of the requests that wait for a decision or a payout.
use winmelon_card.Base.{
  ℕ, ◌≡◌, ◌≢◌, refl, ◌∙◌, sym, ap, List, inl, inr, Bool, true, false, ◌&&◌, some, [], ◌∷◌, arith,
  ◌==◌, if◌then◌else◌, Bool-cases, ==_iff,
}
use winmelon_card.Base.Int.{ℤ, pos, ◌+ℤ◌, ◌-ℤ◌, ◌≤ℤ◌, int_laws}
use winmelon_card.Base.Table.{
  Table, find, insert, adjust, delete_many, total, find-adjust_self, find-adjust_ne, total-adjust,
}
use winmelon_card.Schema.{Merchant, Withdrawal}
use winmelon_card.Schema.Store.{Store}
use winmelon_card.Withdrawal.{
  freeze, unfreeze, pay_out, set_approving, set_rejected, set_paid, to_fen,
}
use winmelon_card.Withdrawal.Rounding.{freeze_fen, to_fen_positive}
use winmelon_card.Schema.Action.{⊤}
use winmelon_card.Withdrawal.Step.{
  Step, skip, ask, endorse, refuse, pay, clean, is_open, Call, perform, perform_all, perform-Step,
}

-- What a request holds frozen for merchant `m`.
abbrev pub held : ℕ → ℕ → Withdrawal → ℤ
held m id w = if w.merchant_id == m && is_open w.status then w.amount else pos 0

abbrev pub IsFrozen : Table Merchant → Table Withdrawal → Type 0
IsFrozen ms ws = (m : ℕ) (r : Merchant) → find m ms ≡ some r → r.freeze_balance ≡ total (held m) ws

-- One merchant's frozen amount and its requests move together.
Frozen-adjust :
    (k : ℕ) (g : Merchant → Merchant) (ms : Table Merchant) (ws ws' : Table Withdrawal)
    (r : Merchant)
    → IsFrozen ms ws
    → find k ms ≡ some r
    → (g r).freeze_balance ≡ total (held k) ws'
    → ((m : ℕ) → m ≢ k → total (held m) ws' ≡ total (held m) ws)
    → IsFrozen (adjust k g ms) ws'
Frozen-adjust k g ms ws ws' r v found mine others m r' e = elim (Bool-cases (m == k)) [
  | inl same ↦ ground (arith, find-adjust_self k g ms r found, (==_iff m k).0 same)
  | inr other ↦ ground (arith, find-adjust_ne m k g ms, others m, v m r', v k r)
]

-- A change of one request that keeps its merchant, amount and openness.
Frozen-keep :
    (id : ℕ) (f : Withdrawal → Withdrawal) (ms : Table Merchant) (ws : Table Withdrawal)
    (w : Withdrawal)
    → IsFrozen ms ws
    → find id ws ≡ some w
    → ((m : ℕ) → held m id (f w) ≡ held m id w)
    → IsFrozen ms (adjust id f ws)
Frozen-keep id f ms ws w v found keep m r e =
    grind (int_laws, total-adjust (held m) id f ws w found, keep m, v m r e)

-- A request that is closed gives its amount back.
Frozen-close :
    (id : ℕ) (f : Withdrawal → Withdrawal) (g : Merchant → Merchant) (ms : Table Merchant)
    (ws : Table Withdrawal) (w : Withdrawal) (r : Merchant)
    → IsFrozen ms ws
    → find id ws ≡ some w
    → find w.merchant_id ms ≡ some r
    → is_open w.status ≡ true
    → is_open (f w).status ≡ false
    → (g r).freeze_balance ≡ r.freeze_balance -ℤ w.amount
    → IsFrozen (adjust w.merchant_id g ms) (adjust id f ws)
Frozen-close id f g ms ws w r v found mine opened closed amount =
    Frozen-adjust w.merchant_id g ms ws (adjust id f ws) r v mine
      (grind (int_laws, total-adjust (held w.merchant_id) id f ws w found, v w.merchant_id r mine))
      (λ m other. grind (int_laws, total-adjust (held m) id f ws w found))

-- Every request stands for an amount that is not negative.
abbrev pub AreAmounts : Table Withdrawal → Type 0
AreAmounts [] = ⊤
AreAmounts ((id, w) ∷ ws) = (pos 0 ≤ℤ w.amount) × AreAmounts ws

adjust-AreAmounts :
    (id : ℕ) (f : Withdrawal → Withdrawal) (ws : Table Withdrawal)
    → ((w : Withdrawal) → (f w).amount ≡ w.amount)
    → AreAmounts ws
    → AreAmounts (adjust id f ws)
adjust-AreAmounts id f [] same h = tt
adjust-AreAmounts id f ((j, w) ∷ ws) same (h, rest) = elim (Bool-cases (j == id)) [
  | inl e ↦ rw e (rw (same w) h, rest)
  | inr e ↦ rw e (h, adjust-AreAmounts id f ws same rest)
]

delete_many-AreAmounts :
    (p : ℕ → Withdrawal → Bool) (ws : Table Withdrawal)
    → AreAmounts ws
    → AreAmounts (delete_many p ws)
delete_many-AreAmounts p [] h = tt
delete_many-AreAmounts p ((j, w) ∷ ws) (h, rest) = elim (Bool-cases (p j w)) [
  | inl e ↦ rw e (delete_many-AreAmounts p ws rest)
  | inr e ↦ rw e (h, delete_many-AreAmounts p ws rest)
]

total_positive : (m : ℕ) (ws : Table Withdrawal) → AreAmounts ws → pos 0 ≤ℤ total (held m) ws
total_positive m [] h = ground arith
total_positive m ((j, w) ∷ ws) (h, rest) = grind (int_laws, total_positive m ws rest)

-- The clean-up deletes no open request.
total-delete_many :
    (m : ℕ) (p : ℕ → Withdrawal → Bool) (ws : Table Withdrawal)
    → ((id : ℕ) (w : Withdrawal) → p id w ≡ true → is_open w.status ≡ false)
    → total (held m) (delete_many p ws) ≡ total (held m) ws
total-delete_many m p [] h = refl
total-delete_many m p ((id, w) ∷ ws) h = elim (Bool-cases (p id w)) [
  | inl e ↦ grind (int_laws, total-delete_many m p ws h, h id w e)
  | inr e ↦ grind (int_laws, total-delete_many m p ws h)
]

abbrev pub IsFrozenStore : Store → Type 0
IsFrozenStore db = AreAmounts db.withdrawals × IsFrozen db.merchants db.withdrawals

-- A merchant's frozen balance grows by the amount that its new request records.
freeze-held :
    (ms : Table Merchant) (ws : Table Withdrawal) (k a : ℕ) (r : Merchant)
    → AreAmounts ws
    → IsFrozen ms ws
    → find k ms ≡ some r
    → (freeze a r).freeze_balance ≡ total (held k) ws +ℤ to_fen (pos a)
freeze-held ms ws k a r h v found =
    freeze_fen r.freeze_balance a (rw (v k r found) (total_positive k ws h))
    ∙ ap (λ x. x +ℤ to_fen (pos a)) (v k r found)

Step-IsFrozen :
    {asked : ℕ} {db db' : Store} → Step asked db db' → IsFrozenStore db → IsFrozenStore db'
Step-IsFrozen (skip em ew) v = rw (em, ew) v
Step-IsFrozen {asked} {db} (ask id w r found new fresh amount least cover em ew) (h, v) =
    let more = freeze-held db.merchants db.withdrawals w.merchant_id asked r h v found in
    rw (em, ew)
      (
        (rw amount (to_fen_positive asked), h),
        Frozen-adjust w.merchant_id (freeze asked) db.merchants db.withdrawals
            (insert id w db.withdrawals) r v found (grind (int_laws, more, amount))
            (λ m other. grind int_laws),
      )
Step-IsFrozen {asked} {db} (endorse id admin now w found was em ew) (h, v) =
    rw (em, ew)
      (
        adjust-AreAmounts id (set_approving admin now) db.withdrawals (λ u. refl) h,
        Frozen-keep id (set_approving admin now) db.merchants db.withdrawals w v found
            (λ m. ground arith),
      )
Step-IsFrozen {asked} {db} (refuse id admin now reason w r found mine was em ew) (h, v) =
    rw (em, ew)
      (
        adjust-AreAmounts id (set_rejected admin reason now) db.withdrawals (λ u. refl) h,
        Frozen-close id (set_rejected admin reason now) (unfreeze w.amount) db.merchants
            db.withdrawals w r v found mine was refl refl,
      )
Step-IsFrozen {asked} {db} (pay id ref w r found mine was em ew) (h, v) =
    rw (em, ew)
      (
        adjust-AreAmounts id (set_paid ref) db.withdrawals (λ u. refl) h,
        Frozen-close id (set_paid ref) (pay_out w.amount) db.merchants db.withdrawals w r v found
            mine (ground arith) refl refl,
      )
Step-IsFrozen {asked} {db} (clean cutoff closed em ew) (h, v) =
    rw (em, ew)
      (
        delete_many-AreAmounts cutoff db.withdrawals h,
        (λ m r e. v m r e ∙ sym (total-delete_many m cutoff db.withdrawals closed)),
      )

-- Take a store in which no request has a negative amount and the frozen balance of every merchant is
-- the sum of the amounts, rounded to fen, of its requests in PENDING and APPROVING. Every store that
-- a list of calls reaches from it is such a store.
pub perform_all-IsFrozen :
    (cs : List Call) (db : Store) → IsFrozenStore db → IsFrozenStore (perform_all cs db)
unfolding perform_all
perform_all-IsFrozen [] db v = v
perform_all-IsFrozen (c ∷ cs) db v =
    perform_all-IsFrozen cs (perform c db) (Step-IsFrozen (perform-Step c db) v)
