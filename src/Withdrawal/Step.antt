-- ===== src/Withdrawal/Step.antt =====
-- What one call of the withdrawal service may do to the merchants and their requests, when the call
-- asks for `asked` millionths of a yuan.
use winmelon_card.Base.{
  ℕ, ◌≡◌, refl, inl, inr, Bool, true, false, none, some, ◌&&◌, ◌-◌, ◌≤◌, ltb, List, [], ◌∷◌, arith,
  Option-cases,
}
use winmelon_card.Base.Int.{ℤ, pos, ◌≤ℤ◌}
use winmelon_card.Base.Table.{find, insert, adjust, delete_many}
use winmelon_card.Base.Text.{Text}
use winmelon_card.Base.Result.{Result-cases}
use winmelon_card.Schema.{Merchant, Withdrawal, WithdrawalStatus}
use winmelon_card.Schema.Store.{Store}
use winmelon_card.Withdrawal.{
  WithdrawalRequest, apply, approve, reject, mark_paid, cleanup_old_records, available, freeze,
  unfreeze, pay_out, is_settled, set_approving, set_rejected, set_paid, new_withdrawal, fee_of,
  actual_of, default_config, retention_ms, millionths, to_fen,
}

abbrev pub is_open : WithdrawalStatus → Bool
is_open WithdrawalStatus.pending = true
is_open WithdrawalStatus.approving = true
is_open WithdrawalStatus.paid = false
is_open WithdrawalStatus.rejected = false
is_open WithdrawalStatus.failed = false

pub data Step (asked : ℕ) (db db' : Store) : Type 0 where
  skip : db'.merchants ≡ db.merchants → db'.withdrawals ≡ db.withdrawals → Step asked db db'
  ask :
      (id : ℕ) (w : Withdrawal) (r : Merchant)
      → find w.merchant_id db.merchants ≡ some r
      → find id db.withdrawals ≡ none
      → w.status ≡ WithdrawalStatus.pending
      → w.amount ≡ to_fen (pos asked)
      → 10000000 ≤ asked
      → pos asked ≤ℤ millionths (available r)
      → db'.merchants ≡ adjust w.merchant_id (freeze asked) db.merchants
      → db'.withdrawals ≡ insert id w db.withdrawals
      → Step asked db db'
  endorse :
      (id admin now : ℕ) (w : Withdrawal)
      → find id db.withdrawals ≡ some w
      → w.status ≡ WithdrawalStatus.pending
      → db'.merchants ≡ db.merchants
      → db'.withdrawals ≡ adjust id (set_approving admin now) db.withdrawals
      → Step asked db db'
  refuse :
      (id admin now : ℕ) (reason : Text) (w : Withdrawal) (r : Merchant)
      → find id db.withdrawals ≡ some w
      → find w.merchant_id db.merchants ≡ some r
      → is_open w.status ≡ true
      → db'.merchants ≡ adjust w.merchant_id (unfreeze w.amount) db.merchants
      → db'.withdrawals ≡ adjust id (set_rejected admin reason now) db.withdrawals
      → Step asked db db'
  pay :
      (id : ℕ) (ref : Text) (w : Withdrawal) (r : Merchant)
      → find id db.withdrawals ≡ some w
      → find w.merchant_id db.merchants ≡ some r
      → w.status ≡ WithdrawalStatus.approving
      → db'.merchants ≡ adjust w.merchant_id (pay_out w.amount) db.merchants
      → db'.withdrawals ≡ adjust id (set_paid ref) db.withdrawals
      → Step asked db db'
  clean :
      (cutoff : ℕ → Withdrawal → Bool)
      → ((id : ℕ) (w : Withdrawal) → cutoff id w ≡ true → is_open w.status ≡ false)
      → db'.merchants ≡ db.merchants
      → db'.withdrawals ≡ delete_many cutoff db.withdrawals
      → Step asked db db'

apply-Step :
    (to_fixed : ℤ → ℤ) (id k : ℕ) (p : WithdrawalRequest) (now : ℕ) (db : Store)
    → Step p.amount db (apply to_fixed id k p now db).1
unfolding apply millionths
apply-Step to_fixed id k p now db = elim (Option-cases (find k db.merchants)) [
  | inl e ↦ skip (ground arith) (ground arith)
  | inr (r, e) ↦ elim (Result-cases (apply to_fixed id k p now db).0) [
    | inl (a, good) ↦
        let fee = fee_of to_fixed default_config p.amount in
        ask id (new_withdrawal k p fee (actual_of to_fixed p.amount fee) now) r e (ground arith)
          refl refl (ground arith) (ground arith) (ground arith) (ground arith)
    | inr (x, bad) ↦ skip (ground arith) (ground arith)
  ]
]

approve-Step : (admin id now : ℕ) (db : Store) → Step 0 db (approve admin id now db).1
unfolding approve
approve-Step admin id now db = elim (Option-cases (find id db.withdrawals)) [
  | inl e ↦ skip (ground arith) (ground arith)
  | inr (w, e) ↦ elim (Result-cases (approve admin id now db).0) [
    | inl (a, good) ↦ endorse id admin now w e (ground arith) (ground arith) (ground arith)
    | inr (x, bad) ↦ skip (ground arith) (ground arith)
  ]
]

reject-Step :
    (admin id : ℕ) (reason : Text) (now : ℕ) (db : Store)
    → Step 0 db (reject admin id reason now db).1
unfolding reject
reject-Step admin id reason now db = elim (Option-cases (find id db.withdrawals)) [
  | inl e ↦ skip (ground arith) (ground arith)
  | inr (w, e) ↦ elim (Option-cases (find w.merchant_id db.merchants)) [
    | inl gone ↦ skip (ground arith) (ground arith)
    | inr (r, f) ↦ elim (Result-cases (reject admin id reason now db).0) [
      | inl (a, good) ↦
          refuse id admin now reason w r e f (ground arith) (ground arith) (ground arith)
      | inr (x, bad) ↦ skip (ground arith) (ground arith)
    ]
  ]
]

mark_paid-Step : (id : ℕ) (ref : Text) (db : Store) → Step 0 db (mark_paid id ref db).1
unfolding mark_paid
mark_paid-Step id ref db = elim (Option-cases (find id db.withdrawals)) [
  | inl e ↦ skip (ground arith) (ground arith)
  | inr (w, e) ↦ elim (Option-cases (find w.merchant_id db.merchants)) [
    | inl gone ↦ skip (ground arith) (ground arith)
    | inr (r, f) ↦ elim (Result-cases (mark_paid id ref db).0) [
      | inl (a, good) ↦ pay id ref w r e f (ground arith) (ground arith) (ground arith)
      | inr (x, bad) ↦ skip (ground arith) (ground arith)
    ]
  ]
]

settled_not_open : (s : WithdrawalStatus) → is_settled s ≡ true → is_open s ≡ false
settled_not_open s h = ground arith

cleanup-Step : (now : ℕ) (db : Store) → Step 0 db (cleanup_old_records now db).1
unfolding cleanup_old_records
cleanup-Step now db =
    clean (λ id w. is_settled w.status && ltb w.created_at (now - retention_ms))
      (λ id w h. ground (arith, settled_not_open w.status)) refl refl

-- The calls that change withdrawals, as the controllers and the scheduler make them.
pub data Call : Type 0 where
  applies : (to_fixed : ℤ → ℤ) (id merchant_id : ℕ) → WithdrawalRequest → (now : ℕ) → Call
  approves : (admin id now : ℕ) → Call
  rejects : (admin id : ℕ) → Text → (now : ℕ) → Call
  pays : (id : ℕ) → Text → Call
  cleans : (now : ℕ) → Call

unfoldable pub perform : Call → Store → Store
unfolding apply approve reject mark_paid cleanup_old_records
perform (applies to_fixed id k p now) db = (apply to_fixed id k p now db).1
perform (approves admin id now) db = (approve admin id now db).1
perform (rejects admin id reason now) db = (reject admin id reason now db).1
perform (pays id ref) db = (mark_paid id ref db).1
perform (cleans now) db = (cleanup_old_records now db).1

unfoldable pub perform_all : List Call → Store → Store
unfolding perform
perform_all [] db = db
perform_all (c ∷ cs) db = perform_all cs (perform c db)

-- The amount that a call asks for, in millionths of a yuan.
unfoldable pub asked_of : Call → ℕ
asked_of (applies to_fixed id k p now) = p.amount
asked_of (approves admin id now) = 0
asked_of (rejects admin id reason now) = 0
asked_of (pays id ref) = 0
asked_of (cleans now) = 0

-- Every call, whatever it is given and however it ends, is a step of the relation: a request is
-- written only for at least ¥10 and against an available balance that covers the amount that is
-- asked for, with this amount rounded to fen, and the merchant's balance falls and its frozen balance
-- grows by the amount, each rounded to fen; a request is approved only from PENDING, paid only from
-- APPROVING, rejected only from these two, each together with the one change of its merchant; the
-- clean-up deletes only requests that are not open; and any other outcome changes neither table.
pub perform-Step : (c : Call) (db : Store) → Step (asked_of c) db (perform c db)
unfolding perform asked_of
perform-Step (applies to_fixed id k p now) db = apply-Step to_fixed id k p now db
perform-Step (approves admin id now) db = approve-Step admin id now db
perform-Step (rejects admin id reason now) db = reject-Step admin id reason now db
perform-Step (pays id ref) db = mark_paid-Step id ref db
perform-Step (cleans now) db = cleanup-Step now db
