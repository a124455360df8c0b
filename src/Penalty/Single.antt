-- ===== src/Penalty/Single.antt =====
-- Open penalties beside the mark of the merchant.
use winmelon_card.Base.{
  ℕ, ◌+◌, ◌≤◌, ◌≡◌, refl, sym, subst, inl, inr, Bool, true, false, ◌&&◌, none, some, [], ◌∷◌, ◌==◌,
  ==_iff, if◌then◌else◌, arith, Bool-cases, Option-cases,
}
use winmelon_card.Base.Text.{Text}
use winmelon_card.Base.Table.{
  Table, find, insert, adjust, count, IsKeyed, adjust-IsKeyed, find-adjust_self, find-adjust_ne,
}
use winmelon_card.Schema.{Merchant, MerchantPenalty, PenaltyStatus}
use winmelon_card.Schema.Store.{Store}
use winmelon_card.Penalty.{
  PenaltyRequest, is_open, is_pending, is_pending_penalty, new_penalty, mark_merchant, set_appealed,
}

abbrev pub open_for : ℕ → ℕ → MerchantPenalty → Bool
open_for k id p = p.merchant_id == k && is_open p.status

-- 1 for a merchant that is PENDING_PENALTY.
abbrev pub mark_of : ℕ → Table Merchant → ℕ
mark_of k ms = elim (find k ms) [
  | none ↦ 0
  | some m ↦ if is_pending_penalty m.penalty_status then 1 else 0
]

-- A merchant has one open penalty at most, and only while it is PENDING_PENALTY.
pub record IsSingle (db : Store) : Type 0 where
  pub keyed : IsKeyed db.merchant_penalties
  pub single : (k : ℕ) → count (open_for k) db.merchant_penalties ≤ mark_of k db.merchants

count-adjust :
    (q : ℕ → MerchantPenalty → Bool) (id : ℕ) (f : MerchantPenalty → MerchantPenalty)
    (t : Table MerchantPenalty) (p : MerchantPenalty)
    → find id t ≡ some p
    → count q (adjust id f t) + (if q id p then 1 else 0)
      ≡ count q t + (if q id (f p) then 1 else 0)
count-adjust q id f [] p h = absurd (ground arith)
count-adjust q id f ((j, r) ∷ t) p h = elim (Bool-cases (j == id)) [
  | inl e ↦ grind (arith, (==_iff j id).0 e)
  | inr e ↦ grind (arith, count-adjust q id f t p)
]

mark_of-adjust :
    (i k : ℕ) (f : Merchant → Merchant) (ms : Table Merchant) (m : Merchant)
    → find k ms ≡ some m
    → mark_of i (adjust k f ms) ≡ (
        if k == i then (if is_pending_penalty (f m).penalty_status then 1 else 0) else mark_of i ms)
mark_of-adjust i k f ms m there = elim (Bool-cases (k == i)) [
  | inl e ↦ ground (arith, ==_iff k i, find-adjust_self k f ms m)
  | inr e ↦ ground (arith, ==_iff k i, find-adjust_ne i k f ms)
]

mark_of-small : (k : ℕ) (ms : Table Merchant) → mark_of k ms ≤ 1
mark_of-small k ms = elim (Option-cases (find k ms)) [
  | inl e ↦ ground arith
  | inr (m, e) ↦ elim (Bool-cases (is_pending_penalty m.penalty_status)) [
    | inl f ↦ ground arith
    | inr f ↦ ground arith
  ]
]

-- A penalty that is open is closed, and its merchant loses the mark.
pub closed-IsSingle :
    (id : ℕ) (p : MerchantPenalty) (f : MerchantPenalty → MerchantPenalty) (g : Merchant → Merchant)
    (m : Merchant) (db db' : Store)
    → IsSingle db
    → find id db.merchant_penalties ≡ some p
    → is_open p.status ≡ true
    → is_open (f p).status ≡ false
    → find p.merchant_id db.merchants ≡ some m
    → db'.merchant_penalties ≡ adjust id f db.merchant_penalties
    → db'.merchants ≡ adjust p.merchant_id g db.merchants
    → IsSingle db'
closed-IsSingle id p f g m db db' h here was_open closed there ps ms = record {
  keyed = subst IsKeyed (sym ps) (adjust-IsKeyed id f db.merchant_penalties h.keyed);
  single = λ k.
      let before = h.single k in
      let step = count-adjust (open_for k) id f db.merchant_penalties p here in
      let mark = mark_of-adjust k p.merchant_id g db.merchants m there in
      let small : mark_of k db.merchants ≤ 1 = mark_of-small k db.merchants in
      let count_after = count (open_for k) (adjust id f db.merchant_penalties) in
      let after : count_after ≤ mark_of k (adjust p.merchant_id g db.merchants) =
        elim (Bool-cases (p.merchant_id == k)) [ inl e ↦ ground arith | inr e ↦ ground arith ] in
      rw (ps, ms) after;
}

pub pending-open : (s : PenaltyStatus) → is_pending s ≡ true → is_open s ≡ true
pending-open PenaltyStatus.pending h = refl
pending-open PenaltyStatus.appealed h = refl
pending-open PenaltyStatus.executed h = h
pending-open PenaltyStatus.dismissed h = h

-- The marks stay, and so does the number of open penalties.
pub same-IsSingle :
    (db db' : Store)
    → IsSingle db
    → db'.merchant_penalties ≡ db.merchant_penalties
    → db'.merchants ≡ db.merchants
    → IsSingle db'
same-IsSingle db db' h ps ms = record {
  keyed = subst IsKeyed (sym ps) h.keyed;
  single = λ k. rw (ps, ms) (h.single k);
}

pub appealed-IsSingle :
    (id : ℕ) (p : MerchantPenalty) (content : Text) (now : ℕ) (db db' : Store)
    → IsSingle db
    → find id db.merchant_penalties ≡ some p
    → is_pending p.status ≡ true
    → db'.merchant_penalties ≡ adjust id (set_appealed content now) db.merchant_penalties
    → db'.merchants ≡ db.merchants
    → IsSingle db'
appealed-IsSingle id p content now db db' h here was_pending ps ms = record {
  keyed =
      subst IsKeyed (sym ps)
        (adjust-IsKeyed id (set_appealed content now) db.merchant_penalties h.keyed);
  single = λ k.
      let f = set_appealed content now in
      let before = h.single k in
      let step = count-adjust (open_for k) id f db.merchant_penalties p here in
      let was_open : is_open p.status ≡ true = pending-open p.status was_pending in
      let after : count (open_for k) (adjust id f db.merchant_penalties) ≤ mark_of k db.merchants =
        elim (Bool-cases (p.merchant_id == k)) [ inl e ↦ ground arith | inr e ↦ ground arith ] in
      rw (ps, ms) after;
}

pub created-IsSingle :
    (id : ℕ) (r : PenaltyRequest) (deadline now : ℕ) (m : Merchant) (db db' : Store)
    → IsSingle db
    → find id db.merchant_penalties ≡ none
    → find r.merchant_id db.merchants ≡ some m
    → is_pending_penalty m.penalty_status ≡ false
    → db'.merchant_penalties ≡ insert id (new_penalty r deadline) db.merchant_penalties
    → db'.merchants ≡ adjust r.merchant_id (mark_merchant r.reason now) db.merchants
    → IsSingle db'
created-IsSingle id r deadline now m db db' h new there unmarked ps ms = record {
  keyed = subst IsKeyed (sym ps) (new, h.keyed);
  single = λ k.
      let before = h.single k in
      let mark = mark_of-adjust k r.merchant_id (mark_merchant r.reason now) db.merchants m there in
      let after : count (open_for k) (insert id (new_penalty r deadline) db.merchant_penalties)
          ≤ mark_of k (adjust r.merchant_id (mark_merchant r.reason now) db.merchants) =
        elim (Bool-cases (r.merchant_id == k)) [
          | inl e ↦ ground (arith, ==_iff r.merchant_id k)
          | inr e ↦ ground arith
        ] in
      rw (ps, ms) after;
}

-- Closed without a change of the merchants.
pub shut-IsSingle :
    (id : ℕ) (p : MerchantPenalty) (f : MerchantPenalty → MerchantPenalty) (db db' : Store)
    → IsSingle db
    → find id db.merchant_penalties ≡ some p
    → is_open (f p).status ≡ false
    → db'.merchant_penalties ≡ adjust id f db.merchant_penalties
    → db'.merchants ≡ db.merchants
    → IsSingle db'
shut-IsSingle id p f db db' h here closed ps ms = record {
  keyed = subst IsKeyed (sym ps) (adjust-IsKeyed id f db.merchant_penalties h.keyed);
  single = λ k.
      let before = h.single k in
      let step = count-adjust (open_for k) id f db.merchant_penalties p here in
      let after : count (open_for k) (adjust id f db.merchant_penalties) ≤ mark_of k db.merchants =
        elim (Bool-cases (p.merchant_id == k)) [
          | inl e ↦ elim (Bool-cases (is_open p.status)) [
            | inl g ↦ ground arith
            | inr g ↦ ground arith
          ]
          | inr e ↦ ground arith
        ] in
      rw (ps, ms) after;
}
