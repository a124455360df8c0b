-- ===== src/Invite/Subtree.antt =====
-- The search downwards for an invited merchant, beside the climb from it upwards.
use winmelon_card.Base.{
  ℕ, zero, suc, ◌≡◌, refl, sym, ◌∙◌, ap, inl, inr, Bool, true, false, ◌||◌, Option, none, some,
  List, [], ◌∷◌, ◌++◌, ◌==◌, ==_iff, if◌then◌else◌, is_none, includes, arith, Bool-cases,
  Option-cases,
}
use winmelon_card.Base.Table.{Table, find, find_many, IsKeyed}
use winmelon_card.Base.Result.{ok, err, bad_request, cycle}
use winmelon_card.Schema.{Merchant}
use winmelon_card.Schema.Store.{Store}
use winmelon_card.Invite.{
  is_child, ids_of, children, is_nil, is_below, is_in_subtree, admin_update_inviter,
}

-- The inviter of a merchant that is not deleted.
abbrev pub live_inviter : ℕ → Table Merchant → Option ℕ
live_inviter k ms = elim (find k ms) [
  | none ↦ none
  | some m ↦ if is_none m.deleted_at then m.inviter_merchant_id else none
]

abbrev pub is_in : List ℕ → Option ℕ → Bool
is_in ks none = false
is_in ks (some k) = includes ks k

-- At most `n` steps up, from inviter to inviter, lead from `k` to one of `ks`.
abbrev pub climbs : ℕ → List ℕ → ℕ → Table Merchant → Bool
climbs zero ks k ms = false
climbs (suc n) ks k ms = elim (live_inviter k ms) [
  | none ↦ false
  | some j ↦ includes ks j || climbs n ks j ms
]

includes-append :
    (xs ys : List ℕ) (a : ℕ) → includes (xs ++ ys) a ≡ (includes xs a || includes ys a)
includes-append [] ys a = refl
includes-append (x ∷ xs) ys a = ground (arith, includes-append xs ys a)

includes_absent :
    (p k : ℕ) (ms : Table Merchant)
    → find k ms ≡ none
    → includes (ids_of (find_many (is_child p) ms)) k ≡ false
includes_absent p k [] h = refl
includes_absent p k ((j, m) ∷ ms) h = ground (arith, includes_absent p k ms)

-- One parent's children.
includes-children_one :
    (p k : ℕ) (ms : Table Merchant)
    → IsKeyed ms
    → includes (ids_of (find_many (is_child p) ms)) k ≡ is_in (p ∷ []) (live_inviter k ms)
includes-children_one p k [] keyed = refl
includes-children_one p k ((j, m) ∷ ms) (new, keyed) = elim (Bool-cases (j == k)) [
  | inl e ↦
      let absent = includes_absent p j ms new in
      elim (Option-cases m.deleted_at) [
        | inr (t, gone) ↦ ground (arith, ==_iff j k)
        | inl live ↦ elim (Option-cases m.inviter_merchant_id) [
          | inl top ↦ ground (arith, ==_iff j k)
          | inr (q, up) ↦ elim (Bool-cases (q == p)) [
            | inl f ↦ ground (arith, ==_iff j k, ==_iff q p, ==_iff p q)
            | inr f ↦ ground (arith, ==_iff j k, ==_iff q p, ==_iff p q)
          ]
        ]
      ]
  | inr e ↦ ground (arith, includes-children_one p k ms keyed)
]

is_in_none : (o : Option ℕ) → is_in [] o ≡ false
is_in_none none = refl
is_in_none (some k) = refl

is_in-cons :
    (p : ℕ) (ps : List ℕ) (o : Option ℕ) → is_in (p ∷ ps) o ≡ (is_in (p ∷ []) o || is_in ps o)
is_in-cons p ps none = refl
is_in-cons p ps (some k) = ground arith

includes-children :
    (ps : List ℕ) (k : ℕ) (ms : Table Merchant)
    → IsKeyed ms
    → includes (children ps ms) k ≡ is_in ps (live_inviter k ms)
includes-children [] k ms keyed = sym (is_in_none (live_inviter k ms))
includes-children (p ∷ ps) k ms keyed =
    let one = ids_of (find_many (is_child p) ms) in
    includes-append one (children ps ms) k
    ∙ ap (λ b. b || includes (children ps ms) k) (includes-children_one p k ms keyed)
    ∙ ap (λ b. is_in (p ∷ []) (live_inviter k ms) || b) (includes-children ps k ms keyed)
    ∙ sym (is_in-cons p ps (live_inviter k ms))

climbs_none : (n k : ℕ) (ms : Table Merchant) → climbs n [] k ms ≡ false
climbs_none zero k ms = refl
climbs_none (suc n) k ms = elim (Option-cases (live_inviter k ms)) [
  | inl top ↦ ground arith
  | inr (j, up) ↦ ground (arith, climbs_none n j ms)
]

climbs-nil :
    (n : ℕ) (ks : List ℕ) (k : ℕ) (ms : Table Merchant)
    → is_nil ks ≡ true
    → climbs n ks k ms ≡ false
climbs-nil n [] k ms h = climbs_none n k ms
climbs-nil n (x ∷ ks) k ms h = absurd (ground arith)

-- One step more, taken at the upper end.
climbs-children :
    (n : ℕ) (ks : List ℕ) (k : ℕ) (ms : Table Merchant)
    → IsKeyed ms
    → climbs (suc n) ks k ms ≡ (includes (children ks ms) k || climbs n (children ks ms) k ms)
climbs-children zero ks k ms keyed = elim (Option-cases (live_inviter k ms)) [
  | inl top ↦ ground (arith, includes-children ks k ms keyed)
  | inr (j, up) ↦ elim (Bool-cases (includes ks j)) [
    | inl e ↦ ground (arith, includes-children ks k ms keyed)
    | inr e ↦ ground (arith, includes-children ks k ms keyed)
  ]
]
climbs-children (suc n) ks k ms keyed = elim (Option-cases (live_inviter k ms)) [
  | inl top ↦ ground (arith, includes-children ks k ms keyed)
  | inr (j, up) ↦ elim (Bool-cases (includes ks j)) [
    | inl e ↦ ground (arith, includes-children ks k ms keyed)
    | inr e ↦ ground (arith, includes-children ks k ms keyed, climbs-children n ks j ms keyed)
  ]
]

is_below-climbs :
    (n : ℕ) (ks : List ℕ) (k : ℕ) (ms : Table Merchant)
    → IsKeyed ms
    → is_below n ks k ms ≡ climbs n ks k ms
is_below-climbs zero ks k ms keyed = refl
is_below-climbs (suc n) ks k ms keyed =
    let next = children ks ms in
    let step = climbs-children n ks k ms keyed in
    let ih = is_below-climbs n next k ms keyed in
    elim (Bool-cases (includes next k)) [
      | inl e ↦ ground arith
      | inr e ↦ elim (Bool-cases (is_nil next)) [
        | inr f ↦ ground arith
        | inl f ↦ ground (arith, climbs-nil n next k ms f)
      ]
    ]

-- For two merchants that exist and are not the same one, where the identifiers of merchants are
-- distinct: adminUpdateInviter refuses the one as inviter of the other exactly if at most three steps
-- from inviter to inviter, over merchants that are not deleted, lead from the new inviter to the
-- merchant. A longer circle of invitations is accepted.
pub admin_update_inviter-climbs :
    (merchant_id k now : ℕ) (db : Store) (m inviter : Merchant)
    → IsKeyed db.merchants
    → find merchant_id db.merchants ≡ some m
    → find k db.merchants ≡ some inviter
    → (k == merchant_id) ≡ false
    → (admin_update_inviter merchant_id (some k) now db).0 ≡ (
        if climbs 3 (merchant_id ∷ []) k db.merchants then err (bad_request cycle) else ok (some k))
unfolding admin_update_inviter
admin_update_inviter-climbs merchant_id k now db m inviter keyed here there other =
    let search = is_below-climbs 3 (merchant_id ∷ []) k db.merchants keyed in
    elim (Bool-cases (is_in_subtree merchant_id k db.merchants)) [
      | inl e ↦ rw (sym search) (ground arith)
      | inr e ↦ rw (sym search) (ground arith)
    ]
