-- ===== src/Ticket/Freeze.antt =====
-- A merchant with too many unanswered tickets is suspended, and closed tickets stay as they are.
use winmelon_card.Base.{
  ℕ, ◌≤◌, ◌≡◌, sym, ap, subst, inl, inr, Bool, true, false, some, List, [], ◌∷◌, arith, ◌==◌, leb,
  Bool-cases, Option-cases, ==_iff, ==_refl,
}
use winmelon_card.Base.Table.{Table, find, adjust, count, IsKeyed, adjust-IsKeyed, find-adjust-back}
use winmelon_card.Schema.{Ticket, by_platform, Merchant, MerchantStatus, Shop}
use winmelon_card.Schema.Store.{Store}
use winmelon_card.Ticket.{is_shop_of, set_replied, set_resolved, unresponded_freeze_threshold}
use winmelon_card.Ticket.Timer.{set_auto_refunded, is_auto_refunded, unresponded, freeze, owner_of}
use winmelon_card.Ticket.Step.{Step, skip, report, answer, intervene, settle, lapse, punish}
use winmelon_card.Ticket.Calls.{Course, done, then, Call, perform, perform_all, perform-Course}

abbrev pub is_suspended : MerchantStatus → Bool
is_suspended MerchantStatus.suspended = true
is_suspended MerchantStatus.pending = false
is_suspended MerchantStatus.active = false
is_suspended MerchantStatus.rejected = false

-- The merchants with five or more AUTO_REFUNDED tickets are SUSPENDED.
abbrev pub AreSuspended : Table Ticket → Table Merchant → Table Shop → Type 0
AreSuspended tickets merchants shops =
    (k : ℕ) (m : Merchant)
    → find k merchants ≡ some m
    → leb unresponded_freeze_threshold (count (unresponded k shops) tickets) ≡ true
    → is_suspended m.status ≡ true

pub record IsStrict (db : Store) : Type 0 where
  pub keyed : IsKeyed db.tickets
  pub suspended : AreSuspended db.tickets db.merchants db.shops

count-adjust-le :
    (q : ℕ → Ticket → Bool) (id : ℕ) (f : Ticket → Ticket) (t : Table Ticket)
    → ((k : ℕ) (a : Ticket) → q k (f a) ≡ true → q k a ≡ true)
    → count q (adjust id f t) ≤ count q t
count-adjust-le q id f [] h = ground arith
count-adjust-le q id f ((j, a) ∷ t) h = elim (Bool-cases (j == id)) [
  | inl e ↦ elim (Bool-cases (q j (f a))) [
    | inl g ↦ let was = h j a g in ground arith
    | inr g ↦ ground arith
  ]
  | inr e ↦ ground (arith, count-adjust-le q id f t h)
]

-- A ticket of another merchant does not count.
count-adjust-same :
    (q : ℕ → Ticket → Bool) (id : ℕ) (f : Ticket → Ticket) (t : Table Ticket) (a : Ticket)
    → find id t ≡ some a
    → q id (f a) ≡ q id a
    → count q (adjust id f t) ≡ count q t
count-adjust-same q id f [] a here h = absurd (ground arith)
count-adjust-same q id f ((j, b) ∷ t) a here h = elim (Bool-cases (j == id)) [
  | inl e ↦ ground (arith, ==_iff j id)
  | inr e ↦ ground (arith, count-adjust-same q id f t a)
]

-- Tickets and merchants as they stand after a step.
strict :
    {db' : Store} (tickets : Table Ticket) (merchants : Table Merchant) (shops : Table Shop)
    → db'.tickets ≡ tickets
    → db'.merchants ≡ merchants
    → db'.shops ≡ shops
    → IsKeyed tickets
    → AreSuspended tickets merchants shops
    → IsStrict db'
strict {db' = db'} tickets merchants shops t m s keyed h = record {
  keyed = subst IsKeyed (sym t) keyed;
  suspended =
      subst (λ x. AreSuspended x db'.merchants db'.shops) (sym t)
        (subst (λ x. AreSuspended tickets x db'.shops) (sym m)
          (subst (λ x. AreSuspended tickets merchants x) (sym s) h));
}

-- A change of a ticket that does not count it.
changed-AreSuspended :
    (id : ℕ) (f : Ticket → Ticket) (db : Store)
    → IsStrict db
    → ((a : Ticket) → is_auto_refunded (f a).status ≡ true → f a ≡ a)
    → AreSuspended (adjust id f db.tickets) db.merchants db.shops
changed-AreSuspended id f db h out k m there many =
    let fewer =
      count-adjust-le (unresponded k db.shops) id f db.tickets
        (λ j a e. let same = out a (ground arith) in ground arith) in
    h.suspended k m there (ground (arith, fewer))

is_shop_of-owner_of :
    (k : ℕ) (shops : Table Shop) (t : Ticket)
    → is_shop_of k shops t.shop_id ≡ true
    → owner_of shops t ≡ some k
is_shop_of-owner_of k shops t h = elim (Option-cases (find t.shop_id shops)) [
  | inl e ↦ absurd (ground arith)
  | inr (s, e) ↦ ground (arith, ==_iff s.merchant_id k)
]

-- A merchant whose shop the ticket is not of has as many AUTO_REFUNDED tickets as before.
lapsed_other :
    (id now : ℕ) (amount : _) (t : Ticket) (j : ℕ) (db : Store)
    → find id db.tickets ≡ some t
    → is_shop_of j db.shops t.shop_id ≡ false
    → count (unresponded j db.shops) (adjust id (set_auto_refunded amount now) db.tickets)
      ≡ count (unresponded j db.shops) db.tickets
lapsed_other id now amount t j db there other =
    count-adjust-same (unresponded j db.shops) id (set_auto_refunded amount now) db.tickets t there
      (ground arith)

Step-IsStrict : {db db' : Store} → IsStrict db → Step db db' → IsStrict db'
Step-IsStrict h (skip t m s) = strict _ _ _ t m s h.keyed h.suspended
Step-IsStrict {db = db} h (report id a new fresh t m s) =
    strict _ _ _ t m s (new, h.keyed)
      (λ k r there many. h.suspended k r there (ground (arith, ap is_auto_refunded fresh)))
Step-IsStrict {db = db} h (answer id now role a there unclosed t m s) =
    strict _ _ _ t m s (adjust-IsKeyed id (set_replied role now) db.tickets h.keyed)
      (changed-AreSuspended id (set_replied role now) db h (λ b e. absurd (ground arith)))
Step-IsStrict {db = db} h (intervene id now a there t m s) =
    strict _ _ _ t m s (adjust-IsKeyed id (set_replied by_platform now) db.tickets h.keyed)
      (changed-AreSuspended id (set_replied by_platform now) db h (λ b e. absurd (ground arith)))
Step-IsStrict {db = db} h (settle id now a there t m s) =
    strict _ _ _ t m s (adjust-IsKeyed id (set_resolved now) db.tickets h.keyed)
      (changed-AreSuspended id (set_resolved now) db h (λ b e. absurd (ground arith)))
Step-IsStrict {db = db} h (lapse id now amount a there unclosed few t m s) =
    let f = set_auto_refunded amount now in
    strict _ _ _ t m s (adjust-IsKeyed id f db.tickets h.keyed) (λ k r here many.
      elim (Bool-cases (is_shop_of k db.shops a.shop_id)) [
        | inl own ↦
            let below = few k (is_shop_of-owner_of k db.shops a own) in
            absurd (ground (arith, ap (count (unresponded k db.shops)) t))
        | inr other ↦
            h.suspended k r here (ground (arith, lapsed_other id now amount a k db there other))
      ])
Step-IsStrict {db = db} h (punish id now amount a j there unclosed owner enough t m s) =
    let f = set_auto_refunded amount now in
    strict _ _ _ t m s (adjust-IsKeyed id f db.tickets h.keyed) (λ k r here many.
      let (b, before, is) = find-adjust-back k j (freeze now) db.merchants r here in
      elim (Bool-cases (k == j)) [
        | inl same ↦ ground arith
        | inr apart ↦ elim (Bool-cases (is_shop_of k db.shops a.shop_id)) [
          | inl own ↦
              let mine = is_shop_of-owner_of k db.shops a own in absurd (ground (arith, ==_refl k))
          | inr other ↦
              let old =
                h.suspended k b before
                  (ground (arith, lapsed_other id now amount a k db there other)) in
              ground arith
        ]
      ])

Course-IsStrict : {db db' : Store} → IsStrict db → Course db db' → IsStrict db'
Course-IsStrict h done = h
Course-IsStrict h (then s rest) = Course-IsStrict (Step-IsStrict h s) rest

pub perform-IsStrict : (c : Call) (db : Store) → IsStrict db → IsStrict (perform c db)
perform-IsStrict c db h = Course-IsStrict h (perform-Course c db h.keyed)

-- If the merchants with five or more AUTO_REFUNDED tickets are SUSPENDED, and the identifiers of
-- tickets are distinct, this is so after any sequence of tickets, replies, resolutions and runs of
-- the timer, the refused ones among them.
pub perform_all-IsStrict :
    (cs : List Call) (db : Store) → IsStrict db → IsStrict (perform_all cs db)
unfolding perform_all
perform_all-IsStrict [] db h = h
perform_all-IsStrict (c ∷ cs) db h =
    perform_all-IsStrict cs (perform c db) (perform-IsStrict c db h)
