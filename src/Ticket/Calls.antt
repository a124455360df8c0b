-- ===== src/Ticket/Calls.antt =====
-- The runs of the timer, and any sequence of calls of the ticket service.
use winmelon_card.Base.{
  ℕ, zero, suc, ◌≡◌, ◌≢◌, refl, sym, ◌∙◌, ap, subst, ◌⊎◌, inl, inr, Bool, true, false, Option, none,
  some, List, [], ◌∷◌, arith, take, Bool-cases, ==_iff,
}
use winmelon_card.Base.Text.{Text}
use winmelon_card.Base.Table.{Table, find, find_many, adjust, IsKeyed, find-adjust_ne}
use winmelon_card.Base.Rows.{AreRows, find_many-AreRows}
use winmelon_card.Base.Result.{Result-cases}
use winmelon_card.Schema.{Ticket, Payment}
use winmelon_card.Schema.Store.{Store}
use winmelon_card.Ticket.{
  CreateTicketInput, create, reply_from_buyer, reply_from_merchant, reply_from_admin, resolve,
  is_closed,
}
use winmelon_card.Ticket.Timer.{
  Fresh, Expired, process_auto_refund, process_each, auto_refund_expired_tickets, set_auto_refunded,
  amount_of, owner_of, include, is_expired,
}
use winmelon_card.Ticket.Step.{
  Step, create-Step, reply_from_buyer-Step, reply_from_merchant-Step, reply_from_admin-Step,
  resolve-Step, process_auto_refund-Step, try_refund-IsSpared,
}

pub data Course : Store → Store → Type 0 where
  done : {db : Store} → Course db db
  then : {db next last : Store} → Step db next → Course next last → Course db last

-- What the timer has read is still so in the store.
abbrev AreRead : Table Expired → Store → Type 0
AreRead [] db = Unit
AreRead ((id, x) ∷ xs) db =
    (find id db.tickets ≡ some x.ticket)
    × (is_closed x.ticket.status ≡ false)
    × (x.merchant_id ≡ owner_of db.shops x.ticket)
    × (find id xs ≡ none)
    × AreRead xs db

adjust-AreRead :
    (id : ℕ) (f : Ticket → Ticket) (xs : Table Expired) (db db' : Store)
    → find id xs ≡ none
    → db'.shops ≡ db.shops
    → (db'.tickets ≡ db.tickets) ⊎ (db'.tickets ≡ adjust id f db.tickets)
    → AreRead xs db
    → AreRead xs db'
adjust-AreRead id f [] db db' out shops tickets h = tt
adjust-AreRead id f ((j, x) ∷ xs) db db' out shops tickets (there, waits, owner, once, rest) =
    let other : j ≢ id = ground (arith, ==_iff j id) in
    let kept = find-adjust_ne j id f db.tickets other in
    (
      elim tickets [ inl e ↦ ap (find j) e ∙ there | inr e ↦ ap (find j) e ∙ kept ∙ there ],
      waits,
      owner ∙ ap (λ t. owner_of t x.ticket) (sym shops),
      once,
      adjust-AreRead id f xs db db' (ground arith) shops tickets rest,
    )

process_auto_refund-tickets :
    (channel : ℕ → Payment → Option ℕ) (fresh : Fresh) (id : ℕ) (x : Expired) (now : ℕ) (db : Store)
    → ((process_auto_refund channel fresh id x now db).1.shops ≡ db.shops)
      × (((process_auto_refund channel fresh id x now db).1.tickets ≡ db.tickets)
          ⊎ ((process_auto_refund channel fresh id x now db).1.tickets
              ≡ adjust id (set_auto_refunded (amount_of x.order) now) db.tickets))
unfolding process_auto_refund
process_auto_refund-tickets channel fresh id x now db =
    let (tried, spared) = try_refund-IsSpared channel fresh x.ticket.order_id x.order now db in
    let same_tickets = spared.same_tickets in
    let same_shops = spared.same_shops in
    (
      ground arith,
      elim (Result-cases (process_auto_refund channel fresh id x now db).0) [
        | inl (u, e) ↦ inr (ground arith)
        | inr (y, e) ↦ inl (ground arith)
      ],
    )

process_each-Course :
    (channel : ℕ → Payment → Option ℕ) (fresh : ℕ → Fresh) (xs : Table Expired) (now : ℕ)
    (db : Store)
    → AreRead xs db
    → Course db (process_each channel fresh xs now db).1
unfolding process_each
process_each-Course channel fresh [] now db h = done
process_each-Course channel fresh ((id, x) ∷ xs) now db (there, waits, owner, once, rest) =
    let run = process_auto_refund channel (fresh id) id x now db in
    let (shops, tickets) = process_auto_refund-tickets channel (fresh id) id x now db in
    let f = set_auto_refunded (amount_of x.order) now in
    let same : (process_each channel fresh ((id, x) ∷ xs) now db).1
        ≡ (process_each channel fresh xs now run.1).1 =
      elim (Result-cases run.0) [ inl (u, g) ↦ ground arith | inr (y, g) ↦ ground arith ] in
    subst (Course db) (sym same) (
      then (process_auto_refund-Step channel (fresh id) id x now db there waits owner) (
        process_each-Course channel fresh xs now run.1
          (adjust-AreRead id f xs db run.1 once shops tickets rest)))

-- The rows that the timer takes pass its test.
abbrev AllPass : ℕ → Table Ticket → Type 0
AllPass now [] = Unit
AllPass now ((id, t) ∷ ts) = (is_expired now id t ≡ true) × AllPass now ts

find_many-AllPass : (now : ℕ) (t : Table Ticket) → AllPass now (find_many (is_expired now) t)
find_many-AllPass now [] = tt
find_many-AllPass now ((id, t) ∷ ts) =
    let rest = find_many-AllPass now ts in
    let kept = find_many (is_expired now) ts in
    elim (Bool-cases (is_expired now id t)) [
      | inl e ↦
          let same : find_many (is_expired now) ((id, t) ∷ ts) ≡ (id, t) ∷ kept = ground arith in
          subst (AllPass now) (sym same) (e, rest)
      | inr e ↦
          let same : find_many (is_expired now) ((id, t) ∷ ts) ≡ kept = ground arith in
          subst (AllPass now) (sym same) rest
    ]

waiting_unclosed :
    (now id : ℕ) (t : Ticket) → is_expired now id t ≡ true → is_closed t.status ≡ false
waiting_unclosed now id t h = ground arith

include_absent :
    (k n : ℕ) (db : Store) (ts : Table Ticket)
    → find k ts ≡ none
    → find k (include db (take n ts)) ≡ none
include_absent k zero db ts h = refl
include_absent k (suc n) db [] h = refl
include_absent k (suc n) db ((id, t) ∷ ts) h = ground (arith, include_absent k n db ts)

include-AreRead :
    (n now : ℕ) (db : Store) (ts : Table Ticket)
    → AreRows ts db.tickets
    → AllPass now ts
    → AreRead (include db (take n ts)) db
include-AreRead zero now db ts rows h = tt
include-AreRead (suc n) now db [] rows h = tt
include-AreRead (suc n) now db ((id, t) ∷ ts) (here, once, rows) (e, h) = (
  here,
  waiting_unclosed now id t e,
  refl,
  include_absent id n db ts once,
  include-AreRead n now db ts rows h,
)

auto_refund-Course :
    (channel : ℕ → Payment → Option ℕ) (fresh : ℕ → Fresh) (now : ℕ) (db : Store)
    → IsKeyed db.tickets
    → Course db (auto_refund_expired_tickets channel fresh now db).1
unfolding auto_refund_expired_tickets
auto_refund-Course channel fresh now db keyed =
    let ts = find_many (is_expired now) db.tickets in
    process_each-Course channel fresh (include db (take 50 ts)) now db (
      include-AreRead 50 now db ts (find_many-AreRows (is_expired now) db.tickets keyed)
        (find_many-AllPass now db.tickets))

-- The calls of the controllers and the scheduler.
pub data Call : Type 0 where
  creates : (id ticket_no : ℕ) → CreateTicketInput → (now : ℕ) → Call
  buyer_replies : (ticket_no email : ℕ) → Text → (now : ℕ) → Call
  merchant_replies : (user merchant_id ticket_id : ℕ) → Text → (now : ℕ) → Call
  admin_replies : (user ticket_id : ℕ) → Text → (internal : Bool) → (now : ℕ) → Call
  resolves : (ticket_id now : ℕ) → Call
  times_out : (ℕ → Payment → Option ℕ) → (ℕ → Fresh) → (now : ℕ) → Call

unfoldable pub perform : Call → Store → Store
unfolding create reply_from_buyer reply_from_merchant reply_from_admin resolve
    auto_refund_expired_tickets
perform (creates id ticket_no input now) db = (create id ticket_no input now db).1
perform (buyer_replies ticket_no email content now) db =
    (reply_from_buyer ticket_no email content now db).1
perform (merchant_replies user merchant_id ticket_id content now) db =
    (reply_from_merchant user merchant_id ticket_id content now db).1
perform (admin_replies user ticket_id content internal now) db =
    (reply_from_admin user ticket_id content internal now db).1
perform (resolves ticket_id now) db = (resolve ticket_id now db).1
perform (times_out channel fresh now) db = (auto_refund_expired_tickets channel fresh now db).1

unfoldable pub perform_all : List Call → Store → Store
unfolding perform
perform_all [] db = db
perform_all (c ∷ cs) db = perform_all cs (perform c db)

single : {db db' : Store} → Step db db' → Course db db'
single s = then s done

-- Every call of the ticket service, however it ends, comes down to steps: a new ticket, a reply to a
-- ticket that is not closed, a reply of the platform, a resolution, or a ticket that is not closed
-- and is refunded by the timer, which suspends its merchant exactly if five or more of the merchant's tickets
-- are then AUTO_REFUNDED.
pub perform-Course : (c : Call) (db : Store) → IsKeyed db.tickets → Course db (perform c db)
unfolding perform
perform-Course (creates id ticket_no input now) db keyed =
    single (create-Step id ticket_no input now db)
perform-Course (buyer_replies ticket_no email content now) db keyed =
    single (reply_from_buyer-Step ticket_no email content now db keyed)
perform-Course (merchant_replies user merchant_id ticket_id content now) db keyed =
    single (reply_from_merchant-Step user merchant_id ticket_id content now db keyed)
perform-Course (admin_replies user ticket_id content internal now) db keyed =
    single (reply_from_admin-Step user ticket_id content internal now db)
perform-Course (resolves ticket_id now) db keyed = single (resolve-Step ticket_id now db)
perform-Course (times_out channel fresh now) db keyed =
    auto_refund-Course channel fresh now db keyed
