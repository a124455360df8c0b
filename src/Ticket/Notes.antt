-- ===== src/Ticket/Notes.antt =====
-- apps/api/src/modules/ticket/ticket.service.ts, `findByBuyer`, `findOneForMerchant` and
-- `findOneForAdmin`: what each side sees of a ticket, and the platform's internal notes.
use winmelon_card.Base.{
  ℕ, ◌≡◌, inl, inr, Bool, true, false, ◌&&◌, some, List, [], ◌∷◌, ◌++◌, arith, ◌==◌, if◌then◌else◌,
  Option-cases, ==_iff, ==_refl,
}
use winmelon_card.Base.Text.{Text}
use winmelon_card.Base.Table.{find, find_first, IsKeyed, find_first-find}
use winmelon_card.Base.Result.{ok, not_found, forbidden, row_missing, other_email}
use winmelon_card.Schema.{Ticket, TicketMessage, by_platform}
use winmelon_card.Schema.Store.{Store}
use winmelon_card.Schema.Action.{Action, gets, or_throw, throw_if, ◌>>=◌, ◌>>◌}
use winmelon_card.Ticket.{with_ticket_no, own_ticket, reply_from_admin, cut}

-- `messages: { where, orderBy: { createdAt: 'asc' } }`
abbrev pub messages_of : (TicketMessage → Bool) → ℕ → List TicketMessage → List TicketMessage
messages_of p id [] = []
messages_of p id (m ∷ ms) =
    let older = messages_of p id ms in if m.ticket_id == id && p m then older ++ (m ∷ []) else older

-- `isInternal: false`
abbrev pub is_public : TicketMessage → Bool
is_public m = if m.is_internal then false else true

abbrev pub any : TicketMessage → Bool
any m = true

-- `findByBuyer`
unfoldable pub find_by_buyer : ℕ → ℕ → Action (Ticket × List TicketMessage)
find_by_buyer ticket_no email = do
  t ←
      or_throw (← gets (λ db. find_first (with_ticket_no ticket_no) db.tickets))
        (not_found row_missing)
  throw_if (if t.1.buyer_email == email then false else true) (forbidden other_email)
  gets (λ db. (t.1, messages_of is_public t.0 db.ticket_messages))

-- `findOneForMerchant`
unfoldable pub find_one_for_merchant : ℕ → ℕ → Action (Ticket × List TicketMessage)
find_one_for_merchant merchant_id ticket_id = do
  t ←
      or_throw (← gets (λ db. find_first (own_ticket ticket_id merchant_id db.shops) db.tickets))
        (not_found row_missing)
  gets (λ db. (t.1, messages_of any t.0 db.ticket_messages))

-- `findOneForAdmin`
unfoldable pub find_one_for_admin : ℕ → Action (Ticket × List TicketMessage)
find_one_for_admin ticket_id = do
  t ← or_throw (← gets (λ db. find ticket_id db.tickets)) (not_found row_missing)
  gets (λ db. (t, messages_of any ticket_id db.ticket_messages))

-- The row of an internal note.
abbrev pub note : ℕ → ℕ → Text → TicketMessage
note user ticket_id content = record {
  ticket_id = ticket_id;
  sender_role = by_platform;
  sender_id = some user;
  content = cut content;
  is_internal = true;
}

noted :
    (user ticket_id : ℕ) (content : Text) (now : ℕ) (db : Store)
    → (reply_from_admin user ticket_id content true now db).0 ≡ ok tt
    → ((reply_from_admin user ticket_id content true now db).1.tickets ≡ db.tickets)
      × ((reply_from_admin user ticket_id content true now db).1.shops ≡ db.shops)
      × ((reply_from_admin user ticket_id content true now db).1.ticket_messages
          ≡ note user ticket_id content ∷ db.ticket_messages)
unfolding reply_from_admin
noted user ticket_id content now db good = elim (Option-cases (find ticket_id db.tickets)) [
  | inl e ↦ absurd (ground arith)
  | inr (t, e) ↦ (ground arith, ground arith, ground arith)
]

-- After an internal note of the platform, a buyer sees of any ticket what was seen before, and the
-- merchant of the ticket sees the note, last of the messages.
pub find_one_for_merchant-reply_from_admin :
    (user merchant_id ticket_id ticket_no email : ℕ) (content : Text) (now : ℕ) (db : Store)
    (t : Ticket) (ms : List TicketMessage)
    → IsKeyed db.tickets
    → (reply_from_admin user ticket_id content true now db).0 ≡ ok tt
    → (find_one_for_merchant merchant_id ticket_id db).0 ≡ ok (t, ms)
    → ((find_by_buyer ticket_no email (reply_from_admin user ticket_id content true now db).1).0
        ≡ (find_by_buyer ticket_no email db).0)
      × ((find_one_for_merchant merchant_id ticket_id
            (reply_from_admin user ticket_id content true now db).1).0
          ≡ ok (t, ms ++ (note user ticket_id content ∷ [])))
unfolding find_by_buyer find_one_for_merchant
find_one_for_merchant-reply_from_admin user merchant_id ticket_id ticket_no email content now db t
      ms keyed good seen =
    let (tickets, shops, messages) = noted user ticket_id content now db good in
    let own = own_ticket ticket_id merchant_id db.shops in
    (
      elim (Option-cases (find_first (with_ticket_no ticket_no) db.tickets)) [
        | inl e ↦ ground arith
        | inr (row, e) ↦ ground arith
      ],
      elim (Option-cases (find_first own db.tickets)) [
        | inl e ↦ absurd (ground arith)
        | inr ((id, a), e) ↦
            let (there, mine) = find_first-find own db.tickets id a e keyed in
            let same : id ≡ ticket_id = ground (arith, ==_iff id ticket_id) in
            ground (arith, ==_refl ticket_id)
      ],
    )
