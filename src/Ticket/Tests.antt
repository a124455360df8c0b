-- ===== src/Ticket/Tests.antt =====
-- Tickets on the sample shop.
use winmelon_card.Base.{ℕ, ◌≡◌, refl, true, Option, none, some, List, [], ◌∷◌, ◌++◌, arith}
use winmelon_card.Base.Text.{trim}
use winmelon_card.Base.Table.{find}
use winmelon_card.Base.Result.{ok}
use winmelon_card.Schema.{
  Ticket, TicketStatus, TicketCategory, MerchantStatus, OrderStatus, StockCardStatus, Payment,
}
use winmelon_card.Schema.Store.{Store}
use winmelon_card.Sample.{ordered, order, merchant}
use winmelon_card.Ticket.{
  CreateTicketInput, reply_from_buyer, reply_from_merchant, reply_from_admin,
}
use winmelon_card.Ticket.Timer.{Fresh, Expired, process_auto_refund, is_expired}
use winmelon_card.Ticket.Calls.{
  Call, creates, merchant_replies, buyer_replies, resolves, times_out, Course, perform, perform_all,
  perform-Course,
}
use winmelon_card.Ticket.Freeze.{IsStrict, perform_all-IsStrict}
use winmelon_card.Ticket.Notes.{
  find_by_buyer, find_one_for_merchant, note, find_one_for_merchant-reply_from_admin,
}
use winmelon_card.Ticket.Unpaid.{
  IsUnpaid, process_auto_refund-IsUnpaid, reply_from_buyer-reply_from_merchant,
}

abbrev ticket : TicketStatus → Ticket
ticket s = record {
  ticket_no = 7000;
  order_id = some 50;
  shop_id = 10;
  buyer_email = 900;
  category = TicketCategory.other;
  subject = 97 ∷ [];
  description = 98 ∷ [];
  status = s;
  last_replied_at = none;
  last_replied_by_role = none;
  auto_refund_at = some 86400000;
  resolved_at = none;
  refund_amount = none;
}

abbrev reported : Store
reported = record (ordered OrderStatus.delivered StockCardStatus.sold) {
  tickets = (70, ticket TicketStatus.open_ticket) ∷ [];
}

-- Four tickets have been refunded before.
abbrev ignored : Store
ignored = record reported {
  tickets =
      (70, ticket TicketStatus.open_ticket)
      ∷ (71, record (ticket TicketStatus.auto_refunded) { ticket_no = 7001 })
      ∷ (72, record (ticket TicketStatus.auto_refunded) { ticket_no = 7002 })
      ∷ (73, record (ticket TicketStatus.auto_refunded) { ticket_no = 7003 })
      ∷ (74, record (ticket TicketStatus.auto_refunded) { ticket_no = 7004 })
      ∷ [];
}

abbrev fresh : ℕ → Fresh
fresh id = record { refund_id = 80; refund_no = 6000; reason = 99 ∷ [] }

abbrev channel : ℕ → Payment → Option ℕ
channel id p = some 1

abbrev complaint : CreateTicketInput
complaint = record {
  order_no = some 5000;
  buyer_email = some 900;
  category = none;
  subject = 97 ∷ [];
  description = 98 ∷ [];
}

abbrev day : List Call
day =
    creates 75 7005 complaint 0
    ∷ merchant_replies 2 1 75 (104 ∷ []) 100
    ∷ buyer_replies 7005 900 (104 ∷ []) 200
    ∷ times_out channel fresh 86400001
    ∷ resolves 75 86400002
    ∷ []

suspended_after :
    find 1 (perform (times_out channel fresh 86400001) ignored).merchants
    ≡ some (record merchant { status = MerchantStatus.suspended; frozen_at = some 86400001 })
unfolding perform trim
suspended_after = refl

ignored-IsStrict : IsStrict ignored
ignored-IsStrict = record {
  keyed = (refl, (refl, (refl, (refl, (refl, tt)))));
  suspended = λ k m there many. ground arith;
}

perform-Course_example : Course reported (perform (times_out channel fresh 86400001) reported)
perform-Course_example = perform-Course (times_out channel fresh 86400001) reported (refl, tt)

perform_all-IsStrict_example : IsStrict (perform_all day ignored)
perform_all-IsStrict_example = perform_all-IsStrict day ignored ignored-IsStrict

abbrev read : Expired
read = record {
  ticket = ticket TicketStatus.open_ticket;
  order = some (order OrderStatus.delivered);
  merchant_id = some 1;
}

process_auto_refund-IsUnpaid_example :
    ((process_auto_refund channel (fresh 70) 70 read 86400001 reported).0 ≡ ok tt)
    × IsUnpaid 70 86400001 read reported
        (process_auto_refund channel (fresh 70) 70 read 86400001 reported).1
process_auto_refund-IsUnpaid_example =
    process_auto_refund-IsUnpaid channel (fresh 70) 70 86400001 read 1 merchant reported refl refl
      refl

merchant_replied : (reply_from_merchant 2 1 70 (104 ∷ []) 100 reported).0 ≡ ok tt
unfolding reply_from_merchant trim
merchant_replied = refl

buyer_replied :
    (reply_from_buyer 7000 900
      (104 ∷ [])
      86400000
      (reply_from_merchant 2 1 70 (104 ∷ []) 100 reported).1).0
    ≡ ok tt
unfolding reply_from_merchant reply_from_buyer trim
buyer_replied = refl

reply_from_buyer-reply_from_merchant_example :
    (t' : Ticket) × (find 70
        (reply_from_buyer 7000 900
          (104 ∷ [])
          86400000
          (reply_from_merchant 2 1 70 (104 ∷ []) 100 reported).1).1.tickets
      ≡ some t')
    × (is_expired 86400001 70 t' ≡ true)
reply_from_buyer-reply_from_merchant_example =
    reply_from_buyer-reply_from_merchant 2 1 70 7000 900 100 86400000 86400000 86400001 (104 ∷ [])
      (104 ∷ []) (ticket TicketStatus.open_ticket) reported (refl, tt) refl refl refl
      merchant_replied buyer_replied

internal_note : (reply_from_admin 9 70 (110 ∷ []) true 300 reported).0 ≡ ok tt
unfolding reply_from_admin trim
internal_note = refl

seen_before : (find_one_for_merchant 1 70 reported).0 ≡ ok (ticket TicketStatus.open_ticket, [])
unfolding find_one_for_merchant
seen_before = refl

find_one_for_merchant-reply_from_admin_example :
    ((find_by_buyer 7000 900 (reply_from_admin 9 70 (110 ∷ []) true 300 reported).1).0
      ≡ (find_by_buyer 7000 900 reported).0)
    × ((find_one_for_merchant 1 70 (reply_from_admin 9 70 (110 ∷ []) true 300 reported).1).0
        ≡ ok (ticket TicketStatus.open_ticket, [] ++ (note 9 70 (110 ∷ []) ∷ [])))
find_one_for_merchant-reply_from_admin_example =
    find_one_for_merchant-reply_from_admin 9 1 70 7000 900 (110 ∷ []) 300 reported
      (ticket TicketStatus.open_ticket) [] (refl, tt) internal_note seen_before
