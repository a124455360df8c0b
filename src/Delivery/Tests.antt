-- ===== src/Delivery/Tests.antt =====
-- A delivery on the sample shop.
use winmelon_card.Base.{◌≡◌, refl, Bool, [], ◌∷◌}
use winmelon_card.Delivery.Emails.{next_task, retry_delivery_emails}
use winmelon_card.Base.Result.{ok}
use winmelon_card.Schema.{OrderStatus, StockCardStatus}
use winmelon_card.Schema.Store.{Store, EmailTask}
use winmelon_card.Sample.{ordered}
use winmelon_card.Delivery.{deliver}
use winmelon_card.Delivery.Handout.{Delivered, deliver-Delivered}

abbrev paid_for : Store
paid_for = ordered OrderStatus.paid StockCardStatus.locked

deliver-Delivered_example :
    Delivered 50 7 paid_for (deliver 50 7 paid_for).0 (deliver 50 7 paid_for).1
deliver-Delivered_example = deliver-Delivered 50 7 paid_for (refl, tt)

deliver-paid_for : (deliver 50 7 paid_for).0 ≡ ok tt
unfolding deliver
deliver-paid_for = refl

-- An e-mail that has failed once.
abbrev late_email : EmailTask
late_email = record { order_id = 50; attempt = 1 }

abbrev queued : Store
queued = record paid_for { email_retry = (60000, late_email) ∷ [] }

-- After five minutes it is tried for the second time.
retry_delivery_emails-queued :
    (retry_delivery_emails (λ k. Bool.false) 60000 queued).1.email_retry
    ≡ (360000, next_task late_email) ∷ []
unfolding retry_delivery_emails
retry_delivery_emails-queued = refl
