-- ===== src/Refund/Failures.antt =====
-- What a payout that the channel refuses leads to: the tries that follow, and the refund's status.
use winmelon_card.Base.{
  ℕ, zero, suc, ◌+◌, ◌*◌, ◌≡◌, refl, inl, inr, true, false, Option, none, some, List, ◌∷◌, arith,
  ltb, leb, if◌then◌else◌, Option-cases, Bool-cases, subst, ap, sym,
}
use winmelon_card.Base.Table.{find, adjust, find-adjust_self}
use winmelon_card.Base.Result.{ok, Result-cases}
use winmelon_card.Schema.{Refund, RefundStatus, Payment}
use winmelon_card.Schema.Store.{Store, AuditLog, refund_mark_failed}
use winmelon_card.Refund.{is_approved}
use winmelon_card.Payment.{refund_channel}
use winmelon_card.Refund.Payout.{refund_channel-store, mark_paid_unapproved}
use winmelon_card.Refund.Retry.{
  retry_refund, retry_payout, mark_failed, next_retry, fail_refund, set_alerted, alerted_lately,
  refund_max_retry_count, set_failed, retryable,
}

fail_refund_ok : (id count now : ℕ) (db : Store) → (fail_refund id count now db).0 ≡ ok tt
fail_refund_ok id count now db =
    elim (Option-cases (find id (adjust id (set_failed count now) db.refunds))) [
      | inl e ↦ ground arith
      | inr (r, e) ↦ ground arith
    ]

-- The channel may have paid the money back: the refund is counted as one more failure.
retry_refund-fail_refund :
    (answer : ℕ → Payment → Option ℕ) (id now : ℕ) (db : Store) (r : Refund)
    → find id db.refunds ≡ some r
    → r.status ≡ RefundStatus.failed
    → r.manual_payout ≡ false
    → ltb r.retry_count 3 ≡ true
    → retry_refund answer id now db
      ≡ (ok (RefundStatus.failed, r.retry_count + 1), (fail_refund id (r.retry_count + 1) now db).1)
unfolding retry_refund
retry_refund-fail_refund answer id now db r found is by_channel below =
    let same = refund_channel-store answer r.order_id db in
    let done = fail_refund_ok id (r.retry_count + 1) now db in
    elim (Result-cases (refund_channel answer r.order_id db).0) [
      | inl (t, asked) ↦
          let refused =
            mark_paid_unapproved answer id (retry_payout t) now db r found (ap is_approved is) in
          ground arith
      | inr (x, asked) ↦ ground arith
    ]

-- The next try: after the first failure in five minutes, after the second in thirty, then none.
abbrev pub next_try : ℕ → ℕ → Option ℕ
next_try zero now = some (now + 5 * 60000)
next_try (suc zero) now = some (now + 30 * 60000)
next_try (suc (suc n)) now = none

next_retry-suc : (n now : ℕ) → next_retry (n + 1) now ≡ next_try n now
next_retry-suc zero now = refl
next_retry-suc (suc zero) now = refl
next_retry-suc (suc (suc n)) now = ground arith

-- A refund after one more failed try, and what the failure left alone.
pub record IsFailedAgain (id now : ℕ) (r : Refund) (db db' : Store) : Type 0 where
  pub r' : Refund
  pub refund_after : find id db'.refunds ≡ some r'
  pub is_failed : r'.status ≡ RefundStatus.failed
  pub counted : r'.retry_count ≡ r.retry_count + 1
  pub scheduled : r'.next_retry_at ≡ next_try r.retry_count now
  pub same_orders : db'.orders ≡ db.orders
  pub same_merchants : db'.merchants ≡ db.merchants
  pub same_cards : db'.stock_cards ≡ db.stock_cards
  pub same_payments : db'.payments ≡ db.payments

fail_refund-IsFailedAgain :
    (id now : ℕ) (db : Store) (r : Refund)
    → find id db.refunds ≡ some r
    → IsFailedAgain id now r db (fail_refund id (r.retry_count + 1) now db).1
fail_refund-IsFailedAgain id now db r found =
    let f = set_failed (r.retry_count + 1) now in
    let once = find-adjust_self id f db.refunds r found in
    let twice = find-adjust_self id (set_alerted now) (adjust id f db.refunds) (f r) once in
    elim (Bool-cases (leb refund_max_retry_count (r.retry_count + 1))) [
      | inr few ↦ record {
        r' = f r;
        refund_after = ground arith;
        is_failed = refl;
        counted = refl;
        scheduled = next_retry-suc r.retry_count now;
        same_orders = ground arith;
        same_merchants = ground arith;
        same_cards = ground arith;
        same_payments = ground arith;
      }
      | inl many ↦ record {
        r' = if alerted_lately r.alert_sent_at now then f r else set_alerted now (f r);
        refund_after = ground arith;
        is_failed = ground arith;
        counted = ground arith;
        scheduled = ground (arith, next_retry-suc r.retry_count now);
        same_orders = ground arith;
        same_merchants = ground arith;
        same_cards = ground arith;
        same_payments = ground arith;
      }
    ]

-- A FAILED refund stays FAILED whatever the channel answers.
pub retry_refund-IsFailedAgain :
    (answer : ℕ → Payment → Option ℕ) (id now : ℕ) (db : Store) (r : Refund)
    → find id db.refunds ≡ some r
    → r.status ≡ RefundStatus.failed
    → r.manual_payout ≡ false
    → ltb r.retry_count 3 ≡ true
    → ((retry_refund answer id now db).0 ≡ ok (RefundStatus.failed, r.retry_count + 1))
      × IsFailedAgain id now r db (retry_refund answer id now db).1
retry_refund-IsFailedAgain answer id now db r found is by_channel below =
    let e = retry_refund-fail_refund answer id now db r found is by_channel below in
    (
      ap (λ x. x.0) e,
      subst (λ x. IsFailedAgain id now r db x.1) (sym e)
          (fail_refund-IsFailedAgain id now db r found),
    )

logged-IsFailedAgain :
    (id now : ℕ) (r : Refund) (db db' : Store) (logs : List AuditLog)
    → IsFailedAgain id now r db db'
    → IsFailedAgain id now r db (record db' { audit_logs = logs })
logged-IsFailedAgain id now r db db' logs h = record {
  r' = h.r';
  refund_after = h.refund_after;
  is_failed = h.is_failed;
  counted = h.counted;
  scheduled = h.scheduled;
  same_orders = h.same_orders;
  same_merchants = h.same_merchants;
  same_cards = h.same_cards;
  same_payments = h.same_payments;
}

mark_failed-fail_refund :
    (id now : ℕ) (db : Store) (r : Refund)
    → find id db.refunds ≡ some r
    → retryable r.status ≡ true
    → mark_failed id now db ≡ (
      ok (r.retry_count + 1),
      record (fail_refund id (r.retry_count + 1) now db).1 {
        audit_logs = record { action = refund_mark_failed; resource_id = id } ∷ db.audit_logs;
      },
    )
unfolding mark_failed
mark_failed-fail_refund id now db r found again =
    let f = set_failed (r.retry_count + 1) now in
    let once = find-adjust_self id f db.refunds r found in
    elim (Bool-cases (leb refund_max_retry_count (r.retry_count + 1))) [
      | inl many ↦ ground arith
      | inr few ↦ ground arith
    ]

-- `mark_failed` on a refund that may be retried.
pub mark_failed-IsFailedAgain :
    (id now : ℕ) (db : Store) (r : Refund)
    → find id db.refunds ≡ some r
    → retryable r.status ≡ true
    → ((mark_failed id now db).0 ≡ ok (r.retry_count + 1))
      × IsFailedAgain id now r db (mark_failed id now db).1
mark_failed-IsFailedAgain id now db r found again =
    let e = mark_failed-fail_refund id now db r found again in
    (
      ap (λ x. x.0) e,
      subst (λ x. IsFailedAgain id now r db x.1) (sym e)
          (logged-IsFailedAgain id now r db (fail_refund id (r.retry_count + 1) now db).1
            (record { action = refund_mark_failed; resource_id = id } ∷ db.audit_logs)
            (fail_refund-IsFailedAgain id now db r found)),
    )
