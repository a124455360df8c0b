-- ===== src/Refund/Retry.antt =====
-- apps/api/src/modules/refund/refund.service.ts, failures: a channel that does not pay back is tried
-- again after a while, three times at most, and then administrators are alerted; requests that
-- nobody reviews are rejected after seven days.
use winmelon_card.Base.{
  ℕ, ◌+◌, ◌*◌, ◌-◌, Bool, true, false, ◌&&◌, ◌||◌, Option, none, some, List, [], ◌∷◌, ltb, leb,
  ◌==◌, if◌then◌else◌, take,
}
use winmelon_card.Base.Table.{find, find_many, adjust}
use winmelon_card.Base.Text.{Text}
use winmelon_card.Base.Result.{
  ok, bad_request, not_found, row_missing, bad_status, manual, retries_exhausted,
}
use winmelon_card.Schema.{Refund, RefundStatus, Payment}
use winmelon_card.Schema.Store.{refund_mark_failed, refund_auto_reject}
use winmelon_card.Schema.Action.{
  Action, ⊤, pure, gets, or_throw, throw_if, modify, catch, record_audit, ◌>>=◌, ◌>>◌,
}
use winmelon_card.Order.{keys}
use winmelon_card.Payment.{refund_channel}
use winmelon_card.Refund.{is_refund_pending, is_approved, is_failed, mark_paid, PayoutRequest}

abbrev pub refund_max_retry_count : ℕ
refund_max_retry_count = 3

-- `REFUND_RETRY_BACKOFF_MS[min(n, 2)]`: one, five and thirty minutes.
abbrev pub backoff_ms : ℕ → ℕ
backoff_ms n = if n == 0 then 60000 else if n == 1 then 300000 else 1800000

abbrev pub next_retry : ℕ → ℕ → Option ℕ
next_retry count now =
    if leb refund_max_retry_count count then none else some (now + backoff_ms count)

-- `lastError` is the text of the exception, which is left out.
abbrev pub set_failed : ℕ → ℕ → Refund → Refund
set_failed count now r = record r {
  status = RefundStatus.failed;
  retry_count = count;
  last_error_at = some now;
  next_retry_at = next_retry count now;
}

abbrev pub alerted_lately : Option ℕ → ℕ → Bool
alerted_lately none now = false
alerted_lately (some t) now = ltb (now - t) (60 * 60 * 1000)

abbrev pub set_alerted : ℕ → Refund → Refund
set_alerted now r = record r { alert_sent_at = some now }

-- `sendSevereAlert`: one alert an hour for one refund.
abbrev pub send_severe_alert : ℕ → ℕ → Action ⊤
send_severe_alert id now db = elim (find id db.refunds) [
  | none ↦ (ok tt, db)
  | some r ↦ if alerted_lately r.alert_sent_at now then (ok tt, db) else (
    ok tt,
    record db { alerts = id ∷ db.alerts; refunds = adjust id (set_alerted now) db.refunds },
  )
]

abbrev pub fail_refund : ℕ → ℕ → ℕ → Action ⊤
fail_refund id count now = do
  modify (λ db. record db { refunds = adjust id (set_failed count now) db.refunds })
  if leb refund_max_retry_count count then send_severe_alert id now else pure tt

-- `{ manualPayout: false, tradeNo }`
abbrev pub retry_payout : ℕ → PayoutRequest
retry_payout t = record {
  manual_payout = false;
  trade_no = some t;
  force_override = false;
  usdt = none;
}

abbrev pub retryable : RefundStatus → Bool
retryable s = is_approved s || is_failed s

-- `retryRefund`: the status and the number of tries that it reports.
unfoldable pub retry_refund : (ℕ → Payment → Option ℕ) → ℕ → ℕ → Action (RefundStatus × ℕ)
unfolding refund_channel mark_paid
retry_refund answer id now = do
  r ← or_throw (← gets (λ db. find id db.refunds)) (not_found row_missing)
  throw_if r.manual_payout (bad_request manual)
  throw_if (if retryable r.status then false else true) (bad_request bad_status)
  throw_if (leb refund_max_retry_count r.retry_count) (bad_request retries_exhausted)
  catch
      (do
        t ← refund_channel answer r.order_id
        mark_paid answer id (retry_payout t) now
        pure (RefundStatus.paid, r.retry_count + 1))
      (λ e. do
        fail_refund id (r.retry_count + 1) now
        pure (RefundStatus.failed, r.retry_count + 1))

abbrev pub due_by : ℕ → Option ℕ → Bool
due_by now none = false
due_by now (some t) = leb t now

abbrev is_due : ℕ → ℕ → Refund → Bool
is_due now id r =
    is_failed r.status
    && ltb r.retry_count refund_max_retry_count
    && due_by now r.next_retry_at
    && (if r.manual_payout then false else true)

unfoldable pub retry_each : (ℕ → Payment → Option ℕ) → List ℕ → ℕ → Action ⊤
unfolding retry_refund
retry_each answer [] now = pure tt
retry_each answer (id ∷ ids) now = do
  catch (do retry_refund answer id now; pure tt) (λ e. pure tt)
  retry_each answer ids now

-- The timer, every minute.
unfoldable pub retry_failed_refunds : (ℕ → Payment → Option ℕ) → ℕ → Action ⊤
unfolding retry_each
retry_failed_refunds answer now = do
  due ← gets (λ db. take 20 (keys (find_many (is_due now) db.refunds)))
  retry_each answer due now

-- `markFailed`: the number of tries that it reports.
unfoldable pub mark_failed : ℕ → ℕ → Action ℕ
mark_failed id now = do
  r ← or_throw (← gets (λ db. find id db.refunds)) (not_found row_missing)
  throw_if (if retryable r.status then false else true) (bad_request bad_status)
  modify (λ db. record db { refunds = adjust id (set_failed (r.retry_count + 1) now) db.refunds })
  record_audit refund_mark_failed id
  if leb refund_max_retry_count (r.retry_count + 1) then send_severe_alert id now else pure tt
  pure (r.retry_count + 1)

-- Seven days.
abbrev pub refund_approval_timeout_ms : ℕ
refund_approval_timeout_ms = 7 * 24 * 60 * 60 * 1000

abbrev pub is_overdue : ℕ → ℕ → Refund → Bool
is_overdue now id r =
    is_refund_pending r.status && ltb r.created_at (now - refund_approval_timeout_ms)

abbrev pub set_auto_rejected : Text → ℕ → Refund → Refund
set_auto_rejected reason now r = record r {
  status = RefundStatus.rejected;
  reject_reason = some reason;
  rejected_at = some now;
}

unfoldable pub auto_reject_each : Text → List ℕ → ℕ → Action ⊤
auto_reject_each reason [] now = pure tt
auto_reject_each reason (id ∷ ids) now = do
  modify (λ db. record db { refunds = adjust id (set_auto_rejected reason now) db.refunds })
  record_audit refund_auto_reject id
  auto_reject_each reason ids now

-- The timer, every ten minutes. `reason` is the fixed text that it writes.
unfoldable pub auto_reject_expired : Text → ℕ → Action ⊤
unfolding auto_reject_each
auto_reject_expired reason now = do
  overdue ← gets (λ db. take 50 (keys (find_many (is_overdue now) db.refunds)))
  auto_reject_each reason overdue now
