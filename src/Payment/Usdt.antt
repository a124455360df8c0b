-- ===== src/Payment/Usdt.antt =====
-- apps/api/src/modules/payment/usdt.service.ts: payments on the TRON chain, found by their amount
-- among the recent transfers to a wallet. The transfers that TronGrid reports are an argument, none
-- for a wallet whose request fails; amounts are in millionths of a USDT.
use winmelon_card.Base.{
  ℕ, ◌+◌, ◌*◌, Bool, true, false, ◌&&◌, Option, none, some, List, [], ◌∷◌, ltb, ◌==◌, if◌then◌else◌,
  includes, is_some_of, take,
}
use winmelon_card.Base.Table.{Table, find, find_first, find_many, adjust, update_many}
use winmelon_card.Base.Result.{Result, failure}
use winmelon_card.Schema.{Payment, PaymentStatus}
use winmelon_card.Schema.Store.{order_paid}
use winmelon_card.Schema.Action.{
  Action, ⊤, pure, gets, or_throw, modify, transaction, catch, emit, ◌>>=◌, ◌>>◌,
}
use winmelon_card.Payment.{set_paid, is_payment_pending, is_marked}

pub record Transfer : Type 0 where
  pub transaction_id : ℕ
  pub value : ℕ

abbrev pub set_usdt_success : ℕ → ℕ → Payment → Payment
set_usdt_success tx_hash now p = record p {
  status = PaymentStatus.success;
  paid_at = some now;
  usdt_tx_hash = some tx_hash;
}

-- The transaction of `confirmPayment`: `update` throws on a missing row.
unfoldable pub settle_usdt : ℕ → ℕ → ℕ → ℕ → Action ⊤
settle_usdt payment_id order_id tx_hash now = do
  p ← or_throw (← gets (λ db. find payment_id db.payments)) failure
  modify
      (λ db. record db { payments = adjust payment_id (set_usdt_success tx_hash now) db.payments })
  o ← or_throw (← gets (λ db. find order_id db.orders)) failure
  modify (λ db. record db { orders = adjust order_id (set_paid now) db.orders })

unfoldable pub confirm_payment : ℕ → ℕ → ℕ → ℕ → ℕ → Action ⊤
unfolding settle_usdt
confirm_payment usdt payment_id order_id tx_hash now =
    catch
      (do
        transaction (settle_usdt payment_id order_id tx_hash now)
        emit (order_paid order_id usdt))
      (λ e. pure tt)

abbrev after_now : ℕ → Option ℕ → Bool
after_now now none = false
after_now now (some t) = ltb now t

abbrev before_now : ℕ → Option ℕ → Bool
before_now now none = false
before_now now (some t) = ltb t now

abbrev is_given : Option ℕ → Bool
is_given none = false
is_given (some k) = true

-- `channel: 'usdt', status: 'PENDING'`, with a wallet and an amount, not expired.
abbrev pub awaited : ℕ → ℕ → ℕ → Payment → Bool
awaited usdt now id p =
    p.channel == usdt
    && is_payment_pending p.status
    && is_given p.usdt_wallet
    && is_given p.usdt_amount
    && after_now now p.expires_at

abbrev to_wallet : ℕ → ℕ → Payment → Bool
to_wallet wallet id p = is_some_of p.usdt_wallet wallet

-- `Math.abs(Number(p.usdtAmount) - txAmount) < 1e-6` compares floating-point numbers: `is_close` says
-- which amounts it takes for a value.
abbrev pub of_value : (ℕ → ℕ → Bool) → ℕ → ℕ → Payment → Bool
of_value is_close value id p = elim p.usdt_amount [ none ↦ false | some a ↦ is_close a value ]

abbrev set_seen : ℕ → ℕ → Action ⊤
set_seen tx now =
    modify (λ db. record db { usdt_marks = (tx, now + 24 * 60 * 60 * 1000) ∷ db.usdt_marks })

-- One transfer: skipped if it has been seen, otherwise matched with the payments of the query.
unfoldable pub match_transfer : (ℕ → ℕ → Bool) → ℕ → Table Payment → Transfer → ℕ → Action ⊤
unfolding confirm_payment
match_transfer is_close usdt rows tx now db =
    if is_marked tx.transaction_id now db.usdt_marks
    then (Result.ok tt, db)
    else elim (find_first (of_value is_close tx.value) rows) [
      | none ↦ set_seen tx.transaction_id now db
      | some row ↦
          (confirm_payment usdt row.0 row.1.order_id tx.transaction_id now
              >> set_seen tx.transaction_id now)
            db
    ]

unfoldable pub match_transfers : (ℕ → ℕ → Bool) → ℕ → Table Payment → List Transfer → ℕ → Action ⊤
unfolding match_transfer
match_transfers is_close usdt rows [] now = pure tt
match_transfers is_close usdt rows (tx ∷ txs) now = do
  match_transfer is_close usdt rows tx now
  match_transfers is_close usdt rows txs now

-- The wallets of the query, each once, in the order of their first row.
abbrev wallets : Table Payment → List ℕ → List ℕ
wallets [] seen = []
wallets ((id, p) ∷ t) seen = elim p.usdt_wallet [
  | none ↦ wallets t seen
  | some w ↦ if includes seen w then wallets t seen else w ∷ wallets t (w ∷ seen)
]

unfoldable pub poll_wallets :
    (ℕ → ℕ → Bool) → ℕ → (ℕ → Option (List Transfer)) → Table Payment → List ℕ → ℕ → Action ⊤
unfolding match_transfers
poll_wallets is_close usdt transfers rows [] now = pure tt
poll_wallets is_close usdt transfers rows (w ∷ ws) now = do
  elim (transfers w) [
    | none ↦ pure tt
    | some txs ↦ match_transfers is_close usdt (find_many (to_wallet w) rows) txs now
  ]
  poll_wallets is_close usdt transfers rows ws now

-- The timer, every 30 seconds.
unfoldable pub poll_pending_payments :
    (ℕ → ℕ → Bool) → ℕ → (ℕ → Option (List Transfer)) → ℕ → Action ⊤
unfolding poll_wallets
poll_pending_payments is_close usdt transfers now = do
  rows ← gets (λ db. take 50 (find_many (awaited usdt now) db.payments))
  poll_wallets is_close usdt transfers rows (wallets rows []) now

abbrev pub is_stale : ℕ → ℕ → ℕ → Payment → Bool
is_stale usdt now id p =
    p.channel == usdt && is_payment_pending p.status && before_now now p.expires_at

abbrev set_payment_expired : Payment → Payment
set_payment_expired p = record p { status = PaymentStatus.expired }

-- The timer, every minute.
unfoldable pub expire_stale_payments : ℕ → ℕ → Action ⊤
expire_stale_payments usdt now =
    modify (λ db. record db {
      payments = update_many (is_stale usdt now) set_payment_expired db.payments;
    })
