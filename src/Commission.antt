-- ===== src/Commission.antt =====
-- apps/api/src/modules/invite/invite.service.ts, commissions: the listeners of the payment and the
-- refund of an order. The product of an amount and a rate, rounded to two decimals in floating
-- point, is the argument `commission`; rates are in ten-thousandths. Identifiers are arguments.
pub mod Reversal
pub mod Ledger
pub mod Kept
pub mod Settled
pub mod Reversed
pub mod Suspension
pub mod Balance
pub mod Others
pub mod Undone
mod Tests
use winmelon_card.Base.{
  ℕ, suc, Bool, true, false, ◌&&◌, Option, none, some, List, [], ◌∷◌, ◌==◌, if◌then◌else◌, is_none,
  or_else, is_none,
}
use winmelon_card.Base.Int.{ℤ, pos, negsuc, ◌+ℤ◌, ◌-ℤ◌, leb_ℤ}
use winmelon_card.Base.Table.{Table, find, find_first, find_many, insert, adjust}
use winmelon_card.Base.Result.{failure, unique_violation}
use winmelon_card.Schema.{
  Merchant, Order, Shop, InviteCode, CommissionRecord, CommissionStatus, SystemConfig,
}
use winmelon_card.Schema.Store.{Store, commission_earned}
use winmelon_card.Schema.Action.{
  Action, ⊤, pure, gets, or_throw, throw_if, modify, transaction, catch, emit, update_merchant,
  ◌>>=◌, ◌>>◌,
}

-- 5%.
abbrev pub default_commission_rate : ℕ
default_commission_rate = 500

-- -¥500.
abbrev pub negative_balance_threshold : ℤ
negative_balance_threshold = negsuc 49999

-- `Number(config.value)`, 0 where the key is missing; the old key serves for the first level.
abbrev pub level_1_rate : SystemConfig → ℕ
level_1_rate c =
    let rate = or_else c.commission_level_1_rate 0 in
    if rate == 0 then or_else c.commission_rate default_commission_rate else rate

-- The levels of the chain with their rates.
abbrev pub level_rates : SystemConfig → List (ℕ × ℕ)
level_rates c =
    (1, level_1_rate c)
    ∷ (2, or_else c.commission_level_2_rate 0)
    ∷ (3, or_else c.commission_level_3_rate 0)
    ∷ []

pub record Level : Type 0 where
  pub level : ℕ
  pub inviter_id : ℕ
  pub rate : ℕ

abbrev pub inviter_of : Option Merchant → Option ℕ
inviter_of none = none
inviter_of (some m) = m.inviter_merchant_id

-- Path A: up the chain of inviters, until there is none, a rate is 0 or the source itself comes.
abbrev pub chain : List (ℕ × ℕ) → Option ℕ → ℕ → Table Merchant → List Level
chain [] current source ms = []
chain ((level, rate) ∷ rates) none source ms = []
chain ((level, rate) ∷ rates) (some k) source ms =
    if rate == 0
    then []
    else if k == source
    then []
    else record { level = level; inviter_id = k; rate = rate }
      ∷ chain rates (inviter_of (find k ms)) source ms

abbrev pub by_code : ℕ → ℕ → InviteCode → Bool
by_code code id c = c.code == code

-- Path B, the code that the buyer entered: both switches must be on, and the code must be the
-- shop's own, and must not be the shop's own.
abbrev pub code_levels : ℕ → ℕ → Merchant → Store → List Level
code_levels code source m db =
    if or_else db.system_config.buyer_invite_code_global_enabled false && m.allow_buyer_invite_code
    then elim (find_first (by_code code) db.invite_codes) [
      | none ↦ []
      | some (id, c) ↦
          if c.inviter_merchant_id == source
          then (if source == c.inviter_merchant_id
              then []
              else if level_1_rate db.system_config == 0
              then []
              else record {
                level = 1;
                inviter_id = c.inviter_merchant_id;
                rate = level_1_rate db.system_config;
              }
                ∷ [])
          else []
    ]
    else []

-- The levels that an order is settled for.
abbrev pub levels_of : Order → ℕ → Merchant → Store → List Level
levels_of o source m db = elim m.inviter_merchant_id [
  | some k ↦ chain (level_rates db.system_config) (some k) source db.merchants
  | none ↦ elim o.used_invite_code [ none ↦ [] | some code ↦ code_levels code source m db ]
]

abbrev pub is_settled : CommissionStatus → Bool
is_settled CommissionStatus.settled = true
is_settled CommissionStatus.reversed = false

-- `where: { orderId, status: 'SETTLED' }`
abbrev pub settled_for : ℕ → ℕ → CommissionRecord → Bool
settled_for order_id id r = r.order_id == order_id && is_settled r.status

abbrev pub deduct : ℤ → Merchant → Merchant
deduct a m = record m { balance = m.balance -ℤ a }

abbrev pub credit : ℤ → Merchant → Merchant
credit a m = record m { balance = m.balance +ℤ a }

abbrev pub new_record : ℕ → ℕ → ℤ → Level → ℤ → CommissionRecord
new_record order_id source base l amount = record {
  inviter_merchant_id = l.inviter_id;
  source_merchant_id = source;
  order_id = order_id;
  level = l.level;
  base_amount = base;
  rate = l.rate;
  amount = amount;
  status = CommissionStatus.settled;
  reversed_at = none;
}

abbrev pub use_code : InviteCode → InviteCode
use_code c = record c { used_count = suc c.used_count }

-- `usedCount: { increment: 1 }` where the order carries a code.
abbrev pub count_use : Option ℕ → Store → Store
count_use none db = db
count_use (some code) db = elim (find_first (by_code code) db.invite_codes) [
  | none ↦ db
  | some row ↦ record db { invite_codes = adjust row.0 use_code db.invite_codes }
]

module _ (commission : ℤ → ℕ → ℤ) where
  -- The loop over the levels: what it adds up. The identifier of a record is its primary key.
  unfoldable pub settle_levels : (ℕ → ℕ) → ℕ → ℕ → ℤ → List Level → Action ℤ
  settle_levels fresh order_id source base [] = pure (pos 0)
  settle_levels fresh order_id source base (l ∷ ls) =
      if leb_ℤ (commission base l.rate) (pos 0)
      then settle_levels fresh order_id source base ls
      else do
        let amount = commission base l.rate
        clash ← gets (λ db. find (fresh l.level) db.commission_records)
        throw_if (if is_none clash then false else true) unique_violation
        modify (λ db. record db {
          commission_records =
              insert (fresh l.level) (new_record order_id source base l amount)
                db.commission_records;
        })
        update_merchant source (deduct amount)
        update_merchant l.inviter_id (credit amount)
        rest ← settle_levels fresh order_id source base ls
        pure (amount +ℤ rest)

  -- The body of the transaction.
  unfoldable pub settle_in : (ℕ → ℕ) → ℕ → Order → ℕ → Level → List Level → Action ⊤
  unfolding settle_levels
  settle_in fresh order_id o source first ls = do
    existing ← gets (λ db. find_first (settled_for order_id) db.commission_records)
    elim existing [
      | some row ↦ pure tt
      | none ↦ do
        amount ← settle_levels fresh order_id source o.total_amount (first ∷ ls)
        modify (count_use o.used_invite_code)
        emit (commission_earned first.inviter_id amount)
    ]

  abbrev pub settle_chain : (ℕ → ℕ) → ℕ → Order → ℕ → List Level → Action ⊤
  unfolding settle_in
  settle_chain fresh order_id o source [] = pure tt
  settle_chain fresh order_id o source (l ∷ ls) =
      transaction (settle_in fresh order_id o source l ls)

  -- `settleCommission`
  unfoldable pub settle_commission : (ℕ → ℕ) → ℕ → Action ⊤
  unfolding settle_in settle_chain
  settle_commission fresh order_id = do
    found ← gets (λ db. find order_id db.orders)
    elim found [
      | none ↦ pure tt
      | some o ↦ do
        s ← or_throw (← gets (λ db. find o.shop_id db.shops)) failure
        m ← or_throw (← gets (λ db. find s.merchant_id db.merchants)) failure
        levels ← gets (levels_of o s.merchant_id m)
        if leb_ℤ o.total_amount (pos 0)
            then pure tt
            else settle_chain fresh order_id o s.merchant_id levels
    ]

  -- The listener of ORDER_PAID_EVENT.
  unfoldable pub handle_order_paid : (ℕ → ℕ) → ℕ → Action ⊤
  unfolding settle_commission
  handle_order_paid fresh order_id = catch (settle_commission fresh order_id) (λ e. pure tt)
