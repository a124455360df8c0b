-- ===== src/Withdrawal/Tests.antt =====
-- The withdrawal service on a merchant with ¥100.
use winmelon_card.Base.{◌/◌, ◌≡◌, refl, Bool, none, some, List, [], ◌∷◌, arith}
use winmelon_card.Base.Int.{ℤ, pos, pos_part, scale, ◌+ℤ◌, ◌-ℤ◌}
use winmelon_card.Base.Table.{find}
use winmelon_card.Base.Result.{ok}
use winmelon_card.Schema.{
  LeaderboardMode, MerchantStatus, Merchant, Withdrawal, WithdrawalStatus, WithdrawalMethod,
}
use winmelon_card.Schema.Store.{Store, empty_store, withdrawal_apply, withdrawal_created}
use winmelon_card.Withdrawal.{WithdrawalRequest, apply, get_balance, to_fen, millionths}
use winmelon_card.Withdrawal.Step.{
  Call, applies, approves, pays, asked_of, perform, perform_all, Step, perform-Step,
}
use winmelon_card.Withdrawal.Frozen.{IsFrozenStore, perform_all-IsFrozen}
use winmelon_card.Withdrawal.Conservation.{worth, IsWithin, perform_all-worth}

-- `toFixed(2)` on whole fen.
abbrev whole : ℤ → ℤ
whole x = pos (pos_part x / 1000000)

abbrev merchant : Merchant
merchant = record {
  code = 100;
  contact_email = 800;
  balance = pos 10000;
  freeze_balance = pos 0;
  total_withdrawn = pos 0;
  name = [];
  inviter_merchant_id = none;
  invited_at = none;
  allow_buyer_invite_code = Bool.false;
  distribution_suspended_at = none;
  withdrawal_suspended_at = none;
  leaderboard_display_mode = LeaderboardMode.top10;
  leaderboard_name = none;
  status = MerchantStatus.active;
  frozen_at = none;
  penalty_status = none;
  penalty_reason = none;
  penalty_started_at = none;
  deleted_at = none;
}

abbrev shop : Store
shop = record empty_store { merchants = (1, merchant) ∷ [] }

abbrev request : WithdrawalRequest
request = record {
  amount = 60000000;
  method = WithdrawalMethod.alipay;
  account_info = record { account = 65 ∷ []; name = 66 ∷ []; bank_name = [] };
}

abbrev calls : List Call
calls = applies whole 7 1 request 0 ∷ approves 3 7 10 ∷ pays 7 (88 ∷ []) ∷ []

-- After the request has been paid ¥40 is left.
paid_out : get_balance 1 (perform_all calls shop) ≡ (
  ok (record {
    balance = pos 4000;
    freeze_balance = pos 0;
    available = pos 4000;
    total_withdrawn = pos 6000;
  }),
  perform_all calls shop,
)
unfolding perform_all get_balance to_fen millionths scale ◌+ℤ◌ ◌-ℤ◌
paid_out = refl

shop-IsFrozen : IsFrozenStore shop
shop-IsFrozen = (tt, λ m r e. ground arith)

perform_all-IsFrozen_example : IsFrozenStore (perform_all calls shop)
perform_all-IsFrozen_example = perform_all-IsFrozen calls shop shop-IsFrozen

perform_all-worth_example :
    (r : Merchant) × (find 1 (perform_all calls shop).merchants ≡ some r)
    × (IsWithin 0 (worth r) (worth merchant))
unfolding asked_of
perform_all-worth_example = perform_all-worth 1 calls shop merchant refl

perform-Step_example : Step 60000000 shop (perform (applies whole 7 1 request 0) shop)
unfolding asked_of
perform-Step_example = perform-Step (applies whole 7 1 request 0) shop

abbrev requested : Withdrawal
requested = record {
  merchant_id = 1;
  amount = pos 6000;
  fee = pos 0;
  actual = pos 6000;
  method = WithdrawalMethod.alipay;
  account_info = request.account_info;
  status = WithdrawalStatus.pending;
  reject_reason = none;
  transfer_ref = none;
  processed_by_id = none;
  processed_at = none;
  created_at = 0;
}

-- The store once a request for ¥60 waits.
abbrev waiting : Store
waiting = record empty_store {
  merchants = (1, record merchant { balance = pos 4000; freeze_balance = pos 6000 }) ∷ [];
  withdrawals = (7, requested) ∷ [];
}

apply-shop : (apply whole 7 1 request 0 shop).1 ≡ record waiting {
  audit_logs = record { action = withdrawal_apply; resource_id = 7 } ∷ [];
  events = withdrawal_created 7 ∷ [];
}
unfolding apply to_fen millionths scale ◌+ℤ◌ ◌-ℤ◌
apply-shop = refl

-- A request for ¥10.005: half a fen is rounded up in both columns.
abbrev half_fen : WithdrawalRequest
half_fen = record request { amount = 10005000 }

half_fen-apply :
    find 1 (perform_all (applies whole 7 1 half_fen 0 ∷ []) shop).merchants
    ≡ some (record merchant { balance = pos 9000; freeze_balance = pos 1001 })
unfolding perform_all to_fen millionths scale ◌+ℤ◌ ◌-ℤ◌
half_fen-apply = refl
