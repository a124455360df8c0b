-- ===== src/Penalty/Tests.antt =====
-- A penalty of the sample merchant, from a Friday on.
use winmelon_card.Base.{ℕ, ◌≡◌, refl, ◌*◌, ◌+◌, ◌/◌, Bool, none, some, List, [], ◌∷◌, arith}
use winmelon_card.Base.Table.{find}
use winmelon_card.Base.Result.{err, bad_request, duplicate, order_expired}
use winmelon_card.Schema.{MerchantPenaltyStatus, MerchantStatus, PenaltyType, PenaltyAction}
use winmelon_card.Schema.Store.{Store}
use winmelon_card.Sample.{market, merchant}
use winmelon_card.Penalty.{
  PenaltyRequest, create_penalty, execute_expired_penalties, appeal_penalty, deadline_of,
  ms_per_day, appeal_business_days, days_fuel,
}
use winmelon_card.Penalty.Single.{IsSingle}
use winmelon_card.Penalty.Calls.{Call, perform_all, perform_all-IsSingle}
use winmelon_card.Penalty.Deadline.{IsDue, deadline_of-IsDue}

-- A Friday, and the Wednesday after it.
abbrev friday : ℕ
friday = 5 * ms_per_day

deadline_of-friday : deadline_of friday ≡ some (10 * ms_per_day + 86399999)
deadline_of-friday = refl

abbrev request : PenaltyRequest
request = record {
  merchant_id = 1;
  kind = PenaltyType.fraud;
  action = PenaltyAction.freeze_account;
  reason = 70 ∷ [];
  amount = none;
}

abbrev punished : Store
punished = (create_penalty 95 request friday market).1

create_penalty-again : (create_penalty 96 request friday punished).0 ≡ err (bad_request duplicate)
unfolding create_penalty
create_penalty-again = refl

appeal_penalty-late :
    (appeal_penalty 95 1 [] (11 * ms_per_day) punished).0 ≡ err (bad_request order_expired)
unfolding create_penalty appeal_penalty
appeal_penalty-late = refl

execute_expired_penalties-merchant :
    find 1 (execute_expired_penalties (11 * ms_per_day) punished).1.merchants
    ≡ some (record merchant {
      status = MerchantStatus.suspended;
      frozen_at = some (11 * ms_per_day);
      penalty_status = some MerchantPenaltyStatus.penalty_executed;
      penalty_reason = some (70 ∷ []);
      penalty_started_at = some friday;
    })
unfolding create_penalty execute_expired_penalties
execute_expired_penalties-merchant = refl

abbrev calls : List Call
calls =
    Call.create 95 request friday
    ∷ Call.create 96 request friday
    ∷ Call.appeal 95 1 (65 ∷ []) friday
    ∷ Call.timer (20 * ms_per_day)
    ∷ Call.process 95 Bool.true (21 * ms_per_day)
    ∷ Call.create 97 request (22 * ms_per_day)
    ∷ []

market-IsSingle : IsSingle market
market-IsSingle = record { keyed = tt; single = λ k. omega arith }

perform_all-IsSingle_example : IsSingle (perform_all calls market)
perform_all-IsSingle_example = perform_all-IsSingle calls market market-IsSingle

deadline_of-IsDue_example :
    (r : ℕ) × (deadline_of friday ≡ some (r * ms_per_day + 86399999))
    × IsDue days_fuel appeal_business_days (friday / ms_per_day) r
deadline_of-IsDue_example = deadline_of-IsDue friday
