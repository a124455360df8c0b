-- ===== src/Commission/Tests.antt =====
-- Commissions on the sample shop, whose merchant was invited by another.
use winmelon_card.Base.{ℕ, ◌≡◌, refl, some, List, [], ◌∷◌, ◌+◌, ◌*◌, ◌/◌}
use winmelon_card.Base.Int.{ℤ, pos, negsuc, ◌+ℤ◌, ◌-ℤ◌}
use winmelon_card.Base.Table.{find}
use winmelon_card.Base.Result.{ok}
use winmelon_card.Schema.{OrderStatus, StockCardStatus, Merchant, CommissionRecord}
use winmelon_card.Schema.Store.{Store}
use winmelon_card.Sample.{ordered, merchant}
use winmelon_card.Commission.{new_record, handle_order_paid}
use winmelon_card.Commission.Reversal.{reverse_commission}
use winmelon_card.Commission.Kept.{Kept}
use winmelon_card.Commission.Settled.{handle_order_paid_again}
use winmelon_card.Commission.Ledger.{balance_of}
use winmelon_card.Commission.Undone.{reverse_commission-handle_order_paid}
use winmelon_card.Commission.Balance.{Signal, handle_all, handle_all-Kept}

-- Cut to whole cents.
abbrev commission : ℤ → ℕ → ℤ
commission (pos n) rate = pos (n * rate / 10000)
commission (negsuc n) rate = pos 0

abbrev fresh : ℕ → ℕ
fresh level = 70 + level

abbrev invited : ℤ → Store
invited balance = record (ordered OrderStatus.delivered StockCardStatus.sold) {
  merchants =
      (1, record merchant { inviter_merchant_id = some 2 })
      ∷ (2, record merchant { balance = balance })
      ∷ [];
}

abbrev earned : CommissionRecord
earned = new_record 50 1 (pos 500) (record { level = 1; inviter_id = 2; rate = 500 }) (pos 25)

abbrev settled : ℤ → Store
settled balance = record (invited balance) { commission_records = (71, earned) ∷ [] }

-- 5% of ¥5, paid by the shop to its inviter.
handle_order_paid-balances :
    (handle_order_paid commission fresh 50 (invited (pos 0))).1.merchants
    ≡ (1, record merchant { inviter_merchant_id = some 2; balance = pos 9975 })
      ∷ (2, record merchant { balance = pos 25 })
      ∷ []
unfolding handle_order_paid ◌+ℤ◌ ◌-ℤ◌
handle_order_paid-balances = refl

abbrev signals : List Signal
signals =
    Signal.paid fresh 50
    ∷ Signal.paid fresh 50
    ∷ Signal.refunded 50 9
    ∷ Signal.paid (λ l. 80 + l) 50
    ∷ []

handle_all-Kept_example : Kept (invited (pos 0)) (handle_all commission signals (invited (pos 0)))
handle_all-Kept_example = handle_all-Kept commission signals (invited (pos 0)) tt

handle_order_paid_again_example :
    (handle_order_paid commission fresh 50 (settled (pos 25))).1 ≡ settled (pos 25)
handle_order_paid_again_example =
    handle_order_paid_again commission fresh 50 (settled (pos 25)) (71, earned) refl

abbrev poor : Merchant
poor = record merchant {
  balance = negsuc 50024;
  distribution_suspended_at = some 9;
  withdrawal_suspended_at = some 9;
}

reverse_commission-done : (reverse_commission 50 9 (settled (negsuc 49999))).0 ≡ ok tt
unfolding reverse_commission ◌+ℤ◌ ◌-ℤ◌
reverse_commission-done = refl

reverse_commission-poor :
    (reverse_commission 50 9 (settled (negsuc 49999))).1.merchants
    ≡ (1, record merchant { inviter_merchant_id = some 2; balance = pos 10025 }) ∷ (2, poor) ∷ []
unfolding reverse_commission ◌+ℤ◌ ◌-ℤ◌
reverse_commission-poor = refl

reverse_commission-found :
    find 2 (reverse_commission 50 9 (settled (negsuc 49999))).1.merchants ≡ some poor
unfolding reverse_commission ◌+ℤ◌ ◌-ℤ◌
reverse_commission-found = refl

abbrev paid : Store
paid = (handle_order_paid commission fresh 50 (invited (pos 0))).1

reverse_commission-paid : (reverse_commission 50 9 paid).0 ≡ ok tt
unfolding reverse_commission handle_order_paid ◌+ℤ◌ ◌-ℤ◌
reverse_commission-paid = refl

reverse_commission-handle_order_paid_example :
    balance_of 2 (reverse_commission 50 9 paid).1.merchants
    ≡ balance_of 2 (invited (pos 0)).merchants
reverse_commission-handle_order_paid_example =
    reverse_commission-handle_order_paid commission fresh 50 9 2 (invited (pos 0)) tt refl
      reverse_commission-paid
