-- ===== src/Risk/Tests.antt =====
-- Five orders from one IP address within an hour.
use winmelon_card.Base.{◌≡◌, refl, none, List, [], ◌∷◌, arith}
use winmelon_card.Base.Result.{err, forbidden, ip_pending, ip_blocked}
use winmelon_card.Schema.{RiskRecord}
use winmelon_card.Schema.Store.{Store, empty_store}
use winmelon_card.Risk.{check_order}
use winmelon_card.Risk.Fuse.{Call, checks, lists_ip, cleans, perform_all, check_order-check_order}

abbrev placed : RiskRecord
placed = record { ip = 3; email = 4; created_at = 5000 }

abbrev busy : Store
busy = record empty_store { risk_records = placed ∷ placed ∷ placed ∷ placed ∷ placed ∷ [] }

-- An order from another address, an entry for a third one and a clean-up.
abbrev between : List Call
between = checks 5 8 6500 ∷ lists_ip 6 none 6600 ∷ cleans 6700 ∷ []

check_order-check_order_example :
    ((check_order 3 9 6000 busy).0 ≡ err (forbidden ip_pending))
    × ((check_order 3 8 7000 (perform_all between (check_order 3 9 6000 busy).1)).0
        ≡ err (forbidden ip_blocked))
check_order-check_order_example =
    check_order-check_order 3 9 8 6000 7000 between busy refl refl refl (refl, (refl, (refl, tt)))
      (omega arith)
