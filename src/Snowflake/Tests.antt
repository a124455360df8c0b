-- ===== src/Snowflake/Tests.antt =====
-- The generator at work.
use winmelon_card.Base.{ℕ, ◌≡◌, refl, Bool, some, none, is_none, List, [], ◌∷◌}
use winmelon_card.Base.Int.{pos, negsuc}
use winmelon_card.Base.Result.{ok, err, failure}
use winmelon_card.Snowflake.{Snowflake, Clock, new_snowflake, next, id_of}
use winmelon_card.Snowflake.Ids.{ids, AreAscending, ids-AreAscending}
use winmelon_card.Snowflake.Stall.{next-is_over}

abbrev generator : Snowflake
generator = record { machine_id = 3; last_timestamp = none; sequence = 0 }

new_snowflake-3 : new_snowflake (pos 3) ≡ ok generator
new_snowflake-3 = refl

new_snowflake-1024 : new_snowflake (pos 1024) ≡ err failure
new_snowflake-1024 = refl

new_snowflake-negative : new_snowflake (negsuc 0) ≡ err failure
new_snowflake-negative = refl

abbrev at_time : ℕ → Clock
at_time t = record { now = t; spin_start = t; turns = [] }

-- Two calls in one millisecond, one 50 ms back, one 200 ms back, one later.
abbrev calls : List Clock
calls = at_time 1000 ∷ at_time 1000 ∷ at_time 950 ∷ at_time 800 ∷ at_time 1001 ∷ []

ids-calls : ids calls generator ≡ 4194316288 ∷ 4194316289 ∷ 4194316290 ∷ 4198510592 ∷ []
ids-calls = refl

ids-AreAscending_example : AreAscending (ids calls generator)
ids-AreAscending_example =
    ids-AreAscending (pos 3) generator calls new_snowflake-3 (tt, (tt, (tt, (tt, (tt, tt)))))

-- The last number of a millisecond was taken.
abbrev full : Snowflake
full = record { machine_id = 3; last_timestamp = some 1000; sequence = 4095 }

abbrev stuck : Clock
stuck = record { now = 1000; spin_start = 1000; turns = (1000, 1000) ∷ (1000, 6001) ∷ [] }

abbrev back : Clock
back = record { now = 1000; spin_start = 1000; turns = (1000, 1000) ∷ (1001, 1001) ∷ [] }

next-back :
    next back full
    ≡ some (ok (id_of 1001 3 0), record full { last_timestamp = some 1001; sequence = 0 })
next-back = refl

next-is_over_example : is_none (next back full) ≡ Bool.false
next-is_over_example = next-is_over back full refl
