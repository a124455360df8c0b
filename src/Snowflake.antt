-- ===== src/Snowflake.antt =====
-- apps/api/src/infrastructure/id/snowflake.service.ts, the generator of identifiers. Times are
-- milliseconds counted from EPOCH, which the clock is taken to be past. The clock is an argument, the
-- list of its readings in one call; `none` for a list that ends before the call does.
pub mod Step
pub mod Ids
pub mod Stall
mod Tests
use Prim.Native.Nat.{bit_and, bit_or}
use winmelon_card.Base.{
  ℕ, ◌+◌, ◌-◌, ◌^◌, Bool, true, false, Option, none, some, List, [], ◌∷◌, ◌==◌, ltb, leb, ◌||◌,
  if◌then◌else◌,
}
use winmelon_card.Base.Int.{ℤ, pos, ltb_ℤ, pos_part}
use winmelon_card.Base.Bits.{◌<<◌}
use winmelon_card.Base.Result.{Result, ok, err, failure}

abbrev pub machine_id_bits : ℕ
machine_id_bits = 10

abbrev pub sequence_bits : ℕ
sequence_bits = 12

abbrev pub max_sequence : ℕ
max_sequence = (1 << sequence_bits) - 1

abbrev pub machine_shift : ℕ
machine_shift = sequence_bits

abbrev pub timestamp_shift : ℕ
timestamp_shift = sequence_bits + machine_id_bits

abbrev pub max_machine_id : ℕ
max_machine_id = (1 << machine_id_bits) - 1

abbrev pub max_drift_ms : ℕ
max_drift_ms = 100

-- `none` for the timestamp -1 that the generator starts with.
pub record Snowflake : Type 0 where
  pub machine_id : ℕ
  pub last_timestamp : Option ℕ
  pub sequence : ℕ

-- The constructor, on the configured number.
abbrev pub new_snowflake : ℤ → Result Snowflake
new_snowflake mid =
    if ltb_ℤ mid (pos 0) || ltb_ℤ (pos max_machine_id) mid
    then err failure
    else ok (record { machine_id = pos_part mid; last_timestamp = none; sequence = 0 })

abbrev pub id_of : ℕ → ℕ → ℕ → ℕ
id_of ts machine_id sequence =
    bit_or (bit_or (ts << timestamp_shift) (machine_id << machine_shift)) sequence

-- How the wait for the next millisecond ends: the list of readings is over, the clock stood still,
-- or it went on, with the reading that follows.
pub data Wait : Type 0 where
  waiting stalled : Wait
  resumed : ℕ → Wait

-- The spin loop. Each turn reads the clock for its condition, and once more: in the body, or after
-- the loop.
abbrev pub spin : ℕ → ℕ → List (ℕ × ℕ) → Wait
spin last start [] = Wait.waiting
spin last start ((t, u) ∷ ts) =
    let rest = spin last start ts in
    if leb t last then (if ltb (start + 5000) u then Wait.stalled else rest) else Wait.resumed u

-- The readings of one call: the first, the start of the wait, and the turns of the wait.
pub record Clock : Type 0 where
  pub now : ℕ
  pub spin_start : ℕ
  pub turns : List (ℕ × ℕ)

-- The sequence is over: the wait, with the sequence already 0.
abbrev pub next_ms : Wait → Snowflake → Option (Result ℕ × Snowflake)
next_ms Wait.waiting s = none
next_ms Wait.stalled s = some (err failure, s)
next_ms (Wait.resumed now) s =
    some (ok (id_of now s.machine_id s.sequence), record s { last_timestamp = some now })

-- `now` is `last`.
abbrev pub same_ms : ℕ → Clock → Snowflake → Option (Result ℕ × Snowflake)
same_ms last c s =
    let sequence = bit_and (s.sequence + 1) max_sequence in
    if sequence == 0
    then next_ms (spin last c.spin_start c.turns) (record s { sequence = sequence })
    else some (ok (id_of last s.machine_id sequence), record s { sequence = sequence })

abbrev pub new_ms : ℕ → Snowflake → Option (Result ℕ × Snowflake)
new_ms now s =
    some (ok (id_of now s.machine_id 0), record s { sequence = 0; last_timestamp = some now })

abbrev pub next_after : Option ℕ → Clock → Snowflake → Option (Result ℕ × Snowflake)
next_after none c s = new_ms c.now s
next_after (some last) c s =
    if ltb c.now last
    then (if ltb max_drift_ms (last - c.now) then some (err failure, s) else same_ms last c s)
    else if c.now == last
    then same_ms last c s
    else new_ms c.now s

-- `next`
abbrev pub next : Clock → Snowflake → Option (Result ℕ × Snowflake)
next c s = next_after s.last_timestamp c s
