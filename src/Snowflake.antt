-- ===== src/Snowflake.antt =====
-- SnowflakeGenerator (include/fw/IdUtil.hpp, src/IdUtil.cpp). The system clock is a function from
-- the number of a reading to its milliseconds since 1970. An identifier is its word of 64 bits.
pub mod Fields
pub mod Increasing
pub mod Repeats
pub mod Numbers
pub mod Address
mod Tests
use Prim.Native.Nat.{bit_and, bit_or}
use alkaidlab_fw.Base.{
  ℕ, zero, suc, ◌+◌, ◌-◌, ◌*◌, ◌%◌, ◌^◌, Option, none, some, Bool, true, false, ◌||◌, ltb, leb,
  ◌==◌, if◌then◌else◌,
}
use alkaidlab_fw.Base.Int.{ℤ, pos, negsuc, ltb_ℤ, leb_ℤ}

abbrev pub epoch : ℕ
epoch = 946684800000

abbrev pub max_sequence : ℕ
max_sequence = 4095

abbrev pub max_worker_id : ℕ
max_worker_id = 31

abbrev pub max_datacenter_id : ℕ
max_datacenter_id = 31

pub record Generator : Type 0 where
  pub datacenter_id : ℕ
  pub worker_id : ℕ
  pub sequence : ℕ
  pub last_timestamp : ℤ

-- The constructor; `none` is `std::invalid_argument`.
unfoldable pub generator : ℤ → ℤ → Option Generator
generator (negsuc _) worker = none
generator (pos datacenter) (negsuc _) = none
generator (pos datacenter) (pos worker) =
    if ltb max_datacenter_id datacenter
    then none
    else if ltb max_worker_id worker
    then none
    else some (record {
      datacenter_id = datacenter;
      worker_id = worker;
      sequence = 0;
      last_timestamp = negsuc 0;
    })

-- `(timestamp - EPOCH) << 22` of `int64_t`, as its word in two's complement.
abbrev pub shifted : ℕ → ℕ
shifted timestamp = (timestamp + (2 ^ 64 - epoch)) % 2 ^ 64 * 2 ^ 22 % 2 ^ 64

-- `((timestamp - EPOCH) << 22) | (datacenter << 17) | (worker << 12) | sequence`, a word.
unfoldable pub compose : ℕ → ℕ → ℕ → ℕ → ℕ
compose timestamp datacenter worker sequence =
    bit_or (bit_or (bit_or (shifted timestamp) (datacenter * 2 ^ 17)) (worker * 2 ^ 12)) sequence

-- How the wait for the next millisecond ends, with the number of the next reading.
pub data Waited : Type 0 where
  failed : ℕ → Waited
  reached : ℕ → ℕ → Waited

-- What stands behind the loop: the wait has timed out if the clock still reads no later time.
abbrev pub timed_out : ℕ → ℕ → ℤ → Waited
timed_out i timestamp last = if leb_ℤ (pos timestamp) last then failed i else reached timestamp i

pub record Outcome : Type 0 where
  pub id : ℕ
  pub after : Generator
  pub reading : ℕ

abbrev pub issue : Generator → ℕ → ℕ → ℕ → Outcome
issue g sequence timestamp i = record {
  id = compose timestamp g.datacenter_id g.worker_id sequence;
  after = record g { sequence = sequence; last_timestamp = pos timestamp };
  reading = i;
}

-- The sequence has run over: what the wait leads to. A failure returns 0.
abbrev pub overflowed : Generator → Waited → Outcome
overflowed g (failed i) = record { id = 0; after = record g { sequence = 0 }; reading = i }
overflowed g (reached timestamp i) = issue g 0 timestamp i

abbrev pub same_millisecond : ℤ → ℕ → Bool
same_millisecond (negsuc _) timestamp = false
same_millisecond (pos last) timestamp = timestamp == last

module _ (clock : ℕ → ℕ) where
  -- The loop with the rounds that `MAX_WAIT_COUNT` leaves; a clock that went back is a failure.
  unfoldable pub wait : ℕ → ℕ → ℕ → ℤ → Waited
  wait zero i timestamp last = timed_out i timestamp last
  wait (suc rounds) i timestamp last =
      let more = wait rounds (suc i) (clock i) last in
      if leb_ℤ (pos timestamp) last
      then (if ltb_ℤ (pos (clock i)) last then failed (suc i) else more)
      else timed_out i timestamp last

  -- `nextId` from reading `i` of the clock on.
  unfoldable pub next_id : Generator → ℕ → Outcome
  next_id g i =
      let timestamp = clock i in
      let sequence = bit_and (g.sequence + 1) max_sequence in
      if same_millisecond g.last_timestamp timestamp
      then (if sequence == 0
          then overflowed g (wait 5 (suc i) timestamp g.last_timestamp)
          else issue g sequence timestamp (suc i))
      else issue g 0 timestamp (suc i)
