-- ===== src/Snowflake/Tests.antt =====
-- Generators at concrete values.
use alkaidlab_fw.Base.{
  Bytes, codes, Option, [], ◌∷◌, ◌↔◌, ℕ, suc, ◌+◌, ◌-◌, ◌/◌, ◌%◌, ◌^◌, ◌≤◌, ◌<◌, min, ◌≡◌, refl,
  ◌≢◌, arith, none, some, All, if◌then◌else◌, ◌==◌,
}
use alkaidlab_fw.Base.Int.{pos, negsuc}
use alkaidlab_fw.Snowflake.{Generator, generator, compose, next_id, epoch}
use alkaidlab_fw.Snowflake.Increasing.{HasIssued, run, Above, run_increasing}
use alkaidlab_fw.Snowflake.Numbers.{
  mix_name, mix_address, address_or, to_signed, rem_32, custom_or, get_host_mac_hash,
  thread_generator, thread_generator_iff,
}
use alkaidlab_fw.Snowflake.Repeats.{after, overflow_repeats, backward_repeats}
use alkaidlab_fw.Snowflake.Fields.{compose_fields}

-- One reading in each millisecond, for a second.
abbrev ticking : ℕ → ℕ
ticking i = epoch + 1 + min i 1000

ticking_forward : (i : ℕ) → ticking i ≤ ticking (suc i)
ticking_forward i = omega arith

ticking_low : (i : ℕ) → ticking i < epoch + 2 ^ 41
ticking_low i = omega arith

-- A clock that stands in one millisecond.
abbrev standing : ℕ → ℕ
standing i = epoch + 5

abbrev issued : Generator
issued = record { datacenter_id = 3; worker_id = 4; sequence = 0; last_timestamp = pos (epoch + 5) }

generator_limits :
    (generator (pos 31) (pos 31)
      ≡ some
          (record { datacenter_id = 31; worker_id = 31; sequence = 0; last_timestamp = negsuc 0 }))
    × (generator (pos 32) (pos 0) ≡ none)
    × (generator (pos 0) (negsuc 0) ≡ none)
unfolding generator
generator_limits = (refl, refl, refl)

issued-HasIssued : HasIssued ticking ticking_forward ticking_low issued (epoch + 5) 10
issued-HasIssued = record {
  last = refl;
  past_epoch = omega arith;
  read = omega arith;
  datacenter_in = omega arith;
  worker_in = omega arith;
  sequence_in = omega arith;
}

no_failure : All (λ x. x ≢ 0) (run ticking ticking_forward ticking_low 2 issued 10)
unfolding run next_id compose
no_failure = omega arith

run_increasing_example :
    Above ticking ticking_forward ticking_low
      (compose (epoch + 5) 3 4 0)
      (run ticking ticking_forward ticking_low 2 issued 10)
run_increasing_example =
    run_increasing ticking ticking_forward ticking_low 2 issued (epoch + 5) 10 issued-HasIssued
      no_failure

overflow_repeats_example :
    ((next_id standing issued 0).id ≡ compose (epoch + 5) 3 4 1)
    × (let (g', j) = after standing 4095 issued 0 in
        let failure = next_id standing g' j in
        (failure.id ≡ 0)
        × ((next_id standing failure.after failure.reading).id ≡ compose (epoch + 5) 3 4 1))
overflow_repeats_example = overflow_repeats standing (epoch + 5) (λ i. refl) issued 0 refl refl

-- The clock goes from one millisecond to the one before and back.
abbrev swaying : ℕ → ℕ
swaying i = if i == 1 then epoch + 6 else epoch + 7

backward_repeats_example :
    (let o = next_id swaying issued 0 in
      let p = next_id swaying o.after o.reading in
      let q = next_id swaying p.after p.reading in q.id ≡ o.id)
backward_repeats_example =
    backward_repeats swaying issued 0 (epoch + 7) (epoch + 6) (ground arith) refl refl refl
      (omega arith)

compose_fields_example :
    (compose (epoch + 5) 3 4 7 / 2 ^ 22 ≡ 5)
    × (compose (epoch + 5) 3 4 7 / 2 ^ 17 % 32 ≡ 3)
    × (compose (epoch + 5) 3 4 7 / 2 ^ 12 % 32 ≡ 4)
    × (compose (epoch + 5) 3 4 7 % 2 ^ 12 ≡ 7)
compose_fields_example =
    compose_fields (epoch + 5) 3 4 7 (omega arith) (omega arith) (omega arith) (omega arith)
      (omega arith)

-- A hardware address as containers have them.
abbrev address : Option Bytes
address = some (2 ∷ 66 ∷ 172 ∷ 17 ∷ 0 ∷ 5 ∷ [])

throws_runs : thread_generator (negsuc 0) (negsuc 0) (codes "web1") address (codes "7f") ≡ none
unfolding thread_generator generator custom_or rem_32 get_host_mac_hash to_signed mix_name
    mix_address
throws_runs = refl

thread_generator_iff_example :
    (thread_generator (negsuc 0) (negsuc 0) (codes "web1") address (codes "7f") ≡ none) ↔ (
      (2 ^ 63 ≤ address_or (mix_name 0 (codes "web1")) address)
      × ((2 ^ 64 - address_or (mix_name 0 (codes "web1")) address) % 32 ≢ 0))
thread_generator_iff_example = thread_generator_iff 0 (negsuc 0) (codes "web1") address (codes "7f")
