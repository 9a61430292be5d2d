-- ===== src/Snowflake/Fields.antt =====
-- The bit fields of an identifier (src/IdUtil.cpp).
use alkaidlab_fw.Base.{ℕ, ◌+◌, ◌-◌, ◌*◌, ◌/◌, ◌%◌, ◌^◌, ◌≤◌, ◌<◌, ◌≡◌, arith, ◌⊎◌}
use alkaidlab_fw.Base.Bits.{bit_or-add}
use alkaidlab_fw.Snowflake.{compose, epoch, shifted}

-- The identifier as a sum: no field reaches into another.
pub compose_sum :
    (t d w s : ℕ)
    → d ≤ 31
    → w ≤ 31
    → s ≤ 4095
    → epoch ≤ t
    → t < epoch + 2 ^ 41
    → compose t d w s ≡ (t - epoch) * 4194304 + d * 131072 + w * 4096 + s
unfolding compose
compose_sum t d w s hd hw hs past low =
    let plain : shifted t ≡ (t - epoch) * 2 ^ 22 = omega (arith, past, low) in
    ground (
      arith,
      plain,
      bit_or-add 22 (t - epoch) (d * 2 ^ 17),
      bit_or-add 17 ((t - epoch) * 32 + d) (w * 2 ^ 12),
      bit_or-add 12 (((t - epoch) * 32 + d) * 32 + w) s,
    )

-- Where the number of the host and the worker are at most 31, the sequence number is at most 4095
-- and the time is at least EPOCH and less than 2^41 ms behind it, the bits of an identifier give
-- each back.
pub compose_fields :
    (t d w s : ℕ)
    → d ≤ 31
    → w ≤ 31
    → s ≤ 4095
    → epoch ≤ t
    → t < epoch + 2 ^ 41
    → (compose t d w s / 2 ^ 22 ≡ t - epoch)
      × (compose t d w s / 2 ^ 17 % 32 ≡ d)
      × (compose t d w s / 2 ^ 12 % 32 ≡ w)
      × (compose t d w s % 2 ^ 12 ≡ s)
compose_fields t d w s hd hw hs past low = omega (arith, compose_sum t d w s hd hw hs past low)

-- Identifiers of one generator are in the order of their times, and of their sequence numbers
-- within a millisecond, and are positive numbers of `int64_t`.
pub compose_mono :
    (d w t s t' s' : ℕ)
    → d ≤ 31
    → w ≤ 31
    → s ≤ 4095
    → s' ≤ 4095
    → epoch ≤ t
    → t' < epoch + 2 ^ 41
    → (t < t') ⊎ ((t ≡ t') × (s < s'))
    → (compose t d w s < compose t' d w s') × (compose t' d w s' < 2 ^ 63)
compose_mono d w t s t' s' hd hw hs hs' e low later =
    let first = compose_sum t d w s hd hw hs e (omega (arith, low, later)) in
    let second = compose_sum t' d w s' hd hw hs' (omega (arith, e, later)) low in
    (omega (arith, first, second, later), omega (arith, second, low))
