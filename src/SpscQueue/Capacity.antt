-- ===== src/SpscQueue/Capacity.antt =====
-- The capacity that the constructor chooses (include/fw/SPSCQueue.inl).
use Prim.Native.Nat.{bit_and}
use native.Mathlib.Nat.{pow-suc}
use native.Mathlib.Decide.{dec_le}
use alkaidlab_fw.Base.{
  ℕ, zero, suc, ◌+◌, ◌-◌, ◌*◌, ◌%◌, ◌^◌, ◌≤◌, ◌<◌, ◌≡◌, refl, arith, none, some, true, not, ◌&&◌,
  ltb, ◌==◌, ◌↔◌, ap, ◌⊎◌, inl, inr, Bool-cases, sym, subst, max,
}
use alkaidlab_fw.Base.Bits.{pow_pos, pow_mono, bit_and-pred_pow, pow_of_bit_and-pred}
use alkaidlab_fw.SpscQueue.{word, pred_size, is_power_of_two, double_until, next_power_of_two}

pred_size-lem : (n : ℕ) → 0 < n → n < word → pred_size n ≡ n - 1
pred_size-lem n p h = omega arith

-- The bit test holds of the powers of two and of no other number.
pub is_power_of_two_iff : (n : ℕ) → n < word → (is_power_of_two n ≡ true) ↔ ((k : ℕ) × (n ≡ 2 ^ k))
unfolding is_power_of_two
is_power_of_two_iff n h = (found, tested)
  where
    found : (not (n == 0) && (bit_and n (pred_size n) == 0)) ≡ true → (k : ℕ) × (n ≡ 2 ^ k)
    found e =
        let positive : 0 < n = ground arith in
        pow_of_bit_and-pred n n (omega arith) positive
          (ground (arith, ap (bit_and n) (pred_size-lem n positive h)))

    tested : ((k : ℕ) × (n ≡ 2 ^ k)) → (not (n == 0) && (bit_and n (pred_size n) == 0)) ≡ true
    tested (k, e) =
        let cleared : bit_and n (n - 1) ≡ 0 =
          subst (λ t. bit_and t (t - 1) ≡ 0) (sym e) (bit_and-pred_pow k) in
        let positive : 0 < n = omega (arith, pow_pos k) in
        ground (arith, ap (bit_and n) (pred_size-lem n positive h))

-- The loop from a power of two below twice the request: it ends within the fuel that is left.
pub double_until_ends :
    (fuel j n : ℕ)
    → j + fuel ≡ 65
    → n ≤ 2 ^ 63
    → 2 ^ j < 2 * n
    → (k : ℕ) × (double_until fuel n (2 ^ j) ≡ some (2 ^ k)) × (n ≤ 2 ^ k) × (2 ^ k < 2 * n)
unfolding double_until
double_until_ends zero j n f h p =
    let at_end : j ≡ 65 = omega arith in absurd (omega (arith, ap (λ (t : ℕ). 2 ^ t) at_end))
double_until_ends (suc fuel) j n f h p = elim (Bool-cases (ltb (2 ^ j) n)) [
  | inr large ↦ (j, rw large, ground arith, p)
  | inl small ↦
      let doubled : 2 ^ j * 2 % word ≡ 2 ^ suc j = ground (arith, pow-suc 2 j) in
      let rest = double_until_ends fuel (suc j) n (omega arith) h (ground (arith, pow-suc 2 j)) in
      (rest.0, rw small (rw doubled rest.1), rest.2, rest.3)
]

-- For a request of at most 2^63 the constructor's capacity is a power of two that is no smaller
-- than the request and less than twice as large
-- (1 for a request of 0).
pub next_power_of_two_lem :
    (n : ℕ)
    → n ≤ 2 ^ 63
    → (k : ℕ) × (next_power_of_two 65 n ≡ some (2 ^ k)) × (n ≤ 2 ^ k) × (2 ^ k < max 2 (2 * n))
unfolding next_power_of_two
next_power_of_two_lem n h = elim (Bool-cases (n == 0)) [
  | inl z ↦ (0, rw z, ground arith, omega arith)
  | inr nz ↦
      let nonzero : 0 < n = ground arith in
      elim (Bool-cases (is_power_of_two n)) [
        | inl pow ↦
            let exact = (is_power_of_two_iff n (omega arith)).0 pow in
            (
              exact.0,
              rw (nz, pow) (ap some exact.1),
              omega (arith, exact.1),
              omega (arith, exact.1, nonzero),
            )
        | inr other ↦
            let rest = double_until_ends 65 0 n refl h (ground arith) in
            (rest.0, rw (nz, other) rest.1, rest.2, omega (arith, rest.3))
      ]
]

-- The powers of two up to 2^63, and 0.
abbrev Doubled : ℕ → Type 0
Doubled r = (r ≡ 0) ⊎ ((i : ℕ) × (r * 2 ^ i ≡ 2 ^ 63))

Doubled-le : (r : ℕ) → Doubled r → r ≤ 2 ^ 63
Doubled-le r (inl z) = omega arith
Doubled-le r (inr (i, e)) = grind (arith, pow_pos i)

double-Doubled : (r : ℕ) → Doubled r → Doubled (r * 2 % word)
double-Doubled r (inl z) = inl (omega arith)
double-Doubled r (inr (zero, e)) = inl (omega arith)
double-Doubled r (inr (suc i, e)) =
    let halved : r * 2 * 2 ^ i ≡ 2 ^ 63 = omega (arith, e, ap (λ (t : ℕ). r * t) (pow-suc 2 i)) in
    let kept : r * 2 % word ≡ r * 2 = omega (arith, Doubled-le (r * 2) (inr (i, halved))) in
    inr (i, rw kept halved)

double_until_diverges : (fuel n r : ℕ) → 2 ^ 63 < n → Doubled r → double_until fuel n r ≡ none
unfolding double_until
double_until_diverges zero n r h p = refl
double_until_diverges (suc fuel) n r h p =
    ground
      (arith, Doubled-le r p, double_until_diverges fuel n (r * 2 % word) h (double-Doubled r p))

-- A number between 2^63 and 2^64 is no power of two, and no number of rounds ends the loop on it.
pub next_power_of_two_diverges :
    (fuel n : ℕ) → 2 ^ 63 < n → n < word → next_power_of_two fuel n ≡ none
unfolding next_power_of_two
next_power_of_two_diverges fuel n h w = elim (Bool-cases (is_power_of_two n)) [
  | inr other ↦ ground (arith, double_until_diverges fuel n 1 h (inr (63, refl)))
  | inl pow ↦
      let exact = (is_power_of_two_iff n w).0 pow in
      absurd (between exact.0 (omega (arith, exact.1)) (omega (arith, exact.1)))
]
  where
    between : (k : ℕ) → 2 ^ 63 < 2 ^ k → 2 ^ k < 2 ^ 64 → ⊥
    between k l u = elim (dec_le k 63) [
      | yes low ↦ omega (arith, pow_mono k 63 low)
      | no high ↦ omega (arith, pow_mono 64 k (omega arith))
    ]
