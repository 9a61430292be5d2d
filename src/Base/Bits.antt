-- ===== src/Base/Bits.antt =====
-- `&` and `|` of C++ at variables: a mask of low ones is a remainder, disjoint bits add, and
-- `n & (n - 1)` tells the powers of two.
use Prim.Native.Nat.{bit_and, bit_or, digits, bit_and-bitwise, bit_or-bitwise, min, max}
use Prim.Native.Nat.{ℕ, zero, suc, ◌+◌, ◌-◌, ◌*◌, ◌/◌, ◌%◌, ◌^◌, ◌≤◌, ◌<◌}
use mathlib.Core.Path.{◌≡◌, refl, ap}
use native.Mathlib.Nat.{pow-suc}
use native.Mathlib.Omega.{arith}

module _ (at_zero : ℕ → ℕ) (digit : ℕ → ℕ → ℕ) where
  -- Any fuel of at least the first number gives the same digits.
  pub fuel_irrelevant :
      (x y : ℕ) {p q : ℕ} → x ≤ p → x ≤ q → digits at_zero digit p x y ≡ digits at_zero digit q x y
  fuel_irrelevant zero y {p = zero} {q = zero} hp hq = refl
  fuel_irrelevant zero y {p = zero} {q = suc q} hp hq = refl
  fuel_irrelevant zero y {p = suc p} {q = zero} hp hq = refl
  fuel_irrelevant zero y {p = suc p} {q = suc q} hp hq = refl
  fuel_irrelevant (suc x) y {p = zero} {q = q} hp hq = absurd (omega arith)
  fuel_irrelevant (suc x) y {p = suc p} {q = zero} hp hq = absurd (omega arith)
  fuel_irrelevant (suc x) y {p = suc p} {q = suc q} hp hq =
      omega (arith, fuel_irrelevant (suc x / 2) (y / 2) {p = p} {q = q} (omega arith) (omega arith))

bit_and-of_zero : (y : ℕ) → bit_and 0 y ≡ 0
bit_and-of_zero y = bit_and-bitwise 0 y

pub zero-bit_or : (y : ℕ) → bit_or 0 y ≡ y
zero-bit_or y = bit_or-bitwise 0 y

-- The lowest digit of `a & b` and of `a | b`.
pub bit_and_step : (x y : ℕ) → bit_and x y ≡ min (x % 2) (y % 2) + bit_and (x / 2) (y / 2) * 2
bit_and_step zero y = omega (arith, bit_and-of_zero (y / 2), bit_and-of_zero y)
bit_and_step (suc x) y =
    let tail =
      fuel_irrelevant (λ t. 0) min (suc x / 2) (y / 2) {p = x} {q = suc x / 2} (omega arith)
        (omega arith) in
    omega (arith, tail, bit_and-bitwise (suc x / 2) (y / 2), bit_and-bitwise (suc x) y)

pub bit_or_step : (x y : ℕ) → bit_or x y ≡ max (x % 2) (y % 2) + bit_or (x / 2) (y / 2) * 2
bit_or_step zero y = omega (arith, zero-bit_or (y / 2), zero-bit_or y)
bit_or_step (suc x) y =
    let tail =
      fuel_irrelevant (λ t. t) max (suc x / 2) (y / 2) {p = x} {q = suc x / 2} (omega arith)
        (omega arith) in
    omega (arith, tail, bit_or-bitwise (suc x / 2) (y / 2), bit_or-bitwise (suc x) y)

bit_and-zero_upto : (bound : ℕ) {x : ℕ} → x ≤ bound → bit_and x 0 ≡ 0
bit_and-zero_upto bound {x = zero} h = refl
bit_and-zero_upto zero {x = suc x} h = absurd (omega arith)
bit_and-zero_upto (suc bound) {x = suc x} h =
    let half = bit_and-zero_upto bound {x = suc x / 2} (omega arith) in
    omega (arith, half, bit_and_step (suc x) 0)

pub bit_and-zero : (x : ℕ) → bit_and x 0 ≡ 0
bit_and-zero x = bit_and-zero_upto x {x = x} (omega arith)

bit_or-zero_below : (n a : ℕ) → a ≤ n → bit_or a 0 ≡ a
bit_or-zero_below n zero h = refl
bit_or-zero_below zero (suc a) h = absurd (omega arith)
bit_or-zero_below (suc n) (suc a) h =
    omega (arith, bit_or_step (suc a) 0, bit_or-zero_below n (suc a / 2) (omega arith))

pub pow_pos : (k : ℕ) → 0 < 2 ^ k
pow_pos zero = omega arith
pow_pos (suc k) = omega (arith, pow_pos k, pow-suc 2 k)

pow_le-add : (d j k : ℕ) → k ≡ j + d → 2 ^ j ≤ 2 ^ k
pow_le-add zero j k e = let same : k ≡ j = omega arith in omega (arith, ap (λ (t : ℕ). 2 ^ t) same)
pow_le-add (suc d) j k e =
    let next : k ≡ suc (j + d) = omega arith in
    omega (arith, ap (λ (t : ℕ). 2 ^ t) next, pow-suc 2 (j + d), pow_le-add d j (j + d) refl)

pub pow_mono : (j k : ℕ) → j ≤ k → 2 ^ j ≤ 2 ^ k
pow_mono j k h = pow_le-add (k - j) j k (omega arith)

times_pow-suc : (q k : ℕ) → q * 2 ^ suc k ≡ 2 * (q * 2 ^ k)
times_pow-suc q k = omega (arith, ap (λ (t : ℕ). q * t) (pow-suc 2 k))

-- Bits that stand above the `k` lowest are added by `|`.
pub bit_or-add : (k q r : ℕ) → r < 2 ^ k → bit_or (q * 2 ^ k) r ≡ q * 2 ^ k + r
bit_or-add zero q r h = ground (arith, bit_or-zero_below q q)
bit_or-add (suc k) q r h = ground (
  arith,
  times_pow-suc q k,
  pow-suc 2 k,
  bit_or_step (q * 2 ^ suc k) r,
  bit_or-add k q (r / 2) (omega (arith, pow-suc 2 k)),
)

bit_and-mask_parts : (k q r : ℕ) → r < 2 ^ k → bit_and (q * 2 ^ k + r) (2 ^ k - 1) ≡ r
bit_and-mask_parts zero q r h = ground (arith, bit_and-zero (q * 1 + r))
bit_and-mask_parts (suc k) q r h = ground (
  arith,
  times_pow-suc q k,
  pow-suc 2 k,
  pow_pos k,
  bit_and_step (q * 2 ^ suc k + r) (2 ^ suc k - 1),
  bit_and-mask_parts k q (r / 2) (omega (arith, pow-suc 2 k)),
)

-- `a & (2^k - 1)` keeps the `k` lowest bits.
pub bit_and-mask : (k a : ℕ) → bit_and a (2 ^ k - 1) ≡ a % 2 ^ k
bit_and-mask k a = ground (arith, pow_pos k, bit_and-mask_parts k (a / 2 ^ k) (a % 2 ^ k))

pub bit_and_self_below : (n a : ℕ) → a ≤ n → bit_and a a ≡ a
bit_and_self_below n zero h = refl
bit_and_self_below zero (suc a) h = absurd (omega arith)
bit_and_self_below (suc n) (suc a) h =
    omega (arith, bit_and_step (suc a) (suc a), bit_and_self_below n (suc a / 2) (omega arith))

-- Of a power of two, `n & (n - 1)` clears the only bit.
pub bit_and-pred_pow : (k : ℕ) → bit_and (2 ^ k) (2 ^ k - 1) ≡ 0
bit_and-pred_pow k = ground (arith, pow_pos k, bit_and-mask_parts k 1 0)

-- With `n & (n - 1) = 0` a number above 1 is even, and its half has the same property.
and-pred_half :
    (n : ℕ) → 1 < n → bit_and n (n - 1) ≡ 0 → (n % 2 ≡ 0) × (bit_and (n / 2) (n / 2 - 1) ≡ 0)
and-pred_half n h e = (even, ground (arith, step, ap (bit_and (n / 2)) same))
  where
    step : bit_and n (n - 1) ≡ min (n % 2) ((n - 1) % 2) + bit_and (n / 2) ((n - 1) / 2) * 2
    step = bit_and_step n (n - 1)

    odd_half : n % 2 ≡ 1 → (n - 1) / 2 ≡ n / 2
    odd_half o = omega arith

    even : n % 2 ≡ 0
    even = grind (arith, step, odd_half, bit_and_self_below (n / 2) (n / 2))

    same : (n - 1) / 2 ≡ n / 2 - 1
    same = omega (arith, even)

-- A number with `n & (n - 1) = 0` is a power of two.
pub pow_of_bit_and-pred :
    (fuel n : ℕ) → n ≤ fuel → 0 < n → bit_and n (n - 1) ≡ 0 → (k : ℕ) × (n ≡ 2 ^ k)
pow_of_bit_and-pred zero n h p e = absurd (omega arith)
pow_of_bit_and-pred (suc fuel) zero h p e = absurd (omega arith)
pow_of_bit_and-pred (suc fuel) (suc zero) h p e = (0, refl)
pow_of_bit_and-pred (suc fuel) (suc (suc m)) h p e =
    let parts = and-pred_half (suc (suc m)) (omega arith) e in
    let rest = pow_of_bit_and-pred fuel (suc (suc m) / 2) (omega arith) (omega arith) parts.1 in
    (suc rest.0, omega (arith, rest.1, parts.0, pow-suc 2 rest.0))
