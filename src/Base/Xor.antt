-- ===== src/Base/Xor.antt =====
-- `^` and `|` as a comparison of bytes: a difference leaves a bit.
use Prim.Native.Nat.{bit_or, bit_xor, differ, bit_xor-bitwise}
use Prim.Native.Nat.{ℕ, zero, suc, ◌+◌, ◌*◌, ◌/◌, ◌%◌, ◌≤◌}
use mathlib.Core.Path.{◌≡◌, refl}
use native.Mathlib.Omega.{arith}
use alkaidlab_fw.Base.Bits.{fuel_irrelevant, bit_or_step, zero-bit_or}

zero-bit_xor : (b : ℕ) → bit_xor 0 b ≡ b
zero-bit_xor b = bit_xor-bitwise 0 b

pub bit_xor_step : (a b : ℕ) → bit_xor a b ≡ bit_xor (a / 2) (b / 2) * 2 + differ (a % 2) (b % 2)
bit_xor_step zero b = omega (arith, zero-bit_xor b, zero-bit_xor (b / 2))
bit_xor_step (suc a) b = omega (
  arith,
  bit_xor-bitwise (suc a) b,
  bit_xor-bitwise (suc a / 2) (b / 2),
  fuel_irrelevant (λ y. y) differ (suc a / 2) (b / 2) {p = a} {q = suc a / 2} (omega arith)
      (omega arith),
)

differ_zero : (x y : ℕ) → differ x y ≡ 0 → x ≡ y
differ_zero zero y h = omega arith
differ_zero (suc x) zero h = omega arith
differ_zero (suc x) (suc y) h = omega (arith, differ_zero x y h)

differ_self : (x : ℕ) → differ x x ≡ 0
differ_self zero = refl
differ_self (suc x) = differ_self x

bit_xor_zero_below : (n a b : ℕ) → a ≤ n → bit_xor a b ≡ 0 → a ≡ b
bit_xor_zero_below n zero b h e = omega (arith, zero-bit_xor b)
bit_xor_zero_below zero (suc a) b h e = absurd (omega arith)
bit_xor_zero_below (suc n) (suc a) b h e =
    let step = bit_xor_step (suc a) b in
    omega (
      arith,
      bit_xor_zero_below n (suc a / 2) (b / 2) (omega arith) (omega (arith, step)),
      differ_zero (suc a % 2) (b % 2) (omega (arith, step)),
    )

-- `a ^ b` is 0 for equal numbers only.
pub eq_of_bit_xor : (a b : ℕ) → bit_xor a b ≡ 0 → a ≡ b
eq_of_bit_xor a b = bit_xor_zero_below a a b (omega arith)

bit_xor_self_below : (n a : ℕ) → a ≤ n → bit_xor a a ≡ 0
bit_xor_self_below n zero h = refl
bit_xor_self_below zero (suc a) h = absurd (omega arith)
bit_xor_self_below (suc n) (suc a) h = omega (
  arith,
  bit_xor_step (suc a) (suc a),
  differ_self (suc a % 2),
  bit_xor_self_below n (suc a / 2) (omega arith),
)

pub bit_xor_self : (a : ℕ) → bit_xor a a ≡ 0
bit_xor_self a = bit_xor_self_below a a (omega arith)

bit_or_zero_below : (n a b : ℕ) → a ≤ n → bit_or a b ≡ 0 → (a ≡ 0) × (b ≡ 0)
bit_or_zero_below n zero b h e = (refl, omega (arith, zero-bit_or b))
bit_or_zero_below zero (suc a) b h e = absurd (omega arith)
bit_or_zero_below (suc n) (suc a) b h e =
    let step = bit_or_step (suc a) b in
    let half = bit_or_zero_below n (suc a / 2) (b / 2) (omega arith) (omega (arith, step)) in
    (omega (arith, step, half), omega (arith, step, half))

-- `a | b` is 0 only if both are.
pub zero_of_bit_or : (a b : ℕ) → bit_or a b ≡ 0 → (a ≡ 0) × (b ≡ 0)
zero_of_bit_or a b = bit_or_zero_below a a b (omega arith)
