-- ===== src/Base/Decimal.antt =====
-- Decimal numbers in text: what `operator<<` prints for an integer, and how `std::stoll` and
-- `std::stoi` read a run of digits.
use alkaidlab_fw.Base.{
  ℕ, zero, suc, ◌+◌, ◌-◌, ◌*◌, ◌/◌, ◌%◌, ◌^◌, ◌≤◌, ◌<◌, ◌≡◌, refl, arith, Bytes, [], ◌∷◌, All, Bool,
  true, ◌&&◌, leb, ltb, if◌then◌else◌, Bool-cases, inl, inr, length,
}
use native.Mathlib.Nat.{pow-suc}
use alkaidlab_fw.Base.Int.{ℤ, pos, negsuc}

-- Digits of `n` before `rest`; the fuel bounds their number.
unfoldable pub digits_before : ℕ → ℕ → Bytes → Bytes
digits_before zero n rest = rest
digits_before (suc fuel) n rest =
    let more = digits_before fuel (n / 10) ((b'0' + n % 10) ∷ rest) in
    if ltb n 10 then (b'0' + n) ∷ rest else more

unfoldable pub decimal : ℕ → Bytes
unfolding digits_before
decimal n = digits_before (suc n) n []

unfoldable pub decimal_ℤ : ℤ → Bytes
unfolding decimal
decimal_ℤ (pos n) = decimal n
decimal_ℤ (negsuc n) = b'-' ∷ decimal (suc n)

abbrev pub is_digit : ℕ → Bool
is_digit c = leb b'0' c && leb c b'9'

abbrev pub IsDigit : ℕ → Type 0
IsDigit c = is_digit c ≡ true

-- The value of a run of digits behind the value of those before it.
abbrev pub value_from : ℕ → Bytes → ℕ
value_from acc [] = acc
value_from acc (c ∷ s) = value_from (acc * 10 + (c - b'0')) s

value-digits_before :
    (fuel n : ℕ) (rest : Bytes)
    → n < fuel
    → value_from 0 (digits_before fuel n rest) ≡ value_from n rest
unfolding digits_before
value-digits_before zero n rest h = absurd (omega arith)
value-digits_before (suc fuel) n rest h =
    ground (arith, value-digits_before fuel (n / 10) ((b'0' + n % 10) ∷ rest))

-- Reading what was printed gives the number back.
pub value-decimal : (n : ℕ) → value_from 0 (decimal n) ≡ n
unfolding decimal
value-decimal n = value-digits_before (suc n) n [] (omega arith)

digits_before-IsDigit :
    (fuel n : ℕ) (rest : Bytes) → All IsDigit rest → All IsDigit (digits_before fuel n rest)
unfolding digits_before
digits_before-IsDigit zero n rest h = h
digits_before-IsDigit (suc fuel) n rest h =
    ground (arith, digits_before-IsDigit fuel (n / 10) ((b'0' + n % 10) ∷ rest))

pub decimal-IsDigit : (n : ℕ) → All IsDigit (decimal n)
unfolding decimal
decimal-IsDigit n = digits_before-IsDigit (suc n) n [] tt

-- At least one digit is printed.
abbrev pub NonEmpty : Bytes → Type 0
NonEmpty s = (c : ℕ) × (t : Bytes) × (s ≡ c ∷ t)

digits_before-NonEmpty : (fuel n d : ℕ) (rest : Bytes) → NonEmpty (digits_before fuel n (d ∷ rest))
unfolding digits_before
digits_before-NonEmpty zero n d rest = (d, rest, refl)
digits_before-NonEmpty (suc fuel) n d rest = elim (Bool-cases (ltb n 10)) [
  | inl e ↦ (b'0' + n, d ∷ rest, rw e)
  | inr e ↦ rw e (digits_before-NonEmpty fuel (n / 10) (b'0' + n % 10) (d ∷ rest))
]

pub decimal-NonEmpty : (n : ℕ) → NonEmpty (decimal n)
unfolding decimal
decimal-NonEmpty n = elim (Bool-cases (ltb n 10)) [
  | inl e ↦ (b'0' + n, [], rw e)
  | inr e ↦ rw e (digits_before-NonEmpty n (n / 10) (b'0' + n % 10) [])
]

-- A number below a power of ten has no more digits than its exponent.
digits_before-length :
    (fuel k n : ℕ) (rest : Bytes)
    → n < fuel
    → n < 10 ^ suc k
    → length (digits_before fuel n rest) ≤ length rest + suc k
unfolding digits_before
digits_before-length zero k n rest h low = absurd (omega arith)
digits_before-length (suc fuel) zero n rest h low = elim (Bool-cases (ltb n 10)) [
  | inl small ↦ rw small (omega arith)
  | inr large ↦ absurd (ground (arith, low, large))
]
digits_before-length (suc fuel) (suc k) n rest h low = elim (Bool-cases (ltb n 10)) [
  | inl small ↦ rw small (omega arith)
  | inr large ↦
      let shorter : n / 10 < 10 ^ suc k = omega (arith, low, pow-suc 10 (suc k)) in
      let more =
        digits_before-length fuel k (n / 10) ((b'0' + n % 10) ∷ rest) (ground (arith, h, large))
          shorter in
      rw large (omega (arith, more))
]

pub decimal-length : (k n : ℕ) → n < 10 ^ suc k → length (decimal n) ≤ suc k
unfolding decimal
decimal-length k n low = omega (arith, digits_before-length (suc n) k n [] (omega arith) low)
