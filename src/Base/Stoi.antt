-- ===== src/Base/Stoi.antt =====
-- `std::stoi`, which reads the number of rounds of a stored password and the port of a URL.
use alkaidlab_fw.Base.{
  ℕ, ◌^◌, Bytes, [], ◌∷◌, Option, none, some, Bool, ◌&&◌, ◌||◌, ◌==◌, leb, ltb, if◌then◌else◌,
  ◌>>=◌,
}
use alkaidlab_fw.Base.Int.{ℤ, pos, negsuc, sub_ℕ}
use alkaidlab_fw.Base.Decimal.{is_digit, value_from}

-- `std::stoi`: white space, a sign, and the digits up to the first other character; `none` for the
-- exceptions, which are thrown where no digit stands and where the value is not an `int`.
abbrev pub is_space : ℕ → Bool
is_space c = c == b' ' || (leb 9 c && leb c 13)

abbrev pub skip_space : Bytes → Bytes
skip_space [] = []
skip_space (c ∷ s) = let rest = skip_space s in if is_space c then rest else c ∷ s

abbrev pub leading_digits : Bytes → Bytes
leading_digits [] = []
leading_digits (c ∷ s) = let rest = leading_digits s in if is_digit c then c ∷ rest else []

abbrev pub in_int : ℤ → Option ℤ
in_int (pos n) = if ltb n (2 ^ 31) then some (pos n) else none
in_int (negsuc n) = if ltb n (2 ^ 31) then some (negsuc n) else none

abbrev pub unsigned_int : Bytes → Option ℕ
unsigned_int [] = none
unsigned_int (c ∷ s) = some (value_from 0 (c ∷ s))

abbrev pub signed_int : Bytes → Option ℤ
signed_int [] = none
signed_int (c ∷ s) =
    if c == b'-'
    then (unsigned_int (leading_digits s) >>= λ n. in_int (sub_ℕ 0 n))
    else if c == b'+'
    then (unsigned_int (leading_digits s) >>= λ n. in_int (pos n))
    else (unsigned_int (leading_digits (c ∷ s)) >>= λ n. in_int (pos n))

unfoldable pub stoi : Bytes → Option ℤ
stoi s = signed_int (skip_space s)
