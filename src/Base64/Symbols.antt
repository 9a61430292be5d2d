-- ===== src/Base64/Symbols.antt =====
-- The 64 symbols of the Base64 table, and the loops' bit fields as arithmetic.
use Prim.Native.Nat.{bit_and, bit_or}
use alkaidlab_fw.Base.{
  ℕ, ◌+◌, ◌*◌, ◌/◌, ◌%◌, ◌^◌, ◌<◌, ◌≡◌, refl, ◌≢◌, Bool, true, ◌&&◌, not, get_or, ◌==◌, arith,
  holds_below, holds_below_at,
}
use alkaidlab_fw.Base.Bits.{bit_or-add, bit_and-mask}
use alkaidlab_fw.Base64.{table, shl, shr, symbol_at, decode_char}

-- The symbol of a number below 64.
unfoldable pub symbol : ℕ → ℕ
symbol i = get_or table i 0

-- A symbol is a byte that the table gives back, and neither the padding nor a separator of the
-- formats that carry Base64 text (`$`, `.`).
abbrev symbol_test : ℕ → Bool
symbol_test i =
    (decode_char (symbol i) == i)
    && not (symbol i == b'=')
    && not (symbol i == b'$')
    && not (symbol i == b'.')

symbol_table : holds_below symbol_test 64 ≡ true
unfolding holds_below decode_char symbol
symbol_table = refl

pub record IsBase64Char (i : ℕ) : Type 0 where
  pub decodes : decode_char (symbol i) ≡ i
  pub not_pad : symbol i ≢ b'='
  pub not_dollar : symbol i ≢ b'$'
  pub not_dot : symbol i ≢ b'.'

pub symbol-IsBase64Char : (i : ℕ) → i < 64 → IsBase64Char i
symbol-IsBase64Char i h = ground (arith, holds_below_at symbol_test 64 symbol_table h)

pub symbol_at_lem : (n k : ℕ) → symbol_at n k ≡ symbol (n / 2 ^ k % 64)
unfolding symbol_at symbol
symbol_at_lem n k = ground (arith, bit_and-mask 6 (n / 2 ^ k))

pub symbol_at-IsBase64Char : (n k : ℕ) → IsBase64Char (n / 2 ^ k % 64)
symbol_at-IsBase64Char n k = symbol-IsBase64Char _ (omega arith)

pub word_two : (x y : ℕ) → y < 256 → bit_or (shl x 16) (shl y 8) ≡ x * 65536 + y * 256
word_two x y h = ground (arith, bit_or-add 16 x (y * 2 ^ 8))

pub word_three :
    (x y z : ℕ)
    → y < 256
    → z < 256
    → bit_or (bit_or (shl x 16) (shl y 8)) z ≡ x * 65536 + y * 256 + z
word_three x y z h k = ground (arith, word_two x y h, bit_or-add 8 (x * 256 + y) z, regroup)
  where
    regroup : (x * 256 + y) * 2 ^ 8 ≡ x * 65536 + y * 256
    regroup = omega arith

-- The three bytes that a full group decodes to, as arithmetic on its four table values.
pub first_byte : (a b : ℕ) → b < 64 → bit_or (shl a 2) (shr b 4) ≡ a * 4 + b / 16
first_byte a b h = ground (arith, bit_or-add 2 a (b / 2 ^ 4))

pub second_byte :
    (b c : ℕ) → c < 64 → bit_or (shl (bit_and b 0x0F) 4) (shr c 2) ≡ b % 16 * 16 + c / 4
second_byte b c h = ground (arith, bit_and-mask 4 b, bit_or-add 4 (b % 16) (c / 2 ^ 2))

pub third_byte : (c d : ℕ) → d < 64 → bit_or (shl (bit_and c 0x03) 6) d ≡ c % 4 * 64 + d
third_byte c d h = ground (arith, bit_and-mask 2 c, bit_or-add 6 (c % 4) d)
