-- ===== src/Base64.antt =====
-- The Base64 loops of src/PasswordUtil.cpp (base64Encode, base64Decode). src/JwtUtil.cpp has the
-- same two loops inside base64UrlEncode and base64UrlDecode (Jwt/Url.antt).
pub mod Symbols
pub mod RoundTrip
mod Tests
use Prim.Native.Nat.{bit_and, bit_or}
use alkaidlab_fw.Base.{ℕ, ◌*◌, ◌/◌, ◌%◌, ◌^◌, Bytes, codes, List, [], ◌∷◌, get_or, ◌==◌, ◌||◌, ◌++◌}
use alkaidlab_fw.Base.{◌&&◌, not, if◌then◌else◌}

abbrev pub table : Bytes
table = codes "ABCDEFGHIJKLMNOPQRSTUVWXYZabcdefghijklmnopqrstuvwxyz0123456789+/"

-- `x << k` of an unsigned int. No encoder shift leaves 32 bits, since a byte is below 2^8.
abbrev pub shl : ℕ → ℕ → ℕ
shl x k = x * 2 ^ k

abbrev pub shr : ℕ → ℕ → ℕ
shr x k = x / 2 ^ k

-- `table[(n >> k) & 0x3F]`
unfoldable pub symbol_at : ℕ → ℕ → ℕ
symbol_at n k = get_or table (bit_and (shr n k) 0x3F) 0

-- The rounds of the loop take three bytes; the last one may find one or two.
unfoldable pub base64_encode : Bytes → Bytes
base64_encode [] = []
base64_encode (x ∷ []) = let n = shl x 16 in symbol_at n 18 ∷ symbol_at n 12 ∷ b'=' ∷ b'=' ∷ []
base64_encode (x ∷ y ∷ []) =
    let n = bit_or (shl x 16) (shl y 8) in
    symbol_at n 18 ∷ symbol_at n 12 ∷ symbol_at n 6 ∷ b'=' ∷ []
base64_encode (x ∷ y ∷ z ∷ rest) =
    let n = bit_or (bit_or (shl x 16) (shl y 8)) z in
    symbol_at n 18 ∷ symbol_at n 12 ∷ symbol_at n 6 ∷ symbol_at n 0 ∷ base64_encode rest

-- The table's rows of sixteen.
abbrev pub decode_table : List ℕ
decode_table =
    255 ∷ 255 ∷ 255 ∷ 255 ∷ 255 ∷ 255 ∷ 255 ∷ 255 ∷ 255 ∷ 255 ∷ 255 ∷ 255 ∷ 255 ∷ 255 ∷ 255 ∷ 255
    ∷ 255 ∷ 255 ∷ 255 ∷ 255 ∷ 255 ∷ 255 ∷ 255 ∷ 255 ∷ 255 ∷ 255 ∷ 255 ∷ 255 ∷ 255 ∷ 255 ∷ 255 ∷ 255
    ∷ 255 ∷ 255 ∷ 255 ∷ 255 ∷ 255 ∷ 255 ∷ 255 ∷ 255 ∷ 255 ∷ 255 ∷ 255 ∷ 62 ∷ 255 ∷ 255 ∷ 255 ∷ 63
    ∷ 52 ∷ 53 ∷ 54 ∷ 55 ∷ 56 ∷ 57 ∷ 58 ∷ 59 ∷ 60 ∷ 61 ∷ 255 ∷ 255 ∷ 255 ∷ 0 ∷ 255 ∷ 255 ∷ 255 ∷ 0
    ∷ 1 ∷ 2 ∷ 3 ∷ 4 ∷ 5 ∷ 6 ∷ 7 ∷ 8 ∷ 9 ∷ 10 ∷ 11 ∷ 12 ∷ 13 ∷ 14 ∷ 15 ∷ 16 ∷ 17 ∷ 18 ∷ 19 ∷ 20 ∷ 21
    ∷ 22 ∷ 23 ∷ 24 ∷ 25 ∷ 255 ∷ 255 ∷ 255 ∷ 255 ∷ 255 ∷ 255 ∷ 26 ∷ 27 ∷ 28 ∷ 29 ∷ 30 ∷ 31 ∷ 32 ∷ 33
    ∷ 34 ∷ 35 ∷ 36 ∷ 37 ∷ 38 ∷ 39 ∷ 40 ∷ 41 ∷ 42 ∷ 43 ∷ 44 ∷ 45 ∷ 46 ∷ 47 ∷ 48 ∷ 49 ∷ 50 ∷ 51 ∷ 255
    ∷ 255 ∷ 255 ∷ 255 ∷ 255 ∷ 255 ∷ 255 ∷ 255 ∷ 255 ∷ 255 ∷ 255 ∷ 255 ∷ 255 ∷ 255 ∷ 255 ∷ 255 ∷ 255
    ∷ 255 ∷ 255 ∷ 255 ∷ 255 ∷ 255 ∷ 255 ∷ 255 ∷ 255 ∷ 255 ∷ 255 ∷ 255 ∷ 255 ∷ 255 ∷ 255 ∷ 255 ∷ 255
    ∷ 255 ∷ 255 ∷ 255 ∷ 255 ∷ 255 ∷ 255 ∷ 255 ∷ 255 ∷ 255 ∷ 255 ∷ 255 ∷ 255 ∷ 255 ∷ 255 ∷ 255 ∷ 255
    ∷ 255 ∷ 255 ∷ 255 ∷ 255 ∷ 255 ∷ 255 ∷ 255 ∷ 255 ∷ 255 ∷ 255 ∷ 255 ∷ 255 ∷ 255 ∷ 255 ∷ 255 ∷ 255
    ∷ 255 ∷ 255 ∷ 255 ∷ 255 ∷ 255 ∷ 255 ∷ 255 ∷ 255 ∷ 255 ∷ 255 ∷ 255 ∷ 255 ∷ 255 ∷ 255 ∷ 255 ∷ 255
    ∷ 255 ∷ 255 ∷ 255 ∷ 255 ∷ 255 ∷ 255 ∷ 255 ∷ 255 ∷ 255 ∷ 255 ∷ 255 ∷ 255 ∷ 255 ∷ 255 ∷ 255 ∷ 255
    ∷ 255 ∷ 255 ∷ 255 ∷ 255 ∷ 255 ∷ 255 ∷ 255 ∷ 255 ∷ 255 ∷ 255 ∷ 255 ∷ 255 ∷ 255 ∷ 255 ∷ 255 ∷ 255
    ∷ 255 ∷ 255 ∷ 255 ∷ 255 ∷ 255 ∷ 255 ∷ 255 ∷ 255 ∷ 255 ∷ 255 ∷ 255 ∷ 255 ∷ 255 ∷ 255 ∷ 255 ∷ 255
    ∷ 255 ∷ 255 ∷ 255 ∷ 255 ∷ []

unfoldable pub decode_char : ℕ → ℕ
decode_char c = get_or decode_table c 255

-- The bytes that one round of the loop appends, for table values `a`, `b` other than 255.
unfoldable pub decode_group : ℕ → ℕ → ℕ → ℕ → ℕ → ℕ → Bytes
decode_group a b c d r s =
    (bit_or (shl a 2) (shr b 4) % 256)
    ∷ (if not (r == b'=') && not (c == 255)
        then (bit_or (shl (bit_and b 0x0F) 4) (shr c 2) % 256)
          ∷ (if not (s == b'=') && not (d == 255)
              then (bit_or (shl (bit_and c 0x03) 6) d % 256) ∷ []
              else [])
        else [])

-- Fewer than four characters left over end the loop, and so does a bad first or second one.
unfoldable pub base64_decode : Bytes → Bytes
base64_decode (p ∷ q ∷ r ∷ s ∷ rest) =
    let a = decode_char p in
    let b = decode_char q in
    if a == 255 || b == 255
    then []
    else decode_group a b (decode_char r) (decode_char s) r s ++ base64_decode rest
base64_decode _ = []
