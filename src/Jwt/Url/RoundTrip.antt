-- ===== src/Jwt/Url/RoundTrip.antt =====
-- base64UrlEncode and base64UrlDecode (src/JwtUtil.cpp) against one another, and the alphabet.
use alkaidlab_fw.Base.{
  ℕ, zero, suc, ◌+◌, ◌*◌, ◌/◌, ◌%◌, ◌<◌, ◌≡◌, refl, ◌≢◌, arith, Bytes, [], ◌∷◌, ◌++◌, map, All,
  Bool, true, ◌&&◌, ◌||◌, ◌==◌, leb, ap, ◌∙◌, holds_below, holds_below_at,
}
use alkaidlab_fw.Base64.{base64_encode, base64_decode}
use alkaidlab_fw.Base64.Symbols.{symbol}
use alkaidlab_fw.Base64.RoundTrip.{IsByte, encode_one, encode_two, encode_three, decode-encode}
use alkaidlab_fw.Jwt.Url.{
  url_char, plain_char, keep_before, strip_pad, pad, base64url_encode, base64url_decode,
}

-- What may stand in a token's part: letters, digits, `-` and `_`.
abbrev pub is_url_char : ℕ → Bool
is_url_char c =
    (leb b'A' c && leb c b'Z')
    || (leb b'a' c && leb c b'z')
    || (leb b'0' c && leb c b'9')
    || c == b'-'
    || c == b'_'

abbrev pub IsUrlChar : ℕ → Type 0
IsUrlChar c = is_url_char c ≡ true

url_test : ℕ → Bool
url_test i = is_url_char (url_char (symbol i)) && (plain_char (url_char (symbol i)) == symbol i)

url_table : holds_below url_test 64 ≡ true
unfolding holds_below url_test symbol
url_table = refl

url_symbol :
    (i : ℕ)
    → i < 64
    → IsUrlChar (url_char (symbol i)) × (plain_char (url_char (symbol i)) ≡ symbol i)
unfolding url_test
url_symbol i h = ground (arith, holds_below_at url_test 64 url_table h)

-- A character that the encoder's padding loop leaves alone and the decoder's first loop restores.
abbrev IsKept : ℕ → Type 0
IsKept p = (url_char p ≢ b'=') × (plain_char (url_char p) ≡ p)

symbol-IsKept : (i : ℕ) → i < 64 → IsKept (symbol i)
symbol-IsKept i h = ground (arith, url_symbol i h)

strip_pad-cons : (c : ℕ) (s : Bytes) → c ≢ b'=' → strip_pad (c ∷ s) ≡ c ∷ strip_pad s
unfolding strip_pad
strip_pad-cons c s h = keep c (strip_pad s) h
  where
    keep : (c : ℕ) (t : Bytes) → c ≢ b'=' → keep_before c t ≡ c ∷ t
    keep c [] h = ground arith
    keep c (d ∷ t) h = refl

pad_four :
    (fuel a b c d : ℕ) (s : Bytes) → pad fuel (a ∷ b ∷ c ∷ d ∷ s) ≡ a ∷ b ∷ c ∷ d ∷ pad fuel s
unfolding pad
pad_four zero a b c d s = refl
pad_four (suc fuel) a b c d s = ground (arith, pad_four fuel a b c d (s ++ b'=' ∷ []))

restore : Bytes → Bytes
restore s = pad 3 (map plain_char (strip_pad (map url_char s)))

restore_four :
    (p q r t : ℕ) (s : Bytes)
    → IsKept p
    → IsKept q
    → IsKept r
    → IsKept t
    → restore (p ∷ q ∷ r ∷ t ∷ s) ≡ p ∷ q ∷ r ∷ t ∷ restore s
unfolding restore
restore_four p q r t s hp hq hr ht = rw (
  strip_pad-cons (url_char p) (map url_char (q ∷ r ∷ t ∷ s)) hp.0,
  strip_pad-cons (url_char q) (map url_char (r ∷ t ∷ s)) hq.0,
  strip_pad-cons (url_char r) (map url_char (t ∷ s)) hr.0,
  strip_pad-cons (url_char t) (map url_char s) ht.0,
  pad_four,
  hp.1,
  hq.1,
  hr.1,
  ht.1,
)

restore_two :
    (p q : ℕ) → IsKept p → IsKept q → restore (p ∷ q ∷ b'=' ∷ b'=' ∷ []) ≡ p ∷ q ∷ b'=' ∷ b'=' ∷ []
unfolding restore strip_pad pad
restore_two p q hp hq = rw (
  strip_pad-cons (url_char p) (url_char q ∷ b'=' ∷ b'=' ∷ []) hp.0,
  strip_pad-cons (url_char q) (b'=' ∷ b'=' ∷ []) hq.0,
  hp.1,
  hq.1,
)

restore_three :
    (p q r : ℕ)
    → IsKept p
    → IsKept q
    → IsKept r
    → restore (p ∷ q ∷ r ∷ b'=' ∷ []) ≡ p ∷ q ∷ r ∷ b'=' ∷ []
unfolding restore strip_pad pad
restore_three p q r hp hq hr = rw (
  strip_pad-cons (url_char p) (url_char q ∷ url_char r ∷ b'=' ∷ []) hp.0,
  strip_pad-cons (url_char q) (url_char r ∷ b'=' ∷ []) hq.0,
  strip_pad-cons (url_char r) (b'=' ∷ []) hr.0,
  hp.1,
  hq.1,
  hr.1,
)

restore_encoded : (s : Bytes) → All IsByte s → restore (base64_encode s) ≡ base64_encode s
restore_encoded [] h = unfold restore base64_encode strip_pad pad in refl
restore_encoded (x ∷ []) (hx, _) = rw (encode_one x hx) (
    restore_two (symbol (x / 4)) (symbol (x % 4 * 16)) (symbol-IsKept _ (omega arith))
      (symbol-IsKept _ (omega arith)))
restore_encoded (x ∷ y ∷ []) (hx, (hy, _)) = rw (encode_two x y hx hy) (
    restore_three _ _ _ (symbol-IsKept _ (omega arith)) (symbol-IsKept _ (omega arith))
      (symbol-IsKept _ (omega arith)))
restore_encoded (x ∷ y ∷ z ∷ rest) (hx, (hy, (hz, hs))) = rw (encode_three x y z rest hx hy hz) (
    restore_four _ _ _ _ (base64_encode rest) (symbol-IsKept _ (omega arith))
      (symbol-IsKept _ (omega arith)) (symbol-IsKept _ (omega arith))
      (symbol-IsKept _ (omega arith))
    ∙ ap
        (λ t.
          symbol (x / 4)
          ∷ symbol (x % 4 * 16 + y / 16)
          ∷ symbol (y % 16 * 4 + z / 64)
          ∷ symbol (z % 64)
          ∷ t)
        (restore_encoded rest hs))

-- base64UrlDecode gives back every byte string that base64UrlEncode was given.
pub url_decode-encode : (s : Bytes) → All IsByte s → base64url_decode (base64url_encode s) ≡ s
unfolding base64url_decode base64url_encode restore
url_decode-encode s h = ap base64_decode (restore_encoded s h) ∙ decode-encode s h

url_symbol-IsUrlChar : (i : ℕ) → i < 64 → IsUrlChar (url_char (symbol i))
url_symbol-IsUrlChar i h = (url_symbol i h).0

-- The encoder's text before padding is cut: two symbols or more, and its padding.
url_encode-three :
    (p q r t : ℕ) (s : Bytes)
    → IsKept p
    → IsKept q
    → IsKept r
    → IsKept t
    → strip_pad (map url_char (p ∷ q ∷ r ∷ t ∷ s))
      ≡ url_char p ∷ url_char q ∷ url_char r ∷ url_char t ∷ strip_pad (map url_char s)
url_encode-three p q r t s hp hq hr ht = rw (
  strip_pad-cons (url_char p) (map url_char (q ∷ r ∷ t ∷ s)) hp.0,
  strip_pad-cons (url_char q) (map url_char (r ∷ t ∷ s)) hq.0,
  strip_pad-cons (url_char r) (map url_char (t ∷ s)) hr.0,
  strip_pad-cons (url_char t) (map url_char s) ht.0,
)

-- Every character of an encoded text is a letter, a digit, `-` or `_`.
pub url_encode-IsUrlChar : (s : Bytes) → All IsByte s → All IsUrlChar (base64url_encode s)
unfolding base64url_encode
url_encode-IsUrlChar [] h = unfold base64_encode strip_pad in tt
url_encode-IsUrlChar (x ∷ []) (hx, _) =
    rw
      (
        encode_one x hx,
        strip_pad-cons (url_char (symbol (x / 4))) _ (symbol-IsKept _ (omega arith)).0,
        strip_pad-cons (url_char (symbol (x % 4 * 16))) _ (symbol-IsKept _ (omega arith)).0,
      )
      (unfold strip_pad in
        (url_symbol-IsUrlChar _ (omega arith), (url_symbol-IsUrlChar _ (omega arith), tt)))
url_encode-IsUrlChar (x ∷ y ∷ []) (hx, (hy, _)) =
    rw
      (
        encode_two x y hx hy,
        strip_pad-cons (url_char (symbol (x / 4))) _ (symbol-IsKept _ (omega arith)).0,
        strip_pad-cons (url_char (symbol (x % 4 * 16 + y / 16))) _
            (symbol-IsKept _ (omega arith)).0,
        strip_pad-cons (url_char (symbol (y % 16 * 4))) _ (symbol-IsKept _ (omega arith)).0,
      )
      (unfold strip_pad in
        (
          url_symbol-IsUrlChar _ (omega arith),
          (url_symbol-IsUrlChar _ (omega arith), (url_symbol-IsUrlChar _ (omega arith), tt)),
        ))
url_encode-IsUrlChar (x ∷ y ∷ z ∷ rest) (hx, (hy, (hz, hs))) =
    rw
      (
        encode_three x y z rest hx hy hz,
        url_encode-three (symbol (x / 4)) (symbol (x % 4 * 16 + y / 16))
            (symbol (y % 16 * 4 + z / 64)) (symbol (z % 64)) (base64_encode rest)
            (symbol-IsKept _ (omega arith)) (symbol-IsKept _ (omega arith))
            (symbol-IsKept _ (omega arith)) (symbol-IsKept _ (omega arith)),
      )
      (
        url_symbol-IsUrlChar _ (omega arith),
        (
          url_symbol-IsUrlChar _ (omega arith),
          (
            url_symbol-IsUrlChar _ (omega arith),
            (url_symbol-IsUrlChar _ (omega arith), url_encode-IsUrlChar rest hs),
          ),
        ),
      )
