-- ===== src/Base64/RoundTrip.antt =====
-- What the encoder writes, the decoder reads back.
use alkaidlab_fw.Base.{
  ℕ, ◌+◌, ◌*◌, ◌/◌, ◌%◌, ◌<◌, ◌≡◌, ◌≢◌, arith, Bytes, [], ◌∷◌, ◌++◌, All, ap, ap₂, ◌∙◌, refl,
}
use alkaidlab_fw.Base64.{base64_encode, base64_decode, decode_group, decode_char}
use alkaidlab_fw.Base64.Symbols.{
  symbol, symbol-IsBase64Char, symbol_at_lem, word_two, word_three, first_byte, second_byte,
  third_byte,
}

ap₃ {ℓ} :
    {A : Type ℓ} (f : ℕ → ℕ → ℕ → A) {a a' b b' c c' : ℕ}
    → a ≡ a'
    → b ≡ b'
    → c ≡ c'
    → f a b c ≡ f a' b' c'
ap₃ f p q r = λ i. f (p i) (q i) (r i)

ap₄ {ℓ} :
    {A : Type ℓ} (f : ℕ → ℕ → ℕ → ℕ → A) {a a' b b' c c' d d' : ℕ}
    → a ≡ a'
    → b ≡ b'
    → c ≡ c'
    → d ≡ d'
    → f a b c d ≡ f a' b' c' d'
ap₄ f p q r s = λ i. f (p i) (q i) (r i) (s i)

abbrev pub IsByte : ℕ → Type 0
IsByte x = x < 256

-- One round on symbols: the four table values are the numbers of the symbols.
full_group :
    (a b c d : ℕ)
    → a < 64
    → b < 64
    → c < 64
    → d < 64
    → decode_group a b c d (symbol c) (symbol d)
      ≡ (a * 4 + b / 16) ∷ (b % 16 * 16 + c / 4) ∷ (c % 4 * 64 + d) ∷ []
unfolding decode_group
full_group a b c d ha hb hc hd = ground (
  arith,
  first_byte a b hb,
  second_byte b c hc,
  third_byte c d hd,
  symbol-IsBase64Char c hc,
  symbol-IsBase64Char d hd,
)

decode_symbols :
    (a b : ℕ) (r s : ℕ) (rest : Bytes)
    → a < 64
    → b < 64
    → base64_decode (symbol a ∷ symbol b ∷ r ∷ s ∷ rest)
      ≡ decode_group a b (decode_char r) (decode_char s) r s ++ base64_decode rest
unfolding base64_decode
decode_symbols a b r s rest ha hb =
    ground (arith, symbol-IsBase64Char a ha, symbol-IsBase64Char b hb)

-- What the encoder writes for one, two and three bytes, as symbols of their sextets.
pub encode_one :
    (x : ℕ)
    → IsByte x
    → base64_encode (x ∷ []) ≡ symbol (x / 4) ∷ symbol (x % 4 * 16) ∷ b'=' ∷ b'=' ∷ []
unfolding base64_encode
encode_one x hx =
    simp symbol_at_lem
      (ap₂ (λ (i j : ℕ). symbol i ∷ symbol j ∷ b'=' ∷ b'=' ∷ []) (omega arith) (omega arith))

pub encode_two :
    (x y : ℕ)
    → IsByte x
    → IsByte y
    → base64_encode (x ∷ y ∷ [])
      ≡ symbol (x / 4) ∷ symbol (x % 4 * 16 + y / 16) ∷ symbol (y % 16 * 4) ∷ b'=' ∷ []
unfolding base64_encode
encode_two x y hx hy = rw (word_two x y hy) (
    simp symbol_at_lem (
      ap₃ (λ i j k. symbol i ∷ symbol j ∷ symbol k ∷ b'=' ∷ []) (omega arith) (omega arith)
        (omega arith)))

pub encode_three :
    (x y z : ℕ) (rest : Bytes)
    → IsByte x
    → IsByte y
    → IsByte z
    → base64_encode (x ∷ y ∷ z ∷ rest)
      ≡ symbol (x / 4)
        ∷ symbol (x % 4 * 16 + y / 16)
        ∷ symbol (y % 16 * 4 + z / 64)
        ∷ symbol (z % 64)
        ∷ base64_encode rest
unfolding base64_encode
encode_three x y z rest hx hy hz = rw (word_three x y z hy hz) (
    simp symbol_at_lem (
      ap₂ (λ (s : Bytes) l. s ++ l)
        (ap₄ (λ i j k l. symbol i ∷ symbol j ∷ symbol k ∷ symbol l ∷ []) (omega arith) (omega arith)
          (omega arith) (omega arith))
        refl))

-- A last round with two padding characters gives one byte, with one it gives two.
padded_twice :
    (a b c d s : ℕ)
    → b < 64
    → a * 4 + b / 16 < 256
    → decode_group a b c d b'=' s ≡ (a * 4 + b / 16) ∷ []
unfolding decode_group
padded_twice a b c d s hb fits = ground (arith, first_byte a b hb)

padded_once :
    (a b c d : ℕ)
    → a < 64
    → b < 64
    → c < 64
    → decode_group a b c d (symbol c) b'=' ≡ (a * 4 + b / 16) ∷ (b % 16 * 16 + c / 4) ∷ []
unfolding decode_group
padded_once a b c d ha hb hc =
    ground (arith, first_byte a b hb, second_byte b c hc, symbol-IsBase64Char c hc)

one_back : (x : ℕ) → IsByte x → base64_decode (base64_encode (x ∷ [])) ≡ x ∷ []
one_back x hx =
    rw
      (
        encode_one x hx,
        decode_symbols (x / 4) (x % 4 * 16) b'=' b'=' [] (omega arith) (omega arith),
        padded_twice (x / 4) (x % 4 * 16) (decode_char b'=') (decode_char b'=') b'=' (omega arith)
            (omega arith),
      )
      (unfold base64_decode in ap (λ (i : ℕ). i ∷ []) (omega arith))

two_back : (x y : ℕ) → IsByte x → IsByte y → base64_decode (base64_encode (x ∷ y ∷ [])) ≡ x ∷ y ∷ []
two_back x y hx hy =
    rw
      (
        encode_two x y hx hy,
        decode_symbols (x / 4) (x % 4 * 16 + y / 16) (symbol (y % 16 * 4)) b'=' [] (omega arith)
            (omega arith),
        (symbol-IsBase64Char (y % 16 * 4) (omega arith)).decodes,
        padded_once (x / 4) (x % 4 * 16 + y / 16) (y % 16 * 4) (decode_char b'=') (omega arith)
            (omega arith) (omega arith),
      )
      (unfold base64_decode in ap₂ (λ (i j : ℕ). i ∷ j ∷ []) (omega arith) (omega arith))

three_back :
    (x y z : ℕ) (rest : Bytes)
    → IsByte x
    → IsByte y
    → IsByte z
    → base64_decode (base64_encode (x ∷ y ∷ z ∷ rest))
      ≡ x ∷ y ∷ z ∷ base64_decode (base64_encode rest)
three_back x y z rest hx hy hz =
    rw
      (
        encode_three x y z rest hx hy hz,
        decode_symbols (x / 4) (x % 4 * 16 + y / 16) (symbol (y % 16 * 4 + z / 64))
            (symbol (z % 64)) (base64_encode rest) (omega arith) (omega arith),
        (symbol-IsBase64Char (y % 16 * 4 + z / 64) (omega arith)).decodes,
        (symbol-IsBase64Char (z % 64) (omega arith)).decodes,
        full_group (x / 4) (x % 4 * 16 + y / 16) (y % 16 * 4 + z / 64) (z % 64) (omega arith)
            (omega arith) (omega arith) (omega arith),
      )
      (ap₃ (λ i j k. i ∷ j ∷ k ∷ base64_decode (base64_encode rest)) (omega arith) (omega arith)
        (omega arith))

-- Decoding what was encoded from bytes gives them back.
pub decode-encode : (s : Bytes) → All IsByte s → base64_decode (base64_encode s) ≡ s
decode-encode [] h = unfold base64_decode base64_encode in refl
decode-encode (x ∷ []) (hx, _) = one_back x hx
decode-encode (x ∷ y ∷ []) (hx, (hy, _)) = two_back x y hx hy
decode-encode (x ∷ y ∷ z ∷ rest) (hx, (hy, (hz, hs))) =
    three_back x y z rest hx hy hz ∙ ap (λ t. x ∷ y ∷ z ∷ t) (decode-encode rest hs)

-- No `$` stands in an encoded text.
pub encode-no_dollar : (s : Bytes) → All IsByte s → All (λ c. c ≢ b'$') (base64_encode s)
encode-no_dollar [] h = unfold base64_encode in tt
encode-no_dollar (x ∷ []) (hx, _) = rw (encode_one x hx) (
  (symbol-IsBase64Char _ (omega arith)).not_dollar,
  ((symbol-IsBase64Char _ (omega arith)).not_dollar, omega arith),
)
encode-no_dollar (x ∷ y ∷ []) (hx, (hy, _)) = rw (encode_two x y hx hy) (
  (symbol-IsBase64Char _ (omega arith)).not_dollar,
  (
    (symbol-IsBase64Char _ (omega arith)).not_dollar,
    ((symbol-IsBase64Char _ (omega arith)).not_dollar, omega arith),
  ),
)
encode-no_dollar (x ∷ y ∷ z ∷ rest) (hx, (hy, (hz, hs))) = rw (encode_three x y z rest hx hy hz) (
  (symbol-IsBase64Char _ (omega arith)).not_dollar,
  (
    (symbol-IsBase64Char _ (omega arith)).not_dollar,
    (
      (symbol-IsBase64Char _ (omega arith)).not_dollar,
      ((symbol-IsBase64Char _ (omega arith)).not_dollar, encode-no_dollar rest hs),
    ),
  ),
)
