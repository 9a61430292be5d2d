-- ===== src/Jwt/Token/Verified.antt =====
-- Which tokens JwtUtil::verify accepts (src/JwtUtil.cpp).
use alkaidlab_fw.Base.{
  ℕ, suc, ◌^◌, ◌<◌, ◌≤◌, ◌≡◌, refl, ◌≢◌, arith, Bytes, codes, [], ◌∷◌, ◌++◌, none, some, Bool, true,
  false, All, All-append, split_at, split_at-append, append_assoc, bytes_eq_refl, if◌then◌else◌,
}
use alkaidlab_fw.Base.Int.{ℤ, pos, negsuc, ◌+ℤ◌}
use alkaidlab_fw.Base.Decimal.{decimal, decimal_ℤ, IsDigit, decimal-IsDigit}
use alkaidlab_fw.Base64.RoundTrip.{IsByte}
use alkaidlab_fw.Jwt.Url.{base64url_encode}
use alkaidlab_fw.Jwt.Url.RoundTrip.{url_decode-encode, url_encode-IsUrlChar, IsUrlChar}
use alkaidlab_fw.Jwt.Claims.{get_exp, get_iat, payload_part}
use alkaidlab_fw.Jwt.Token.{
  header_text, payload_text, sign, verify, accepts_claims, accepts_signature,
}
use alkaidlab_fw.Jwt.Token.Payload.{iat-payload, exp-payload}

abbrev NoDot : ℕ → Type 0
NoDot x = x ≢ b'.'

url_chars-NoDot : (s : Bytes) → All IsUrlChar s → All NoDot s
url_chars-NoDot [] h = tt
url_chars-NoDot (c ∷ s) h = (ground arith, url_chars-NoDot s h.1)

encoded-NoDot : (s : Bytes) → All IsByte s → All NoDot (base64url_encode s)
encoded-NoDot s h = url_chars-NoDot _ (url_encode-IsUrlChar s h)

digits-IsByte : (s : Bytes) → All IsDigit s → All IsByte s
digits-IsByte [] h = tt
digits-IsByte (c ∷ s) h = (ground arith, digits-IsByte s h.1)

decimal_ℤ-IsByte : (n : ℤ) → All IsByte (decimal_ℤ n)
unfolding decimal_ℤ
decimal_ℤ-IsByte (pos n) = digits-IsByte _ (decimal-IsDigit n)
decimal_ℤ-IsByte (negsuc n) = (omega arith, digits-IsByte _ (decimal-IsDigit (suc n)))

header-IsByte : All IsByte header_text
header-IsByte = omega arith

payload-IsByte : (now : ℕ) (expire : ℤ) → All IsByte (payload_text now expire)
unfolding payload_text
payload-IsByte now expire =
    All-append IsByte (codes "{\"sub\":\"admin\",\"iat\":") _ (omega arith) (
      All-append IsByte (decimal now) _ (digits-IsByte _ (decimal-IsDigit now)) (
        All-append IsByte (codes ",\"exp\":") _ (omega arith) (
          All-append IsByte (decimal_ℤ (pos now +ℤ expire)) (codes "}")
            (decimal_ℤ-IsByte (pos now +ℤ expire)) (omega arith))))

NoDot-split : (s : Bytes) → All NoDot s → split_at b'.' s ≡ none
NoDot-split [] h = refl
NoDot-split (c ∷ s) h = ground (arith, NoDot-split s h.1)

-- What verify computes once the token is cut at its two dots.
pub verify_parts :
    (hmac : Bytes → Bytes → Bytes) (now start : ℕ) (revoked : Bool) (token secret : Bytes)
    (header rest payload signature : Bytes)
    → split_at b'.' token ≡ some (header, rest)
    → split_at b'.' rest ≡ some (payload, signature)
    → split_at b'.' signature ≡ none
    → verify hmac now start revoked token secret ≡ (
        if accepts_signature hmac secret (header ++ (b'.' ∷ payload)) signature
        then accepts_claims now start revoked token
        else false)
unfolding verify
verify_parts hmac now start revoked token secret header rest payload signature p q r =
    rw (p, verify) (rw (q, verify) (rw (r, verify)))

module _ (hmac : Bytes → Bytes → Bytes)
    (hmac-IsByte : (key text : Bytes) → All IsByte (hmac key text)) where
  abbrev header_part : Bytes
  header_part = base64url_encode header_text

  abbrev claims_part : ℕ → ℤ → Bytes
  claims_part now expire = base64url_encode (payload_text now expire)

  abbrev signature_part : ℕ → Bytes → ℤ → Bytes
  signature_part now secret expire =
      base64url_encode (hmac secret (header_part ++ (b'.' ∷ claims_part now expire)))

  sign_parts :
      (now : ℕ) (secret : Bytes) (expire : ℤ)
      → sign hmac now secret expire
        ≡ header_part
          ++ (b'.' ∷ claims_part now expire ++ (b'.' ∷ signature_part now secret expire))
  unfolding sign
  sign_parts now secret expire = append_assoc header_part _ _

  cut_header :
      (now : ℕ) (secret : Bytes) (expire : ℤ)
      → split_at b'.' (sign hmac now secret expire)
        ≡ some (header_part, claims_part now expire ++ (b'.' ∷ signature_part now secret expire))
  cut_header now secret expire =
      rw (sign_parts now secret expire)
        (split_at-append b'.' header_part _ (encoded-NoDot header_text header-IsByte))

  cut_claims :
      (now : ℕ) (secret : Bytes) (expire : ℤ)
      → split_at b'.' (claims_part now expire ++ (b'.' ∷ signature_part now secret expire))
        ≡ some (claims_part now expire, signature_part now secret expire)
  cut_claims now secret expire =
      split_at-append b'.' (claims_part now expire) _
        (encoded-NoDot (payload_text now expire) (payload-IsByte now expire))

  payload-sign :
      (now : ℕ) (secret : Bytes) (expire : ℤ)
      → payload_part (sign hmac now secret expire) ≡ some (claims_part now expire)
  unfolding payload_part
  payload-sign now secret expire = rw (cut_header now secret expire, cut_claims now secret expire)

  -- getExp of a token that sign made is its time of signing plus its term, and getIat the time of
  -- signing, for times below 2^63.
  pub claims-sign :
      (now : ℕ) (secret : Bytes) (expire : ℤ) (exp : ℕ)
      → pos now +ℤ expire ≡ pos exp
      → exp < 2 ^ 63
      → now < 2 ^ 63
      → (get_exp (sign hmac now secret expire) ≡ exp)
        × (get_iat (sign hmac now secret expire) ≡ now)
  unfolding get_exp get_iat
  claims-sign now secret expire exp e h k = (
    rw (
      payload-sign now secret expire,
      url_decode-encode _ (payload-IsByte now expire),
      exp-payload now expire exp e h,
    ),
    rw (
      payload-sign now secret expire,
      url_decode-encode _ (payload-IsByte now expire),
      iat-payload now expire k,
    ),
  )

  signature-NoDot :
      (now : ℕ) (secret : Bytes) (expire : ℤ)
      → split_at b'.' (signature_part now secret expire) ≡ none
  signature-NoDot now secret expire = NoDot-split _ (
      encoded-NoDot (hmac secret (header_part ++ (b'.' ∷ claims_part now expire)))
        (hmac-IsByte secret _))

  -- A token that sign made at `now` is accepted under the same secret at every time `later` before
  -- its expiry, if it is not revoked and the service started no later than `now`; and once the
  -- expiry is reached it is refused. `hmac` is any function into byte strings.
  pub verify-sign :
      (now later start : ℕ) (secret : Bytes) (expire : ℤ) (exp : ℕ)
      → pos now +ℤ expire ≡ pos exp
      → exp < 2 ^ 63
      → now < 2 ^ 63
      → start ≤ now
      → (later < exp → verify hmac later start false (sign hmac now secret expire) secret ≡ true)
        × (exp ≤ later → verify hmac later start false (sign hmac now secret expire) secret ≡ false)
  unfolding accepts_signature accepts_claims
  verify-sign now later start secret expire exp e h k s =
      rw
        (
          verify_parts hmac later start false (sign hmac now secret expire) secret _ _ _ _
              (cut_header now secret expire) (cut_claims now secret expire)
              (signature-NoDot now secret expire),
          bytes_eq_refl (signature_part now secret expire),
          (claims-sign now secret expire exp e h k).0,
          (claims-sign now secret expire exp e h k).1,
        )
        (λ l. ground arith, λ l. ground arith)
