-- ===== src/Jwt/Token.antt =====
-- JwtUtil::sign, JwtUtil::verify and JwtUtil::extractBearer (src/JwtUtil.cpp). HMAC-SHA256 and the
-- lookup in the list of revoked tokens are arguments; a time is a number of seconds.
pub mod Payload
pub mod Verified
pub mod Sound
use alkaidlab_fw.Base.{
  ℕ, ◌+◌, ◌-◌, ◌^◌, Bytes, codes, List, [], ◌∷◌, ◌++◌, Option, none, some, Bool, true, false, not,
  ◌&&◌, ◌||◌, ltb, leb, ◌==◌, if◌then◌else◌, split_at, find, starts_with, bytes_eq, length, drop,
}
use alkaidlab_fw.Base.Int.{ℤ, pos, ◌+ℤ◌}
use alkaidlab_fw.Base.Decimal.{decimal, decimal_ℤ}
use alkaidlab_fw.Jwt.Url.{base64url_encode}
use alkaidlab_fw.Jwt.Claims.{get_exp, get_iat}

abbrev pub header_text : Bytes
header_text = codes "{\"alg\":\"HS256\",\"typ\":\"JWT\"}"

unfoldable pub payload_text : ℕ → ℤ → Bytes
payload_text now expire =
    codes "{\"sub\":\"admin\",\"iat\":"
    ++ (decimal now ++ (codes ",\"exp\":" ++ (decimal_ℤ (pos now +ℤ expire) ++ codes "}")))

-- The tests behind the signature's, in the source's order. `start` is `s_startTimeSeconds`.
unfoldable pub accepts_claims : ℕ → ℕ → Bool → Bytes → Bool
accepts_claims now start revoked token =
    if get_exp token == 0 || leb (get_exp token) now
    then false
    else if ltb 0 start && (ltb 0 (get_iat token) && ltb (get_iat token) start)
    then false
    else not revoked

module _ (hmac : Bytes → Bytes → Bytes) where
  unfoldable pub sign : ℕ → Bytes → ℤ → Bytes
  sign now secret expire =
      let input =
        base64url_encode header_text ++ (b'.' ∷ base64url_encode (payload_text now expire)) in
      input ++ (b'.' ∷ base64url_encode (hmac secret input))

  unfoldable pub accepts_signature : Bytes → Bytes → Bytes → Bool
  accepts_signature secret input signature =
      bytes_eq (base64url_encode (hmac secret input)) signature

  -- A token has two dots and no third.
  unfoldable pub verify : ℕ → ℕ → Bool → Bytes → Bytes → Bool
  verify now start revoked token secret = elim (split_at b'.' token) [
    | none ↦ false
    | some (header, rest) ↦ elim (split_at b'.' rest) [
      | none ↦ false
      | some (payload, signature) ↦ elim (split_at b'.' signature) [
        | some _ ↦ false
        | none ↦
            if accepts_signature secret (header ++ (b'.' ∷ payload)) signature
            then accepts_claims now start revoked token
            else false
      ]
    ]
  ]

unfoldable pub extract_bearer : Bytes → Bytes
extract_bearer header =
    if ltb 7 (length header) && starts_with (codes "Bearer ") header then drop 7 header else []
