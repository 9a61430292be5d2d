-- ===== src/Jwt/Claims.antt =====
-- JwtUtil::getExp and JwtUtil::getIat (src/JwtUtil.cpp): a claim is read from the token's payload
-- by text search, and 0 stands for every failure.
use alkaidlab_fw.Base.{
  ℕ, ◌^◌, Bytes, codes, [], ◌∷◌, Option, some, ◌||◌, ltb, ◌==◌, if◌then◌else◌, find_text, split_at,
  ◌>>=◌, or_else,
}
use alkaidlab_fw.Base.Decimal.{is_digit, value_from}
use alkaidlab_fw.Jwt.Url.{base64url_decode}

-- The loop over spaces and tabs.
abbrev pub drop_blanks : Bytes → Bytes
drop_blanks [] = []
drop_blanks (c ∷ s) = if c == b' ' || c == b'\t' then drop_blanks s else c ∷ s

-- The text up to `find_first_not_of("0123456789")`.
abbrev pub take_digits : Bytes → Bytes
take_digits [] = []
take_digits (c ∷ s) = if is_digit c then c ∷ take_digits s else []

-- `std::stoll` on digits alone; no digits and a value past INT64_MAX are exceptions, caught as 0.
unfoldable pub stoll_or_zero : Bytes → ℕ
stoll_or_zero [] = 0
stoll_or_zero (c ∷ s) = let n = value_from 0 (c ∷ s) in if ltb n (2 ^ 63) then n else 0

-- The part between the first and the second dot.
unfoldable pub payload_part : Bytes → Option Bytes
payload_part token = do
  (header, rest) ← split_at b'.' token
  (payload, signature) ← split_at b'.' rest
  some payload

-- The text search for a claim's number, from the decoded payload.
unfoldable pub claim_in : Bytes → Bytes → Option ℕ
claim_in key json = do
  from ← find_text key json
  (_, behind) ← split_at b':' from
  some (stoll_or_zero (take_digits (drop_blanks behind)))

abbrev pub exp_key : Bytes
exp_key = codes "\"exp\""

abbrev pub iat_key : Bytes
iat_key = codes "\"iat\""

unfoldable pub get_exp : Bytes → ℕ
unfolding payload_part
get_exp token =
    or_else (do payload ← payload_part token; claim_in exp_key (base64url_decode payload)) 0

unfoldable pub get_iat : Bytes → ℕ
unfolding payload_part
get_iat token =
    or_else (do payload ← payload_part token; claim_in iat_key (base64url_decode payload)) 0
