-- ===== src/Jwt/Url.antt =====
-- JwtUtil::base64UrlEncode and JwtUtil::base64UrlDecode (src/JwtUtil.cpp). Their middle loops are
-- those of Base64.antt, text for text.
pub mod RoundTrip
use alkaidlab_fw.Base.{
  ℕ, zero, suc, ◌+◌, ◌*◌, ◌/◌, ◌%◌, ◌<◌, ◌≡◌, refl, ◌≢◌, arith, Bytes, List, [], ◌∷◌, ◌++◌, map,
  All, length, Bool, true, ◌&&◌, ◌||◌, not, ◌==◌, leb, if◌then◌else◌, ap, ◌∙◌, holds_below,
  holds_below_at,
}
use alkaidlab_fw.Base64.{base64_encode, base64_decode}
use alkaidlab_fw.Base64.Symbols.{symbol, symbol-IsBase64Char}
use alkaidlab_fw.Base64.RoundTrip.{IsByte, encode_one, encode_two, encode_three, decode-encode}

abbrev pub url_char : ℕ → ℕ
url_char c = if c == b'+' then b'-' else if c == b'/' then b'_' else c

abbrev pub plain_char : ℕ → ℕ
plain_char c = if c == b'-' then b'+' else if c == b'_' then b'/' else c

-- `while (!result.empty() && result.back() == '=') result.pop_back();`
abbrev keep_before : ℕ → Bytes → Bytes
keep_before c [] = if c == b'=' then [] else c ∷ []
keep_before c (d ∷ s) = c ∷ d ∷ s

unfoldable pub strip_pad : Bytes → Bytes
strip_pad [] = []
strip_pad (c ∷ s) = keep_before c (strip_pad s)

-- `while (data.size() % 4 != 0) data += '=';` with fuel for the rounds: three always suffice.
unfoldable pub pad : ℕ → Bytes → Bytes
pad zero s = s
pad (suc fuel) s = let more = pad fuel (s ++ b'=' ∷ []) in if length s % 4 == 0 then s else more

unfoldable pub base64url_encode : Bytes → Bytes
base64url_encode bytes = strip_pad (map url_char (base64_encode bytes))

unfoldable pub base64url_decode : Bytes → Bytes
base64url_decode input = base64_decode (pad 3 (map plain_char input))
