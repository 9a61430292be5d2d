-- ===== src/Jwt/Tests.antt =====
-- Tokens and revocations at concrete values.
use alkaidlab_fw.Base.{
  ℕ, suc, ◌%◌, ◌<◌, ◌≤◌, ◌≡◌, refl, arith, Bytes, codes, [], ◌∷◌, true, false, All, inl, length,
}
use alkaidlab_fw.Base.Int.{pos}
use alkaidlab_fw.Base64.RoundTrip.{IsByte}
use alkaidlab_fw.Jwt.Url.{base64url_encode, base64url_decode, pad}
use alkaidlab_fw.Jwt.Url.RoundTrip.{url_decode-encode}
use alkaidlab_fw.Base64.{base64_decode, decode_char, decode_group}
use alkaidlab_fw.Jwt.Claims.{get_exp, get_iat, claim_in, stoll_or_zero}
use alkaidlab_fw.Jwt.Token.{sign, verify, extract_bearer}
use alkaidlab_fw.Jwt.Token.Verified.{claims-sign, verify-sign}
use alkaidlab_fw.Jwt.Token.Sound.{Accepted, verify_sound}
use alkaidlab_fw.Jwt.Blacklist.{
  Entry, Blacklist, is_revoked, revoke, less, insert, evict, sweep, oldest_from, erase,
}
use alkaidlab_fw.Jwt.Blacklist.Bounds.{In, revoke_lem}
use alkaidlab_fw.Jwt.Blacklist.Eviction.{revoke_keeps_later}

-- A stand-in for HMAC-SHA256: a function of both arguments into byte strings.
abbrev toy_hmac : Bytes → Bytes → Bytes
toy_hmac [] text = 7 ∷ []
toy_hmac (k ∷ key) text = (k % 256) ∷ 200 ∷ []

toy_hmac-IsByte : (key text : Bytes) → All IsByte (toy_hmac key text)
toy_hmac-IsByte [] text = omega arith
toy_hmac-IsByte (k ∷ key) text = omega arith

abbrev secret : Bytes
secret = codes "secret"

abbrev token : Bytes
token = sign toy_hmac 1000 secret (pos 60)

url_decode-encode_example :
    base64url_decode (base64url_encode (codes "{\"a\":1}")) ≡ codes "{\"a\":1}"
url_decode-encode_example = url_decode-encode (codes "{\"a\":1}") (omega arith)

claims-sign_run : (get_exp token ≡ 1060) × (get_iat token ≡ 1000)
claims-sign_run =
    claims-sign toy_hmac toy_hmac-IsByte 1000 secret (pos 60) 1060 refl (omega arith) (omega arith)

verify-sign_example :
    (1030 < 1060 → verify toy_hmac 1030 900 false token secret ≡ true)
    × (1060 ≤ 1030 → verify toy_hmac 1030 900 false token secret ≡ false)
verify-sign_example =
    verify-sign toy_hmac toy_hmac-IsByte 1000 1030 900 secret (pos 60) 1060 refl (omega arith)
      (omega arith) (omega arith)

token_accepted : verify toy_hmac 1030 900 false token secret ≡ true
token_accepted =
    (verify-sign toy_hmac toy_hmac-IsByte 1000 1030 900 secret (pos 60) 1060 refl (omega arith)
        (omega arith) (omega arith)).0
      (omega arith)

verify_sound_example : Accepted toy_hmac 1030 900 false token secret
verify_sound_example = verify_sound toy_hmac 1030 900 false token secret token_accepted

extract_bearer_runs : extract_bearer (codes "Bearer abc") ≡ codes "abc"
unfolding extract_bearer
extract_bearer_runs = refl

abbrev early : Entry
early = record { token = codes "a"; expire_at = 1100 }

abbrev late : Entry
late = record { token = codes "b"; expire_at = 1200 }

abbrev listed : Blacklist
listed = record {
  entries = early ∷ late ∷ [];
  max_entries = pos 3;
  has_callback = true;
  persisted = [];
}

revoke_lem_example :
    (is_revoked token (revoke 1000 token listed) ≡ true)
    × ((limit : ℕ)
        → listed.max_entries ≡ pos (suc limit)
        → length (revoke 1000 token listed).entries ≤ suc limit)
revoke_lem_example = revoke_lem 1000 token listed (omega (arith, claims-sign_run.0))

-- A token with the payload {"exp":2000}.
abbrev literal : Bytes
literal = codes "x.eyJleHAiOjIwMDB9.y"

literal-exp : get_exp literal ≡ 2000
unfolding get_exp base64url_decode pad base64_decode decode_char decode_group claim_in stoll_or_zero
literal-exp = refl

abbrev latest : Entry
latest = record { token = codes "c"; expire_at = 1300 }

abbrev full : Blacklist
full = record listed { entries = early ∷ late ∷ latest ∷ [] }

-- Room for one more is made by giving up the entry that expires at 1100.
full_run :
    (revoke 1000 literal full).entries
    ≡ late ∷ latest ∷ record { token = literal; expire_at = 2000 } ∷ []
unfolding revoke insert evict sweep oldest_from erase less
full_run = rw literal-exp

late-In : In late (revoke 1000 literal full).entries
late-In = rw full_run (inl refl)

revoke_keeps_later_example :
    (In late full.entries × (1000 < late.expire_at))
    × (In latest full.entries
        → 1000 < latest.expire_at
        → late.expire_at < latest.expire_at
        → In latest (revoke 1000 literal full).entries)
revoke_keeps_later_example =
    revoke_keeps_later 1000 literal full latest late (omega (arith, literal-exp)) late-In
      (λ e. ground arith)
