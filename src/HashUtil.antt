-- ===== src/HashUtil.antt =====
-- The digests of files (src/HashUtil.cpp, built with OpenSSL). A digest of OpenSSL is given by its
-- three calls, which return `none` where the C call fails.
pub mod Whole
pub mod Match
mod Tests
use alkaidlab_fw.Base.{
  ℕ, zero, suc, ◌+◌, ◌/◌, ◌%◌, List, [], ◌∷◌, ◌++◌, Option, none, some, Bool, true, false, not,
  ◌&&◌, ◌==◌, ltb, if◌then◌else◌, ◌>>=◌, or_else, Bytes, length, take, drop, to_lower,
}

abbrev pub buf_size : ℕ
buf_size = 65536

-- `"0123456789abcdef"[i]`
abbrev pub hex_digit : ℕ → ℕ
hex_digit i = if ltb i 10 then 48 + i else 87 + i

unfoldable pub to_hex : Bytes → Bytes
to_hex [] = []
to_hex (b ∷ bytes) = hex_digit (b / 16 % 16) ∷ hex_digit (b % 16) ∷ to_hex bytes

pub record Digest (C : Type 0) : Type 0 where
  pub init : Option C
  pub update : Bytes → C → Option C
  pub final : C → Option Bytes

module _ {C : Type 0} (digest : Digest C) where
  -- The loop over the blocks of a file, the fuel first. A block shorter than the buffer ends it; an
  -- empty one is not hashed.
  unfoldable pub hash_loop : ℕ → Bytes → C → Option C
  hash_loop zero unread ctx = some ctx
  hash_loop (suc fuel) unread ctx =
      let block = take buf_size unread in
      if length block == buf_size
      then (digest.update block ctx >>= hash_loop fuel (drop buf_size unread))
      else if length block == 0
      then some ctx
      else digest.update block ctx

  abbrev pub hash_bytes : Bytes → Option Bytes
  hash_bytes bytes =
      digest.init >>= λ ctx. hash_loop (suc (length bytes)) bytes ctx >>= digest.final

  -- `fileMD5Hex` and `fileSHA256Hex`; a file that does not open is `none`, and every failure is
  -- the empty text.
  unfoldable pub file_hex : Option Bytes → Bytes
  file_hex file = or_else (file >>= λ bytes. hash_bytes bytes >>= λ md. some (to_hex md)) []

unfoldable pub same_letters : Bytes → Bytes → Bool
same_letters [] expected = true
same_letters (a ∷ actual) [] = false
same_letters (a ∷ actual) (b ∷ expected) =
    let rest = same_letters actual expected in
    if not (to_lower a == to_lower b) then false else rest

-- One of the two comparisons of `verify`: with an empty expectation it is left out.
unfoldable pub accepts_hex : Bytes → Bytes → Bool
accepts_hex expected actual =
    if length expected == 0
    then true
    else if length actual == 0
    then false
    else if not (length actual == length expected)
    then false
    else same_letters actual expected

unfoldable pub verify : {C D : Type 0} → Digest C → Digest D → Option Bytes → Bytes → Bytes → Bool
verify md5 sha256 file expected_md5 expected_sha256 =
    if not (accepts_hex expected_md5 (file_hex md5 file))
    then false
    else accepts_hex expected_sha256 (file_hex sha256 file)
