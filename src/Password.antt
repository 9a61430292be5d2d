-- ===== src/Password.antt =====
-- src/PasswordUtil.cpp, as built with HAVE_OPENSSL_CRYPTO. OpenSSL's RAND_bytes gives the salt, or
-- `none` for its failure; PKCS5_PBKDF2_HMAC with SHA-256 is a function of the password, the salt,
-- the number of iterations and the length wanted, `none` for its failure.
pub mod Verify
mod Tests
use Prim.Native.Nat.{bit_or, bit_xor}
use alkaidlab_fw.Base.{
  ℕ, ◌+◌, ◌^◌, Bytes, codes, List, [], ◌∷◌, ◌++◌, Option, none, some, Bool, true, false, not, ◌&&◌,
  ◌||◌, ltb, leb, ◌==◌, if◌then◌else◌, split_at, starts_with, length, drop, ◌>>=◌, or_else,
}
use alkaidlab_fw.Base.Decimal.{decimal, is_digit, value_from}
use alkaidlab_fw.Base.Stoi.{stoi}
use alkaidlab_fw.Base64.{base64_encode, base64_decode}
use alkaidlab_fw.Base.Int.{ℤ, pos, negsuc, sub_ℕ, ltb_ℤ}

abbrev pub default_iterations : ℕ
default_iterations = 310000

abbrev pub salt_bytes : ℕ
salt_bytes = 32

abbrev pub hash_bytes : ℕ
hash_bytes = 32

abbrev pub prefix : Bytes
prefix = codes "$pbkdf2-sha256$"

abbrev pub Pbkdf2 : Type 0
Pbkdf2 = Bytes → Bytes → ℕ → ℕ → Option Bytes

-- `PasswordUtil::hash`; the empty text is its failure.
unfoldable pub hash : Pbkdf2 → Option Bytes → Bytes → Bytes
hash pbkdf2 random password =
    or_else
      (do
        salt ← random
        derived ← pbkdf2 password salt default_iterations hash_bytes
        some (
            prefix
            ++ (decimal default_iterations
                ++ (b'$' ∷ base64_encode salt ++ (b'$' ∷ base64_encode derived)))))
      []

-- `PasswordUtil::isHashed`
unfoldable pub is_hashed : Bytes → Bool
is_hashed s = ltb 15 (length s) && starts_with prefix s

-- The comparison loop: `diff |= derived[i] ^ expected[i]`.
unfoldable pub diff_from : ℕ → Bytes → Bytes → ℕ
diff_from diff (d ∷ derived) (e ∷ expected) = diff_from (bit_or diff (bit_xor d e)) derived expected
diff_from diff _ _ = diff

-- The tests behind the decoded fields. The derived vector has `length expected` bytes.
unfoldable pub matches : Pbkdf2 → Bytes → ℤ → Bytes → Bytes → Bool
matches pbkdf2 password (negsuc _) salt expected = false
matches pbkdf2 password (pos iterations) salt expected =
    if iterations == 0 || length salt == 0 || length expected == 0
    then false
    else elim (pbkdf2 password salt iterations (length expected)) [
      | none ↦ false
      | some derived ↦ diff_from 0 derived expected == 0
    ]

-- `PasswordUtil::verify`
unfoldable pub verify : Pbkdf2 → Bytes → Bytes → Bool
verify pbkdf2 password encoded =
    if not (is_hashed encoded)
    then false
    else or_else
        (do
          (iterations_text, fields) ← split_at b'$' (drop 15 encoded)
          (salt_text, hash_text) ← split_at b'$' fields
          iterations ← stoi iterations_text
          some (
              matches pbkdf2 password iterations (base64_decode salt_text)
                (base64_decode hash_text)))
        false
