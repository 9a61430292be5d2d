-- ===== src/Password/Tests.antt =====
-- Stored passwords at concrete values.
use alkaidlab_fw.Base.{
  ◌≡◌, refl, arith, Bytes, codes, [], ◌∷◌, none, some, replicate, bytes_eq, ◌%◌,
}
use alkaidlab_fw.Base.Int.{negsuc}
use alkaidlab_fw.Base.Stoi.{stoi}
use alkaidlab_fw.Password.{Pbkdf2, hash, verify}
use alkaidlab_fw.Password.Verify.{verify-hash}

-- A stand-in for PBKDF2 that keeps the first character of the password.
abbrev toy_pbkdf2 : Pbkdf2
toy_pbkdf2 [] salt iterations size = some (replicate size 0)
toy_pbkdf2 (c ∷ password) salt iterations size = some (replicate size (c % 256))

abbrev salt : Bytes
salt = 1 ∷ 2 ∷ 3 ∷ []

stoi_runs :
    (stoi (codes " -12x") ≡ some (negsuc 11))
    × (stoi (codes "2147483648") ≡ none)
    × (stoi [] ≡ none)
unfolding stoi
stoi_runs = (refl, refl, refl)

verify-hash_example :
    verify toy_pbkdf2 (codes "bob") (hash toy_pbkdf2 (some salt) (codes "alice"))
    ≡ bytes_eq (replicate 32 98) (replicate 32 97)
verify-hash_example =
    verify-hash toy_pbkdf2 (codes "alice") salt (replicate 32 97) (omega arith) (omega arith)
      (omega arith) refl (codes "bob") (replicate 32 98) refl refl refl
