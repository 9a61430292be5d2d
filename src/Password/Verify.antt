-- ===== src/Password/Verify.antt =====
-- PasswordUtil::verify against PasswordUtil::hash (src/PasswordUtil.cpp).
use Prim.Native.Nat.{bit_or, bit_xor}
use alkaidlab_fw.Base.{
  ℕ, ◌≡◌, refl, ◌≢◌, arith, Bytes, codes, [], ◌∷◌, ◌++◌, some, true, ◌==◌, split_at,
  split_at-append, length, bytes_eq, All, bytes_eq_iff, Bool-cases, inl, inr, subst,
}
use alkaidlab_fw.Base.Int.{pos}
use alkaidlab_fw.Base.Bits.{zero-bit_or}
use alkaidlab_fw.Base.Xor.{eq_of_bit_xor, bit_xor_self, zero_of_bit_or}
use alkaidlab_fw.Base.Decimal.{decimal}
use alkaidlab_fw.Base64.{base64_encode}
use alkaidlab_fw.Base64.RoundTrip.{IsByte, decode-encode, encode-no_dollar}
use alkaidlab_fw.Base.Stoi.{stoi}
use alkaidlab_fw.Password.{
  Pbkdf2, default_iterations, hash_bytes, prefix, hash, is_hashed, diff_from, matches, verify,
}

diff_from-zero :
    (acc : ℕ) (ds es : Bytes)
    → length ds ≡ length es
    → diff_from acc ds es ≡ 0
    → (acc ≡ 0) × (ds ≡ es)
unfolding diff_from
diff_from-zero acc [] [] l h = (h, refl)
diff_from-zero acc [] (e ∷ es) l h = absurd (omega arith)
diff_from-zero acc (d ∷ ds) [] l h = absurd (omega arith)
diff_from-zero acc (d ∷ ds) (e ∷ es) l h =
    let rest = diff_from-zero (bit_or acc (bit_xor d e)) ds es (omega arith) h in
    let parts = zero_of_bit_or acc (bit_xor d e) rest.0 in
    (parts.0, cc (eq_of_bit_xor d e parts.1, rest.1))

diff_from_self : (ds : Bytes) → diff_from 0 ds ds ≡ 0
unfolding diff_from
diff_from_self [] = refl
diff_from_self (d ∷ ds) = rw (bit_xor_self d) (rw (zero-bit_or 0) (diff_from_self ds))

-- The loop without early exit compares byte strings of one length.
pub diff_from-eq-bytes_eq :
    (ds es : Bytes) → length ds ≡ length es → (diff_from 0 ds es == 0) ≡ bytes_eq ds es
diff_from-eq-bytes_eq ds es l = elim (Bool-cases (bytes_eq ds es)) [
  | inl e ↦
      let zero_diff =
        subst (λ t. diff_from 0 ds t ≡ 0) ((bytes_eq_iff ds es).0 e) (diff_from_self ds) in
      ground arith
  | inr n ↦ elim (Bool-cases (diff_from 0 ds es == 0)) [
    | inl z ↦
        let same = (diff_from-zero 0 ds es l (ground arith)).1 in
        absurd (ground (arith, (bytes_eq_iff ds es).1 same))
    | inr z ↦ rw (z, n)
  ]
]

iterations_text : decimal default_iterations ≡ codes "310000"
unfolding decimal
iterations_text = refl

stoi-iterations : stoi (codes "310000") ≡ some (pos default_iterations)
unfolding stoi
stoi-iterations = refl

module _ (pbkdf2 : Pbkdf2) (password salt derived : Bytes) where
  abbrev stored : Bytes
  stored =
      prefix ++ (codes "310000" ++ (b'$' ∷ base64_encode salt ++ (b'$' ∷ base64_encode derived)))

  hash-stored :
      pbkdf2 password salt default_iterations hash_bytes ≡ some derived
      → hash pbkdf2 (some salt) password ≡ stored
  unfolding hash
  hash-stored e = ground (arith, iterations_text)

  stored-is_hashed : is_hashed stored ≡ true
  unfolding is_hashed
  stored-is_hashed = ground arith

  module _ (salt-IsByte : All IsByte salt) (derived-IsByte : All IsByte derived)
      (salted : length salt ≢ 0) (derived_length : length derived ≡ hash_bytes) where
    cut_salt :
        split_at b'$' (base64_encode salt ++ (b'$' ∷ base64_encode derived))
        ≡ some (base64_encode salt, base64_encode derived)
    cut_salt = split_at-append b'$' (base64_encode salt) _ (encode-no_dollar salt salt-IsByte)

    matches-derived :
        (attempt other : Bytes)
        → pbkdf2 attempt salt default_iterations hash_bytes ≡ some other
        → length other ≡ hash_bytes
        → matches pbkdf2 attempt (pos default_iterations) salt derived ≡ bytes_eq other derived
    unfolding matches
    matches-derived attempt other e l =
        rw (derived_length) (rw (e) (ground (arith, diff_from-eq-bytes_eq other derived)))

    -- The text that hash stores for a password is accepted for an attempt exactly if PBKDF2 derives
    -- the same bytes from both. PBKDF2 gives 32 bytes for each, the salt is not empty.
    pub verify-hash :
        (attempt other : Bytes)
        → pbkdf2 password salt default_iterations hash_bytes ≡ some derived
        → pbkdf2 attempt salt default_iterations hash_bytes ≡ some other
        → length other ≡ hash_bytes
        → verify pbkdf2 attempt (hash pbkdf2 (some salt) password) ≡ bytes_eq other derived
    unfolding verify
    verify-hash attempt other p e l =
        rw
          (
            hash-stored p,
            stored-is_hashed,
            cut_salt,
            stoi-iterations,
            decode-encode salt salt-IsByte,
            decode-encode derived derived-IsByte,
          )
          (matches-derived attempt other e l)
