-- ===== src/HashUtil/Match.antt =====
-- The comparison of digests (src/HashUtil.cpp, `verify`).
use alkaidlab_fw.Base.{
  ℕ, suc, ◌≡◌, ◌⊎◌, inl, inr, ◌↔◌, refl, sym, arith, ap, ◌∙◌, [], ◌∷◌, Option, Bool, true, false,
  not, ◌&&◌, ◌==◌, if◌then◌else◌, Bytes, bytes_eq, bytes_eq_iff, length, lower, to_lower,
  Bool-cases,
}
use alkaidlab_fw.HashUtil.{Digest, file_hex, same_letters, accepts_hex, verify}

regroup : (x e s : Bool) → (x && (e && s)) ≡ (e && (if not x then false else s))
regroup true e s = refl
regroup false true s = refl
regroup false false s = refl

==-suc : (m n : ℕ) → (suc m == suc n) ≡ (m == n)
==-suc m n = elim (Bool-cases (m == n)) [ inl e ↦ ground (arith, e) | inr e ↦ ground (arith, e) ]

same_letters_lem :
    (a b : Bytes) → bytes_eq (lower a) (lower b) ≡ ((length a == length b) && same_letters a b)
unfolding lower same_letters
same_letters_lem [] [] = refl
same_letters_lem [] (d ∷ b) = ap (λ t. t && true) (sym (zero_suc (length b)))
  where
    zero_suc : (n : ℕ) → (0 == suc n) ≡ false
    zero_suc n = ground arith
same_letters_lem (c ∷ a) [] = ap (λ t. t && false) (sym (suc_zero (length a)))
  where
    suc_zero : (n : ℕ) → (suc n == 0) ≡ false
    suc_zero n = ground arith
same_letters_lem (c ∷ a) (d ∷ b) =
    ap (λ t. (to_lower c == to_lower d) && t) (same_letters_lem a b)
    ∙ regroup (to_lower c == to_lower d) (length a == length b) (same_letters a b)
    ∙ ap (λ t. t && same_letters (c ∷ a) (d ∷ b)) (sym (==-suc (length a) (length b)))

-- The digest is the expected one but for the case of letters, or nothing is expected.
abbrev pub Fits : Bytes → Bytes → Type 0
Fits expected actual = (expected ≡ []) ⊎ (lower actual ≡ lower expected)

both : {x y : Bool} → x ≡ true → y ≡ true → (x && y) ≡ true
both {x = true} p q = q
both {x = false} p q = absurd cc

both_of : (x y : Bool) → (x && y) ≡ true → (x ≡ true) × (y ≡ true)
both_of true y h = (refl, h)
both_of false y h = absurd cc

accepts_hex_lem :
    (d : ℕ) (expected actual : Bytes)
    → accepts_hex (d ∷ expected) actual ≡ bytes_eq (lower actual) (lower (d ∷ expected))
unfolding accepts_hex lower
accepts_hex_lem d expected [] = nothing (length expected)
  where
    nothing : (m : ℕ) → (if suc m == 0 then true else false) ≡ false
    nothing m = ground arith
accepts_hex_lem d expected (c ∷ actual) =
    nonempty (length expected) (length actual) (same_letters (c ∷ actual) (d ∷ expected))
    ∙ sym (same_letters_lem (c ∷ actual) (d ∷ expected))
  where
    nonempty :
        (m n : ℕ) (s : Bool)
        → (if suc m == 0
            then true
            else if suc n == 0
            then false
            else if not (suc n == suc m)
            then false
            else s)
          ≡ ((suc n == suc m) && s)
    nonempty m n s = ground arith

accepts_hex_iff :
    (expected actual : Bytes) → (accepts_hex expected actual ≡ true) ↔ Fits expected actual
unfolding accepts_hex
accepts_hex_iff [] actual = (λ _. inl refl, λ _. refl)
accepts_hex_iff (d ∷ expected) actual = (
  λ ok. inr ((bytes_eq_iff _ _).0 (sym (accepts_hex_lem d expected actual) ∙ ok)),
  elim [
    | inl none_expected ↦ absurd cc
    | inr same ↦ accepts_hex_lem d expected actual ∙ (bytes_eq_iff _ _).1 same
  ],
)

-- `verify` accepts a file exactly if each expected digest that is not empty is the file's
-- hexadecimal digest up to the case of letters.
pub verify_iff :
    {C D : Type 0} (md5 : Digest C) (sha256 : Digest D) (file : Option Bytes)
    (expected_md5 expected_sha256 : Bytes)
    → (verify md5 sha256 file expected_md5 expected_sha256 ≡ true)
      ↔ (Fits expected_md5 (file_hex md5 file) × Fits expected_sha256 (file_hex sha256 file))
unfolding verify
verify_iff md5 sha256 file expected_md5 expected_sha256 = (
  λ ok.
      let parts = both_of first second (sym as_and ∙ ok) in
      ((accepts_hex_iff _ _).0 parts.0, (accepts_hex_iff _ _).0 parts.1),
  λ fits. as_and ∙ both ((accepts_hex_iff _ _).1 fits.0) ((accepts_hex_iff _ _).1 fits.1),
)
  where
    first : Bool
    first = accepts_hex expected_md5 (file_hex md5 file)

    second : Bool
    second = accepts_hex expected_sha256 (file_hex sha256 file)

    as_and : (if not first then false else second) ≡ (first && second)
    as_and = if_not first second
      where
        if_not : (x y : Bool) → (if not x then false else y) ≡ (x && y)
        if_not true y = refl
        if_not false y = refl
