-- ===== src/Jwt/Token/Sound.antt =====
-- What JwtUtil::verify has checked of a token that it accepts (src/JwtUtil.cpp).
use alkaidlab_fw.Base.{
  ℕ, ◌<◌, ◌≤◌, ◌≡◌, sym, ◌∙◌, ap, arith, Bytes, [], ◌∷◌, ◌++◌, none, some, Bool, true, false,
  split_at, bytes_eq, bytes_eq_iff, inl, inr, Option-cases, Bool-cases, ◌==◌, if◌then◌else◌,
}
use alkaidlab_fw.Jwt.Url.{base64url_encode}
use alkaidlab_fw.Jwt.Claims.{get_exp, get_iat}
use alkaidlab_fw.Jwt.Token.Verified.{verify_parts}
use alkaidlab_fw.Jwt.Token.{verify, accepts_claims, accepts_signature}

-- The cut text is what stood before the character, the character, and the rest.
split_at_sound : (c : ℕ) (s h r : Bytes) → split_at c s ≡ some (h, r) → s ≡ h ++ (c ∷ r)
split_at_sound c [] h r e = cc
split_at_sound c (x ∷ s) h r e = elim (Bool-cases (x == c)) [
  | inl hit ↦ ground arith
  | inr miss ↦ elim (Option-cases (split_at c s)) [
    | inl failed ↦ ground arith
    | inr (p, found) ↦ ground (arith, split_at_sound c s p.0 p.1 found)
  ]
]

pub record IsAccepted (hmac : Bytes → Bytes → Bytes) (now start : ℕ) (revoked : Bool)
    (token secret : Bytes) (header payload signature : Bytes) : Type 0 where
  pub parts : token ≡ header ++ (b'.' ∷ payload ++ (b'.' ∷ signature))
  pub no_third_dot : split_at b'.' signature ≡ none
  pub signed : signature ≡ base64url_encode (hmac secret (header ++ (b'.' ∷ payload)))
  pub unexpired : now < get_exp token
  pub not_before_start : 0 < start → 0 < get_iat token → start ≤ get_iat token
  pub not_revoked : revoked ≡ false

claims_sound :
    (now start : ℕ) (revoked : Bool) (token : Bytes)
    → accepts_claims now start revoked token ≡ true
    → (now < get_exp token)
      × (0 < start → 0 < get_iat token → start ≤ get_iat token)
      × (revoked ≡ false)
unfolding accepts_claims
claims_sound now start revoked token h = (ground arith, (λ p q. ground arith), ground arith)

abbrev pub Accepted :
    (hmac : Bytes → Bytes → Bytes) (now start : ℕ) (revoked : Bool) (token secret : Bytes) → Type 0
Accepted hmac now start revoked token secret =
    (header : Bytes) × (payload : Bytes) × (signature : Bytes) × IsAccepted hmac now start revoked
      token secret header payload signature

module _ (hmac : Bytes → Bytes → Bytes) (now start : ℕ) (revoked : Bool)
    (token secret : Bytes) where
  signed_sound :
      (header rest payload signature : Bytes)
      → split_at b'.' token ≡ some (header, rest)
      → split_at b'.' rest ≡ some (payload, signature)
      → split_at b'.' signature ≡ none
      → (if accepts_signature hmac secret (header ++ (b'.' ∷ payload)) signature
          then accepts_claims now start revoked token
          else false)
        ≡ true
      → Accepted hmac now start revoked token secret
  unfolding accepts_signature
  signed_sound header rest payload signature p q r h =
      elim (Bool-cases
        (bytes_eq (base64url_encode (hmac secret (header ++ (b'.' ∷ payload)))) signature)) [
          | inr differs ↦ ground arith
          | inl same ↦
              let claims = claims_sound now start revoked token (rw same at h) in
              (
                header,
                payload,
                signature,
                record {
                  parts =
                      split_at_sound b'.' token header rest p
                      ∙ ap (λ t. header ++ (b'.' ∷ t))
                          (split_at_sound b'.' rest payload signature q);
                  no_third_dot = r;
                  signed = sym ((bytes_eq_iff _ _).0 same);
                  unexpired = claims.0;
                  not_before_start = claims.1;
                  not_revoked = claims.2;
                },
              )
        ]

  -- A token that verify accepts consists of three parts without a third dot, its last part is the
  -- encoded HMAC of the first two under the secret, its expiry lies ahead, it is not revoked, and
  -- where a start time is set and the token states when it was issued, that is not earlier.
  pub verify_sound :
      verify hmac now start revoked token secret ≡ true
      → Accepted hmac now start revoked token secret
  unfolding verify
  verify_sound h = elim (Option-cases (split_at b'.' token)) [
    | inl p ↦ absurd (ground (arith, rw (p, verify) at h))
    | inr ((header, rest), p) ↦ elim (Option-cases (split_at b'.' rest)) [
      | inl q ↦ absurd (ground arith)
      | inr ((payload, signature), q) ↦ elim (Option-cases (split_at b'.' signature)) [
        | inr (cut, r) ↦ absurd (ground arith)
        | inl r ↦ signed_sound header rest payload signature p q r (
            sym
              (verify_parts hmac now start revoked token secret header rest payload signature p q r)
            ∙ h)
      ]
    ]
  ]
