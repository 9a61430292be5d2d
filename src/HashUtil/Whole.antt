-- ===== src/HashUtil/Whole.antt =====
-- The loop over the blocks hashes the whole file (src/HashUtil.cpp).
use alkaidlab_fw.Base.{
  take-drop, ℕ, zero, suc, ◌+◌, ◌<◌, ◌≡◌, refl, sym, arith, ap, ◌∙◌, [], ◌∷◌, ◌++◌, Option, none,
  some, true, false, ◌==◌, if_both, ◌>>=◌, or_else, Bytes, length, take, drop,
}
use alkaidlab_fw.HashUtil.{buf_size, to_hex, Digest, hash_loop, file_hex}

-- What OpenSSL documents of EVP_DigestUpdate: it may be called many times to hash more data, so
-- that two calls hash what one call hashes on both texts; with no data it changes nothing.
pub record IsStream {C : Type 0} (digest : Digest C) : Type 0 where
  pub joins :
      (s t : Bytes) (ctx : C)
      → (digest.update s ctx >>= λ next. digest.update t next) ≡ digest.update (s ++ t) ctx
  pub skips : (ctx : C) → digest.update [] ctx ≡ some ctx

take_short : (n : ℕ) (u : Bytes) → (length (take n u) == n) ≡ false → take n u ≡ u
take_short zero u short = absurd cc
take_short (suc n) [] short = refl
take_short (suc n) (x ∷ u) short =
    ap (λ (t : Bytes). x ∷ t) (take_short n u (less (length (take n u)) n short))
  where
    less : (a b : ℕ) → (suc a == suc b) ≡ false → (a == b) ≡ false
    less a b h = ground (arith, h)

rest_length :
    (n : ℕ) (u : Bytes) → (length (take n u) == n) ≡ true → length (drop n u) + n ≡ length u
rest_length zero u whole = omega arith
rest_length (suc n) [] whole = absurd (ground (arith, whole))
rest_length (suc n) (x ∷ u) whole =
    step (length (drop n u)) (length u) (rest_length n u (less (length (take n u)) n whole))
  where
    less : (a b : ℕ) → (suc a == suc b) ≡ true → (a == b) ≡ true
    less a b h = ground (arith, h)

    step : (d l : ℕ) → d + n ≡ l → d + suc n ≡ suc l
    step d l h = omega (arith, h)

empty_of_length : (u : Bytes) → (length u == 0) ≡ true → u ≡ []
empty_of_length [] none_left = refl
empty_of_length (x ∷ u) none_left = absurd (ground (arith, none_left))

>>=-ap :
    {A B : Type 0} (o : Option A) (f g : A → Option B)
    → ((a : A) → f a ≡ g a)
    → (o >>= f) ≡ (o >>= g)
>>=-ap none f g same = refl
>>=-ap (some a) f g same = same a

module _ {C : Type 0} (digest : Digest C) (stream : IsStream digest) where
  hash_loop_lem :
      (fuel : ℕ) (u : Bytes) (ctx : C)
      → length u < fuel
      → hash_loop digest fuel u ctx ≡ digest.update u ctx
  unfolding hash_loop
  hash_loop_lem zero u ctx enough = absurd (omega arith)
  hash_loop_lem (suc fuel) u ctx enough =
      if_both P (length (take buf_size u) == buf_size)
        (λ whole.
          >>=-ap (digest.update (take buf_size u) ctx) (hash_loop digest fuel (drop buf_size u))
            (λ next. digest.update (drop buf_size u) next)
            (λ next.
              hash_loop_lem fuel (drop buf_size u) next (
                smaller (length (drop buf_size u)) (length u) (rest_length buf_size u whole)
                  enough))
          ∙ stream.joins (take buf_size u) (drop buf_size u) ctx
          ∙ ap (λ t. digest.update t ctx) (take-drop buf_size u))
        (λ short.
          if_both P (length (take buf_size u) == 0)
            (λ none_left.
              sym (stream.skips ctx)
              ∙ ap (λ t. digest.update t ctx)
                  (sym (empty_of_length (take buf_size u) none_left) ∙ take_short buf_size u short))
            (λ _. ap (λ t. digest.update t ctx) (take_short buf_size u short)))
    where
      P : Option C → Type 0
      P o = o ≡ digest.update u ctx

      smaller : (d l : ℕ) → d + buf_size ≡ l → l < suc fuel → d < fuel
      smaller d l h e = omega (arith, h, e)

  -- If the digest's `update` hashes two texts as it hashes their join, the loop over blocks of
  -- 65536 bytes comes to its end on every file, and the text is the hexadecimal digest of the
  -- file's bytes hashed at once, or empty where a call of the digest fails.
  pub file_hex_lem :
      (bytes : Bytes)
      → file_hex digest (some bytes)
        ≡ or_else
            (digest.init >>= λ ctx.
              digest.update bytes ctx >>= λ done. digest.final done >>= λ md. some (to_hex md))
            []
  unfolding file_hex
  file_hex_lem bytes = go digest.init
    where
      out : Option Bytes → Bytes
      out o = or_else (o >>= λ md. some (to_hex md)) []

      assoc :
          (o : Option C)
          → out (o >>= digest.final)
            ≡ or_else (o >>= λ done. digest.final done >>= λ md. some (to_hex md)) []
      assoc none = refl
      assoc (some c) = refl

      go :
          (o : Option C)
          → out (o >>= λ ctx. hash_loop digest (suc (length bytes)) bytes ctx >>= digest.final)
            ≡ or_else
                (o >>= λ ctx.
                  digest.update bytes ctx >>= λ done. digest.final done >>= λ md. some (to_hex md))
                []
      go none = refl
      go (some ctx) =
          ap (λ o. out (o >>= digest.final))
            (hash_loop_lem (suc (length bytes)) bytes ctx (omega arith))
          ∙ assoc (digest.update bytes ctx)
