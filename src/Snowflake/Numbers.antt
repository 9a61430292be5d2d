-- ===== src/Snowflake/Numbers.antt =====
-- The two numbers of the generator that `IdUtil::generateSnowflakeId` makes (src/IdUtil.cpp). The
-- host's name, its hardware address and the thread's text are arguments.
use alkaidlab_fw.Base.{
  sym, subst, ℕ, zero, suc, ◌+◌, ◌-◌, ◌*◌, ◌%◌, ◌^◌, ◌≤◌, ◌<◌, ◌≡◌, ◌≢◌, inl, inr, ◌↔◌, refl, arith,
  ap, ◌∙◌, [], ◌∷◌, Option, none, some, false, ltb, if◌then◌else◌, if_true, if_false, Bytes,
  Bool-cases,
}
use alkaidlab_fw.Base.Int.{ℤ, pos, negsuc}
use alkaidlab_fw.Snowflake.{Generator, generator}

-- `static_cast<size_t>` of a `char`, which is signed.
abbrev pub size_of_char : ℕ → ℕ
size_of_char c = if ltb c 128 then c else 2 ^ 64 - 256 + c

-- `hash = hash * base + c`, modulo 2^64.
unfoldable pub mix_name : ℕ → Bytes → ℕ
mix_name hash [] = hash
mix_name hash (c ∷ name) = mix_name ((hash * 31 + size_of_char c) % 2 ^ 64) name

unfoldable pub mix_address : ℕ → Bytes → ℕ
mix_address hash [] = hash
mix_address hash (c ∷ address) = mix_address ((hash * 256 + c) % 2 ^ 64) address

-- `static_cast<int64_t>` of a word.
unfoldable pub to_signed : ℕ → ℤ
to_signed n = if ltb n (2 ^ 63) then pos n else negsuc (2 ^ 64 - 1 - n)

-- `% 32`, whose result has the sign of the dividend.
unfoldable pub rem_32 : ℤ → ℤ
rem_32 (pos n) = pos (n % 32)
rem_32 (negsuc n) = elim (suc n % 32) [ zero ↦ pos 0 | suc r ↦ negsuc r ]

abbrev pub address_or : ℕ → Option Bytes → ℕ
address_or hash none = hash
address_or hash (some address) = mix_address hash address

unfoldable pub get_host_mac_hash : Bytes → Option Bytes → ℤ
get_host_mac_hash hostname address = to_signed (address_or (mix_name 0 hostname) address)

-- A number that was set with `initSnowflake`, where it is not negative, or else the other.
unfoldable pub custom_or : ℤ → ℤ → ℤ
custom_or (pos n) other = pos (n % 32)
custom_or (negsuc n) other = other

unfoldable pub worker_number : Bytes → ℤ
worker_number thread = pos (mix_name 0 thread % 32)

-- The generator of a thread's first call; `none` is the exception of its constructor.
unfoldable pub thread_generator : ℤ → ℤ → Bytes → Option Bytes → Bytes → Option Generator
thread_generator datacenter worker hostname address thread =
    generator (custom_or datacenter (rem_32 (get_host_mac_hash hostname address)))
      (custom_or worker (worker_number thread))

small : (n : ℕ) → ltb 31 (n % 32) ≡ false
small n = ground arith

-- A worker's number is always one that the constructor takes.
custom_worker :
    (worker : ℤ) (thread : Bytes)
    → (w : ℕ) × (custom_or worker (worker_number thread) ≡ pos (w % 32))
unfolding custom_or worker_number
custom_worker (pos n) thread = (n, refl)
custom_worker (negsuc n) thread = (mix_name 0 thread, refl)

abbrev Made : Option Generator → Type 0
Made none = ⊥
Made (some g) = Unit

generator_small : (d w : ℕ) → Made (generator (pos (d % 32)) (pos (w % 32)))
unfolding generator
generator_small d w = subst Made (sym (if_false _ _ (small d) ∙ if_false _ _ (small w))) tt

generator_negative : (r : ℕ) (worker : ℤ) → generator (negsuc r) worker ≡ none
unfolding generator
generator_negative r worker = refl

mix_name_bound : (hash : ℕ) (name : Bytes) → hash < 2 ^ 64 → mix_name hash name < 2 ^ 64
unfolding mix_name
mix_name_bound hash [] low = low
mix_name_bound hash (c ∷ name) low =
    mix_name_bound ((hash * 31 + size_of_char c) % 2 ^ 64) name (wraps (hash * 31 + size_of_char c))
  where
    wraps : (m : ℕ) → m % 2 ^ 64 < 2 ^ 64
    wraps m = omega arith

mix_address_bound : (hash : ℕ) (name : Bytes) → hash < 2 ^ 64 → mix_address hash name < 2 ^ 64
unfolding mix_address
mix_address_bound hash [] low = low
mix_address_bound hash (c ∷ name) low =
    mix_address_bound ((hash * 256 + c) % 2 ^ 64) name (wraps (hash * 256 + c))
  where
    wraps : (m : ℕ) → m % 2 ^ 64 < 2 ^ 64
    wraps m = omega arith

address_or_bound :
    (name : Bytes) (address : Option Bytes) → address_or (mix_name 0 name) address < 2 ^ 64
address_or_bound name none = mix_name_bound 0 name (omega arith)
address_or_bound name (some address) =
    mix_address_bound (mix_name 0 name) address (mix_name_bound 0 name (omega arith))

not_made : (d w : ℕ) → generator (pos (d % 32)) (pos (w % 32)) ≢ none
not_made d w none_made = subst Made none_made (generator_small d w)

-- The remainder of a negative number.
negative_rem : (m w : ℕ) → (generator (rem_32 (negsuc m)) (pos (w % 32)) ≡ none) ↔ (suc m % 32 ≢ 0)
unfolding rem_32
negative_rem m w = go (suc m % 32)
  where
    go :
        (r : ℕ)
        → (generator (elim r [ zero ↦ pos 0 | suc r ↦ negsuc r ]) (pos (w % 32)) ≡ none) ↔ (r ≢ 0)
    go zero = (λ none_made. absurd (not_made 0 w none_made), λ nonzero. absurd (nonzero refl))
    go (suc r) = (λ _ e. absurd (omega (arith, e)), λ _. generator_negative r _)

signed_iff :
    (n w : ℕ)
    → n < 2 ^ 64
    → (generator (rem_32 (to_signed n)) (pos (w % 32)) ≡ none)
      ↔ ((2 ^ 63 ≤ n) × ((2 ^ 64 - n) % 32 ≢ 0))
unfolding to_signed rem_32
signed_iff n w low = elim (Bool-cases (ltb n (2 ^ 63))) [
  | inl under ↦ (
    λ none_made. absurd (
        not_made n w
          (sym (ap (λ z. generator (rem_32 z) (pos (w % 32))) (if_true _ _ under)) ∙ none_made)),
    λ over. absurd (ground (arith, under, over.0)),
  )
  | inr over ↦
      let negative : to_signed n ≡ negsuc (2 ^ 64 - 1 - n) = if_false _ _ over in
      (
        λ none_made. (
          ground (arith, over),
          λ e.
              (negative_rem (2 ^ 64 - 1 - n) w).0
                (sym (ap (λ z. generator (rem_32 z) (pos (w % 32))) negative) ∙ none_made)
                (same n low ∙ e),
        ),
        λ large.
            ap (λ z. generator (rem_32 z) (pos (w % 32))) negative
            ∙ (negative_rem (2 ^ 64 - 1 - n) w).1 (λ e. large.1 (sym (same n low) ∙ e)),
      )
]
  where
    same : (n : ℕ) → n < 2 ^ 64 → suc (2 ^ 64 - 1 - n) % 32 ≡ (2 ^ 64 - n) % 32
    same n low = omega (arith, low)

-- Where no number of a data centre has been set, the generator of a thread cannot be made exactly
-- if the hash of the host's name and address is 2^63 or more, and no multiple of 32: then every
-- call of `generateSnowflakeId` throws. The worker's number plays no part.
pub thread_generator_iff :
    (unset : ℕ) (worker : ℤ) (hostname : Bytes) (address : Option Bytes) (thread : Bytes)
    → let hash = address_or (mix_name 0 hostname) address in
      (thread_generator (negsuc unset) worker hostname address thread ≡ none)
      ↔ ((2 ^ 63 ≤ hash) × ((2 ^ 64 - hash) % 32 ≢ 0))
unfolding thread_generator custom_or get_host_mac_hash
thread_generator_iff unset worker hostname address thread =
    let (w, taken) = custom_worker worker thread in
    subst
      (λ z.
        (generator (rem_32 (to_signed hash)) z ≡ none)
        ↔ ((2 ^ 63 ≤ hash) × ((2 ^ 64 - hash) % 32 ≢ 0)))
      (sym taken) (signed_iff hash w (address_or_bound hostname address))
  where
    hash : ℕ
    hash = address_or (mix_name 0 hostname) address
