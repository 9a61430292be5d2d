-- ===== src/Jwt/Blacklist/Bounds.antt =====
-- What revoke and cleanup do to membership and to the number of entries (src/JwtUtil.cpp).
use alkaidlab_fw.Base.{
  ℕ, zero, suc, ◌≤◌, ◌<◌, ◌≡◌, refl, ◌≢◌, arith, Bytes, List, [], ◌∷◌, Bool, true, false, ◌==◌, ltb,
  if◌then◌else◌, bytes_eq_refl, bytes_eq_iff, length, Bool-cases, inl, inr, ap, ◌⊎◌, sym, ◌∙◌,
}
use alkaidlab_fw.Base.Int.{ℤ, pos}
use alkaidlab_fw.Jwt.Claims.{get_exp}
use alkaidlab_fw.Jwt.Blacklist.{
  Entry, less, Blacklist, insert, sweep, oldest_from, erase, is_full, evict, make_room, revoke,
  contains, is_revoked,
}

less-connected : (s t : Bytes) → less s t ≡ false → less t s ≡ false → s ≡ t
unfolding less
less-connected [] [] p q = refl
less-connected [] (b ∷ t) p q = cc
less-connected (a ∷ s) [] p q = cc
less-connected (a ∷ s) (b ∷ t) p q = ground (arith, less-connected s t)

pub contains-insert : (e : Entry) (es : List Entry) → contains e.token (insert e es) ≡ true
unfolding contains insert
contains-insert e [] = ground (arith, bytes_eq_refl e.token)
contains-insert e (x ∷ xs) = ground (
  arith,
  bytes_eq_refl e.token,
  bytes_eq_iff x.token e.token,
  contains-insert e xs,
  less-connected e.token x.token,
)

-- Inserting leaves the membership of every other token as it was.
pub contains-insert_ne :
    (t : Bytes) (e : Entry) (es : List Entry)
    → e.token ≢ t
    → contains t (insert e es) ≡ contains t es
unfolding contains insert
contains-insert_ne t e [] h = ground (arith, bytes_eq_iff e.token t)
contains-insert_ne t e (x ∷ xs) h =
    ground (arith, bytes_eq_iff e.token t, contains-insert_ne t e xs h)

length-insert : (e : Entry) (es : List Entry) → length (insert e es) ≤ suc (length es)
unfolding insert
length-insert e [] = omega arith
length-insert e (x ∷ xs) = ground (arith, length-insert e xs)

-- Membership of an entry, in the set's order.
abbrev pub In : Entry → List Entry → Type 0
In e [] = ⊥
In e (x ∷ xs) = (x ≡ e) ⊎ In e xs

In-either :
    (o m x y : Entry) (xs : List Entry) → (m ≡ x) ⊎ (m ≡ y) → In o (m ∷ xs) → In o (x ∷ y ∷ xs)
In-either o m x y xs (inl e) (inl p) = inl (sym e ∙ p)
In-either o m x y xs (inr e) (inl p) = inr (inl (sym e ∙ p))
In-either o m x y xs e (inr p) = inr (inr p)

earlier-either : (t : Bool) (x y : Entry) → ((if t then y else x) ≡ x) ⊎ ((if t then y else x) ≡ y)
earlier-either true x y = inr refl
earlier-either false x y = inl refl

pub oldest_from-In : (best : Entry) (xs : List Entry) → In (oldest_from best xs) (best ∷ xs)
unfolding oldest_from
oldest_from-In best [] = inl refl
oldest_from-In best (x ∷ xs) =
    In-either _ (if ltb x.expire_at best.expire_at then x else best) best x xs
      (earlier-either (ltb x.expire_at best.expire_at) best x)
      (oldest_from-In (if ltb x.expire_at best.expire_at then x else best) xs)

length-erase : (e : Entry) (es : List Entry) → In e es → suc (length (erase e es)) ≡ length es
unfolding erase
length-erase e [] h = absurd h
length-erase e (x ∷ xs) (inl h) = ground (
  arith,
  bytes_eq_refl e.token,
  ap (λ (r : Entry). r.token) h,
  ap (λ (r : Entry). r.expire_at) h,
  bytes_eq_iff x.token e.token,
)
length-erase e (x ∷ xs) (inr h) = ground (arith, length-erase e xs h)

-- The eviction loop ends by its own test.
pub evict-not_full :
    (fuel : ℕ) (max : ℤ) (es : List Entry)
    → length es ≤ fuel
    → is_full max (length (evict fuel max es)) ≡ false
unfolding evict
evict-not_full zero max [] h = ground arith
evict-not_full zero max (x ∷ xs) h = absurd (omega arith)
evict-not_full (suc fuel) max [] h = ground arith
evict-not_full (suc fuel) max (x ∷ xs) h = elim (Bool-cases (is_full max (length (x ∷ xs)))) [
  | inr room ↦ rw room room
  | inl full ↦ rw full (
      evict-not_full fuel max (erase (oldest_from x xs) (x ∷ xs))
        (omega (arith, length-erase (oldest_from x xs) (x ∷ xs) (oldest_from-In x xs))))
]

not_full-lt :
    (max : ℤ) (limit size : ℕ) → max ≡ pos (suc limit) → is_full max size ≡ false → size < suc limit
not_full-lt max limit size e h = ground arith

-- After revoke of a token with an expiry the token is revoked, and where a limit is set, however
-- many entries there were before, there are no more than the limit.
pub revoke_lem :
    (now : ℕ) (token : Bytes) (b : Blacklist)
    → get_exp token ≢ 0
    → (is_revoked token (revoke now token b) ≡ true)
      × ((limit : ℕ)
          → b.max_entries ≡ pos (suc limit)
          → length (revoke now token b).entries ≤ suc limit)
unfolding revoke
revoke_lem now token b h = elim (Bool-cases (get_exp token == 0)) [
  | inl e ↦ absurd (ground arith)
  | inr e ↦
      let entry : Entry = record { token = token; expire_at = get_exp token } in
      let room = make_room now b.max_entries b.entries in
      rw e (
        contains-insert entry room,
        λ limit m.
            let fits : length room < suc limit = not_full-lt b.max_entries limit (length room) m (
              evict-not_full (length (sweep now b.entries)) b.max_entries (sweep now b.entries)
                (omega arith)) in
            omega (arith, length-insert entry room, fits),
      )
]
