-- ===== src/Jwt/Blacklist/Eviction.antt =====
-- Which entries revoke gives up to make room (src/JwtUtil.cpp).
use alkaidlab_fw.Base.{
  ℕ, zero, suc, ◌≤◌, ◌<◌, ◌≡◌, ◌≢◌, ap, arith, Bytes, List, [], ◌∷◌, false, ◌==◌, ltb, leb,
  if◌then◌else◌, length, Bool-cases, inl, inr,
}
use alkaidlab_fw.Base.Int.{ℤ}
use alkaidlab_fw.Jwt.Claims.{get_exp}
use alkaidlab_fw.Jwt.Blacklist.{
  Entry, Blacklist, revoke, insert, sweep, oldest_from, erase, is_full, evict,
}
use alkaidlab_fw.Jwt.Blacklist.Bounds.{In}

oldest_from-le : (best : Entry) (xs : List Entry) → (oldest_from best xs).expire_at ≤ best.expire_at
unfolding oldest_from
oldest_from-le best [] = omega arith
oldest_from-le best (x ∷ xs) =
    ground (arith, oldest_from-le (if ltb x.expire_at best.expire_at then x else best) xs)

-- No entry expires before the one that the loop finds.
oldest_from_min :
    (best e : Entry) (xs : List Entry)
    → In e (best ∷ xs)
    → (oldest_from best xs).expire_at ≤ e.expire_at
unfolding oldest_from
oldest_from_min best e xs (inl p) =
    omega (arith, oldest_from-le best xs, ap (λ (r : Entry). r.expire_at) p)
oldest_from_min best e [] (inr p) = absurd p
oldest_from_min best e (x ∷ xs) (inr (inl p)) = ground (
  arith,
  oldest_from-le (if ltb x.expire_at best.expire_at then x else best) xs,
  ap (λ (r : Entry). r.expire_at) p,
)
oldest_from_min best e (x ∷ xs) (inr (inr p)) =
    oldest_from_min (if ltb x.expire_at best.expire_at then x else best) e xs (inr p)

In-erase : (e o : Entry) (es : List Entry) → e.expire_at ≢ o.expire_at → In e es → In e (erase o es)
unfolding erase
In-erase e o [] ne h = h
In-erase e o (x ∷ xs) ne (inl p) = ground (arith, ap (λ (r : Entry). r.expire_at) p)
In-erase e o (x ∷ xs) ne (inr p) = ground (arith, In-erase e o xs ne p)

In-of-erase : (e o : Entry) (es : List Entry) → In e (erase o es) → In e es
unfolding erase
In-of-erase e o [] h = h
In-of-erase e o (x ∷ xs) h = ground (arith, In-of-erase e o xs)

In-of-evict :
    (e : Entry) (fuel : ℕ) (max : ℤ) (es : List Entry) → In e (evict fuel max es) → In e es
unfolding evict
In-of-evict e zero max es h = h
In-of-evict e (suc fuel) max [] h = h
In-of-evict e (suc fuel) max (x ∷ xs) h = elim (Bool-cases (is_full max (length (x ∷ xs)))) [
  | inr room ↦ rw room at h
  | inl full ↦
      In-of-erase e (oldest_from x xs) (x ∷ xs)
        (In-of-evict e fuel max (erase (oldest_from x xs) (x ∷ xs)) (rw full at h))
]

evict_keeps_later :
    (fuel : ℕ) (max : ℤ) (es : List Entry) (e kept : Entry)
    → In e es
    → In kept (evict fuel max es)
    → kept.expire_at < e.expire_at
    → In e (evict fuel max es)
unfolding evict
evict_keeps_later zero max es e kept h k lt = h
evict_keeps_later (suc fuel) max [] e kept h k lt = h
evict_keeps_later (suc fuel) max (x ∷ xs) e kept h k lt =
    elim (Bool-cases (is_full max (length (x ∷ xs)))) [
      | inr room ↦ rw room h
      | inl full ↦
          let rest = erase (oldest_from x xs) (x ∷ xs) in
          let k' : In kept (evict fuel max rest) = rw full at k in
          let low =
            oldest_from_min x kept xs
              (In-of-erase kept (oldest_from x xs) (x ∷ xs) (In-of-evict kept fuel max rest k')) in
          rw full (
            evict_keeps_later fuel max rest e kept
              (In-erase e (oldest_from x xs) (x ∷ xs) (λ p. absurd (omega arith)) h) k' lt)
    ]

In-sweep :
    (now : ℕ) (e : Entry) (es : List Entry) → In e es → now < e.expire_at → In e (sweep now es)
unfolding sweep
In-sweep now e [] h l = h
In-sweep now e (x ∷ xs) (inl p) l = ground (arith, ap (λ (r : Entry). r.expire_at) p)
In-sweep now e (x ∷ xs) (inr p) l = ground (arith, In-sweep now e xs p l)

In-of-sweep :
    (now : ℕ) (e : Entry) (es : List Entry) → In e (sweep now es) → In e es × (now < e.expire_at)
unfolding sweep
In-of-sweep now e [] h = absurd h
In-of-sweep now e (x ∷ xs) h = elim (Bool-cases (leb x.expire_at now)) [
  | inl old ↦ let r = In-of-sweep now e xs (rw old at h) in (inr r.0, r.1)
  | inr live ↦ first live (In-of-sweep now e xs) (rw live at h)
]
  where
    first :
        leb x.expire_at now ≡ false
        → (In e (sweep now xs) → In e xs × (now < e.expire_at))
        → In e (x ∷ sweep now xs)
        → In e (x ∷ xs) × (now < e.expire_at)
    first live rest (inl p) = (inl p, ground (arith, ap (λ (r : Entry). r.expire_at) p))
    first live rest (inr p) = (inr (rest p).0, (rest p).1)

In-insert : (e n : Entry) (es : List Entry) → In e es → In e (insert n es)
unfolding insert
In-insert e n [] h = absurd h
In-insert e n (x ∷ xs) h = ground (arith, In-insert e n xs)

In-of-insert : (e n : Entry) (es : List Entry) → n.token ≢ e.token → In e (insert n es) → In e es
unfolding insert
In-of-insert e n [] ne (inl p) = absurd (ne (ap (λ (r : Entry). r.token) p))
In-of-insert e n [] ne (inr p) = p
In-of-insert e n (x ∷ xs) ne h = ground (arith, In-of-insert e n xs ne, ap (λ (r : Entry). r.token))

-- When revoke adds a token, another entry that it keeps was there before and has not expired, and
-- an unexpired entry that expires later than such a kept one is kept too: the entries given up to
-- make room are those that expire first.
pub revoke_keeps_later :
    (now : ℕ) (token : Bytes) (b : Blacklist) (e kept : Entry)
    → get_exp token ≢ 0
    → In kept (revoke now token b).entries
    → token ≢ kept.token
    → (In kept b.entries × (now < kept.expire_at))
      × (In e b.entries
          → now < e.expire_at
          → kept.expire_at < e.expire_at
          → In e (revoke now token b).entries)
unfolding revoke
revoke_keeps_later now token b e kept h k ne = elim (Bool-cases (get_exp token == 0)) [
  | inl z ↦ absurd (ground arith)
  | inr z ↦
      let live = sweep now b.entries in
      let entry : Entry = record { token = token; expire_at = get_exp token } in
      let room = evict (length live) b.max_entries live in
      let k' = In-of-insert kept entry room ne (rw z at k) in
      (
        In-of-sweep now kept b.entries (In-of-evict kept (length live) b.max_entries live k'),
        λ i l later. rw z (
            In-insert e entry room (
              evict_keeps_later (length live) b.max_entries live e kept
                (In-sweep now e b.entries i l) k' later)),
      )
]
