-- ===== src/PathGuard/Safe.antt =====
-- What a path that passes the guard resolves to (include/fw/PathGuard.hpp).
use alkaidlab_fw.Base.{
  ◌≡◌, ◌≢◌, ◌<◌, refl, arith, ap, List, [], ◌∷◌, ◌++◌, Option, Bool, true, false, ◌==◌, ◌&&◌, ltb,
  get_or, Bytes, codes, bytes_eq, bytes_eq_iff, All, if◌then◌else◌, subst, Bool-cases, inl, inr,
}
use alkaidlab_fw.PathGuard.{
  resolve, keep_unless_slash, strip_slashes, trim, blocked, is_blocked, count_slashes, depth, safe,
  root_path, system_path, shallow_path, judge, is_safe,
}

-- The text does not end with a slash.
abbrev pub EndsClean : Bytes → Type 0
EndsClean [] = Unit
EndsClean (c ∷ []) = c ≢ 47
EndsClean (c ∷ d ∷ s) = EndsClean (d ∷ s)

strip_slashes-EndsClean : (s : Bytes) → EndsClean (strip_slashes s)
unfolding strip_slashes
strip_slashes-EndsClean [] = tt
strip_slashes-EndsClean (c ∷ s) = go (strip_slashes s) (strip_slashes-EndsClean s)
  where
    go : (t : Bytes) → EndsClean t → EndsClean (keep_unless_slash c t)
    go [] h = elim (Bool-cases (c == 47)) [
      | inl same ↦ rw same tt
      | inr other ↦ rw other (λ e. ground arith)
    ]
    go (d ∷ t) h = h

-- A slash with something behind it.
abbrev pub HasLevel : Bytes → Type 0
HasLevel s = (dir : Bytes) × (name : Bytes) × (s ≡ dir ++ (47 ∷ name)) × (name ≢ [])

count_slashes-HasLevel : (s : Bytes) → 0 < count_slashes s → EndsClean s → HasLevel s
unfolding count_slashes
count_slashes-HasLevel [] h clean = absurd (omega arith)
count_slashes-HasLevel (c ∷ []) h clean = absurd (ground arith)
count_slashes-HasLevel (c ∷ d ∷ s) h clean = elim (Bool-cases (c == 47)) [
  | inl same ↦ ([], d ∷ s, ground arith, λ e. cc)
  | inr other ↦
      let rest = count_slashes-HasLevel (d ∷ s) (ground arith) clean in
      (c ∷ rest.0, rest.1, ap (λ (t : Bytes). c ∷ t) rest.2, rest.3)
]

is_blocked-All : (bs : List Bytes) (r : Bytes) → is_blocked bs r ≡ false → All (λ b. r ≢ b) bs
unfolding is_blocked
is_blocked-All [] r h = tt
is_blocked-All (b ∷ bs) r h = ground (arith, bytes_eq_iff r b, is_blocked-All bs r)

record IsJudgedSafe (r : Bytes) : Type 0 where
  not_root : bytes_eq r (codes "/") ≡ false
  not_blocked : is_blocked blocked r ≡ false
  not_shallow : ((get_or r 0 0 == 47) && ltb (depth r) 1) ≡ false

judge-IsJudgedSafe : (r : Bytes) → judge r ≡ safe → IsJudgedSafe r
unfolding judge
judge-IsJudgedSafe r h =
    go (bytes_eq r (codes "/")) (is_blocked blocked r) ((get_or r 0 0 == 47) && ltb (depth r) 1)
      refl refl refl h
  where
    go :
        (a b c : Bool)
        → bytes_eq r (codes "/") ≡ a
        → is_blocked blocked r ≡ b
        → ((get_or r 0 0 == 47) && ltb (depth r) 1) ≡ c
        → (if a then root_path else if b then system_path else if c then shallow_path else safe)
          ≡ safe
        → IsJudgedSafe r
    go true b c ea eb ec e = absurd cc
    go false true c ea eb ec e = absurd cc
    go false false true ea eb ec e = absurd cc
    go false false false ea eb ec e = record { not_root = ea; not_blocked = eb; not_shallow = ec }

trim-EndsClean : (r : Bytes) {s : Bytes} → trim r ≡ 47 ∷ s → EndsClean s
unfolding trim
trim-EndsClean [] e = absurd cc
trim-EndsClean (c ∷ r) {s = s} e =
    let same : strip_slashes r ≡ s = cc in subst EndsClean same (strip_slashes-EndsClean r)

no_both : {b : Bool} → b ≡ false → b ≡ true → ⊥
no_both p q = cc

deep_enough : (s : Bytes) → ((47 == 47) && ltb (depth (47 ∷ s)) 1) ≡ false → 0 < count_slashes s
unfolding depth
deep_enough s h = ground arith

-- A path is let through only if what it resolves to, without the slashes at its end, is neither
-- the root nor one of the listed directories and, where it is absolute, names something at least
-- two levels below the root.
pub is_safe_lem :
    (canonical : Bytes → Option Bytes) (cwd : Option Bytes) (join : Bytes → Bytes → Bytes)
    (path : Bytes)
    → is_safe canonical cwd join path ≡ safe
    → (path ≢ [])
      × (trim (resolve canonical cwd join path) ≢ codes "/")
      × All (λ b. trim (resolve canonical cwd join path) ≢ b) blocked
      × ((s : Bytes) → trim (resolve canonical cwd join path) ≡ 47 ∷ s → HasLevel s)
unfolding is_safe
is_safe_lem canonical cwd join [] h = absurd cc
is_safe_lem canonical cwd join (c ∷ path) h =
    let found = resolve canonical cwd join (c ∷ path) in
    let judged = judge-IsJudgedSafe (trim found) h in
    (
      λ e. cc,
      λ e. no_both judged.not_root ((bytes_eq_iff (trim found) (codes "/")).1 e),
      is_blocked-All blocked (trim found) judged.not_blocked,
      λ s e.
          count_slashes-HasLevel s
            (deep_enough s
              (subst (λ r. ((get_or r 0 0 == 47) && ltb (depth r) 1) ≡ false) e judged.not_shallow))
            (trim-EndsClean found e),
    )
