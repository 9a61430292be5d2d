-- ===== src/Context/Query.antt =====
-- The stored values and the query text (src/Context.cpp, `set`, `get`, `has`, `fullPath`).
use alkaidlab_fw.Base.{
  [], ◌∷◌, ◌++◌, ◌≡◌, ◌≢◌, refl, arith, Bytes, codes, bytes_eq, bytes_eq_iff, bytes_eq_refl, List,
  some, true, false, append_assoc, Bool-cases, inl, inr, if◌then◌else◌, not, ◌∙◌,
}
use alkaidlab_fw.Context.{
  Context, lookup, assign, set_value, get_value, has_value, query_loop, full_path, contains_char,
  is_empty,
}

lookup-assign_self : (d : List (Bytes × Bytes)) (k v : Bytes) → lookup (assign d k v) k ≡ some v
unfolding lookup assign
lookup-assign_self [] k v = rw (bytes_eq_refl k) refl
lookup-assign_self ((k', v') ∷ d) k v = ground (arith, bytes_eq_refl k, lookup-assign_self d k v)

lookup-assign_ne :
    (d : List (Bytes × Bytes)) (k v : Bytes) {q : Bytes}
    → k ≢ q
    → lookup (assign d k v) q ≡ lookup d q
unfolding lookup assign
lookup-assign_ne [] k v {q = q} ne = elim (Bool-cases (bytes_eq k q)) [
  | inl same ↦ absurd (ne ((bytes_eq_iff k q).0 same))
  | inr other ↦ rw other refl
]
lookup-assign_ne ((k', v') ∷ d) k v {q = q} ne =
    ground (arith, bytes_eq_iff k q, bytes_eq_iff k' k, lookup-assign_ne d k v ne)

-- After `set` the key is present and has the value; every other key is present and has its value
-- as before.
pub set_value_lem :
    {H : Type 0} (c : Context H) (key val other default : Bytes)
    → (get_value key default (set_value key val c) ≡ val)
      × (has_value key (set_value key val c) ≡ true)
      × (key ≢ other
          → (get_value other default (set_value key val c) ≡ get_value other default c)
            × (has_value other (set_value key val c) ≡ has_value other c))
unfolding get_value has_value set_value
set_value_lem c key val other default = (
  rw (get_value, lookup-assign_self c.values key val) refl,
  rw (has_value, lookup-assign_self c.values key val) refl,
  λ ne. (
    rw (get_value, lookup-assign_ne c.values key val ne) refl,
    rw (has_value, lookup-assign_ne c.values key val ne) refl,
  ),
)

-- `k=v` for each parameter, with `&` between them.
abbrev pub joined : List (Bytes × Bytes) → Bytes
joined [] = []
joined ((k, v) ∷ []) = k ++ (codes "=" ++ v)
joined ((k, v) ∷ p ∷ params) = (k ++ (codes "=" ++ v)) ++ (codes "&" ++ joined (p ∷ params))

query_loop-later :
    (text : Bytes) (p : Bytes × Bytes) (params : List (Bytes × Bytes))
    → query_loop false text (p ∷ params) ≡ text ++ (codes "&" ++ joined (p ∷ params))
unfolding query_loop
query_loop-later text (k, v) [] = append_assoc text (codes "&") (k ++ (codes "=" ++ v))
query_loop-later text (k, v) (p ∷ params) =
    let pair = k ++ (codes "=" ++ v) in
    let tail = codes "&" ++ joined (p ∷ params) in
    query_loop-later ((text ++ codes "&") ++ pair) p params
    ∙ append_assoc (text ++ codes "&") pair tail
    ∙ append_assoc text (codes "&") (pair ++ tail)

query_text :
    (path : Bytes) (params : List (Bytes × Bytes))
    → (if not (is_empty params) then query_loop true (path ++ codes "?") params else path)
      ≡ elim params [ [] ↦ path | p ∷ rest ↦ path ++ (codes "?" ++ joined (p ∷ rest)) ]
unfolding query_loop
query_text path [] = refl
query_text path ((k, v) ∷ []) = append_assoc path (codes "?") (k ++ (codes "=" ++ v))
query_text path ((k, v) ∷ p ∷ rest) =
    let pair = k ++ (codes "=" ++ v) in
    let tail = codes "&" ++ joined (p ∷ rest) in
    query_loop-later ((path ++ codes "?") ++ pair) p rest
    ∙ append_assoc (path ++ codes "?") pair tail
    ∙ append_assoc path (codes "?") (pair ++ tail)

-- `fullPath` is the path alone if that holds a `?` or the request has no parameters, and
-- otherwise the path, `?` and the parameters as `k=v` in the map's order with `&` between.
pub full_path_lem :
    {H : Type 0} (c : Context H)
    → full_path c ≡ (
        if contains_char 63 c.req.path then c.req.path else elim c.req.query_params [
          | [] ↦ c.req.path
          | p ∷ params ↦ c.req.path ++ (codes "?" ++ joined (p ∷ params))
        ])
unfolding full_path
full_path_lem c = elim (Bool-cases (contains_char 63 c.req.path)) [
  | inl asked ↦ rw asked refl
  | inr plain ↦ rw plain (query_text c.req.path c.req.query_params)
]
