-- ===== src/Application/Names.antt =====
-- The names that `setServerName` stores (src/Application.cpp).
use alkaidlab_fw.Base.{
  lower, ◌≡◌, ◌≢◌, refl, arith, List, [], ◌∷◌, false, Bytes, All, Bool-cases, inl, inr,
}
use alkaidlab_fw.Application.{
  Application, member, add_name, add_pieces, pieces, drop_blanks, drop_last_blanks, set_server_name,
}

lower_twice : (s : Bytes) → lower (lower s) ≡ lower s
unfolding lower
lower_twice [] = refl
lower_twice (c ∷ s) = ground (arith, lower_twice s)

-- No name stands twice.
abbrev pub IsDistinct : List Bytes → Type 0
IsDistinct [] = Unit
IsDistinct (n ∷ ns) = (member n ns ≡ false) × IsDistinct ns

pub record IsNameSet (names : List Bytes) : Type 0 where
  pub distinct : IsDistinct names
  pub lowered : All (λ n. (n ≢ []) × (lower n ≡ n)) names

add_name-IsNameSet :
    (n : Bytes) (names : List Bytes) → lower n ≡ n → IsNameSet names → IsNameSet (add_name n names)
add_name-IsNameSet [] names low h = h
add_name-IsNameSet (c ∷ s) names low h = elim (Bool-cases (member (c ∷ s) names)) [
  | inl there ↦ rw there h
  | inr new ↦
      rw new (record { distinct = (new, h.distinct); lowered = ((λ e. cc, low), h.lowered) })
]

add_pieces-IsNameSet : (ps names : List Bytes) → IsNameSet names → IsNameSet (add_pieces ps names)
unfolding add_pieces
add_pieces-IsNameSet [] names h = h
add_pieces-IsNameSet (p ∷ ps) names h =
    let name = lower (drop_last_blanks (drop_blanks p)) in
    add_pieces-IsNameSet ps (add_name name names)
      (add_name-IsNameSet name names (lower_twice (drop_last_blanks (drop_blanks p))) h)

-- Whatever text is given and whatever was stored before, the stored names are distinct, not empty,
-- and in lower case.
pub set_server_name-IsNameSet :
    (text : Bytes) (a : Application) → IsNameSet (set_server_name text a).allowed_names
unfolding set_server_name
set_server_name-IsNameSet text a =
    add_pieces-IsNameSet (pieces [] text) [] (record { distinct = tt; lowered = tt })
