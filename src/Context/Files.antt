-- ===== src/Context/Files.antt =====
-- The guard of `serveFile` (src/Context.cpp).
use alkaidlab_fw.Base.{
  [], ◌∷◌, ◌++◌, ◌≡◌, refl, arith, ap, Bytes, codes, true, ◌==◌, ◌&&◌, Bool-cases, inl, inr,
}
use alkaidlab_fw.Base.Int.{pos}
use alkaidlab_fw.Context.{Context, Response, has_dots, serve_file}

-- Two dots in a row stand in the path, with `before` in front of them and `behind` behind.
abbrev pub HasDots : Bytes → Type 0
HasDots p = (before : Bytes) × (behind : Bytes) × (p ≡ before ++ (46 ∷ 46 ∷ behind))

has_dots-append : (before behind : Bytes) → has_dots (before ++ (46 ∷ 46 ∷ behind)) ≡ true
unfolding has_dots
has_dots-append [] behind = refl
has_dots-append (a ∷ []) behind = ground (arith, has_dots-append [] behind)
has_dots-append (a ∷ b ∷ before) behind = ground (arith, has_dots-append (b ∷ before) behind)

has_dots-HasDots : (p : Bytes) → has_dots p ≡ true → HasDots p
unfolding has_dots
has_dots-HasDots [] h = cc
has_dots-HasDots (a ∷ []) h = cc
has_dots-HasDots (a ∷ b ∷ p) h = elim (Bool-cases ((a == 46) && (b == 46))) [
  | inl both ↦ ([], p, ground arith)
  | inr not_both ↦
      let rest = has_dots-HasDots (b ∷ p) (ground arith) in
      (a ∷ rest.0, rest.1, ap (λ (t : Bytes). a ∷ t) rest.2)
]

-- A path with two dots in a row anywhere is answered by 403 and never reaches the file reader,
-- whatever that does: the headers stay as they were. Any other path is handed to the reader.
pub serve_file_lem :
    {H : Type 0} (load : Bytes → Response H → Response H) (p : Bytes) (c : Context H)
    → (HasDots p
        → ((serve_file load p c).resp.status_code ≡ pos 403)
          × ((serve_file load p c).resp.body ≡ codes "{\"error\":\"Forbidden\"}")
          × ((serve_file load p c).resp.headers ≡ c.resp.headers))
      × (¬ HasDots p → (serve_file load p c).resp ≡ load p c.resp)
unfolding serve_file
serve_file_lem load p c = elim (Bool-cases (has_dots p)) [
  | inl dots ↦ (
    λ found. (rw dots refl, rw dots refl, rw dots refl),
    λ none_found. absurd (none_found (has_dots-HasDots p dots)),
  )
  | inr clear ↦ (
    λ found. absurd (ground (arith, clear, ap has_dots found.2, has_dots-append found.0 found.1)),
    λ none_found. rw clear refl,
  )
]
