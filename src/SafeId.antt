-- ===== src/SafeId.antt =====
-- The test of identifiers `isSafeId` of include/fw/IdUtil.hpp.
pub mod Letters
mod Tests
use alkaidlab_fw.Base.{
  ℕ, List, [], ◌∷◌, Bool, true, false, ◌&&◌, ◌||◌, ◌==◌, leb, ltb, if◌then◌else◌, length, Bytes,
}

abbrev pub is_safe_char : ℕ → Bool
is_safe_char c =
    (leb 97 c && leb c 122) || ((leb 65 c && leb c 90) || ((leb 48 c && leb c 57) || (c == 45)))

unfoldable pub all_safe : Bytes → Bool
all_safe [] = true
all_safe (c ∷ s) = if is_safe_char c then all_safe s else false

unfoldable pub is_safe_id : Bytes → Bool
is_safe_id [] = false
is_safe_id (c ∷ s) = if ltb 64 (length (c ∷ s)) then false else all_safe (c ∷ s)
