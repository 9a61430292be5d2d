-- ===== src/PathGuard.antt =====
-- The guard of paths of include/fw/PathGuard.hpp. What boost::filesystem answers (the canonical
-- path, the current directory and the joined path) is given by arguments; `none` is an error.
pub mod Safe
mod Tests
use alkaidlab_fw.Base.{
  ℕ, suc, List, [], ◌∷◌, ◌++◌, Option, none, some, Bool, true, false, ◌==◌, ◌&&◌, ltb, get_or,
  if◌then◌else◌, Bytes, codes, bytes_eq,
}

abbrev slash : ℕ
slash = 47

abbrev pub resolve : (Bytes → Option Bytes) → Option Bytes → (Bytes → Bytes → Bytes) → Bytes → Bytes
resolve canonical cwd join path = elim (canonical path) [
  | some found ↦ found
  | none ↦
      if get_or path 0 0 == slash then path else elim cwd [ none ↦ path | some dir ↦ join dir path ]
]

-- The loop that takes slashes off the end, behind the first byte, which it keeps.
abbrev pub keep_unless_slash : ℕ → Bytes → Bytes
keep_unless_slash c [] = if c == slash then [] else c ∷ []
keep_unless_slash c (d ∷ s) = c ∷ d ∷ s

unfoldable pub strip_slashes : Bytes → Bytes
strip_slashes [] = []
strip_slashes (c ∷ s) = keep_unless_slash c (strip_slashes s)

unfoldable pub trim : Bytes → Bytes
trim [] = []
trim (c ∷ s) = c ∷ strip_slashes s

abbrev pub blocked : List Bytes
blocked =
    codes "/bin"
    ∷ codes "/sbin"
    ∷ codes "/usr"
    ∷ codes "/usr/bin"
    ∷ codes "/usr/sbin"
    ∷ codes "/usr/lib"
    ∷ codes "/usr/lib64"
    ∷ codes "/lib"
    ∷ codes "/lib64"
    ∷ codes "/etc"
    ∷ codes "/dev"
    ∷ codes "/proc"
    ∷ codes "/sys"
    ∷ codes "/boot"
    ∷ codes "/run"
    ∷ codes "/root"
    ∷ codes "/home"
    ∷ codes "/var"
    ∷ codes "/var/log"
    ∷ codes "/var/run"
    ∷ codes "/var/lib"
    ∷ []

unfoldable pub is_blocked : List Bytes → Bytes → Bool
is_blocked [] resolved = false
is_blocked (b ∷ bs) resolved = if bytes_eq resolved b then true else is_blocked bs resolved

unfoldable pub count_slashes : Bytes → ℕ
count_slashes [] = 0
count_slashes (c ∷ s) = if c == slash then suc (count_slashes s) else count_slashes s

-- The slashes from index 1 on.
unfoldable pub depth : Bytes → ℕ
depth [] = 0
depth (c ∷ s) = count_slashes s

pub data Verdict : Type 0 where
  safe : Verdict
  empty_path : Verdict
  root_path : Verdict
  system_path : Verdict
  shallow_path : Verdict

-- The tests of the resolved path, in their order.
unfoldable pub judge : Bytes → Verdict
judge r =
    if bytes_eq r (codes "/")
    then root_path
    else if is_blocked blocked r
    then system_path
    else if (get_or r 0 0 == slash) && ltb (depth r) 1
    then shallow_path
    else safe

unfoldable pub is_safe :
    (Bytes → Option Bytes) → Option Bytes → (Bytes → Bytes → Bytes) → Bytes → Verdict
is_safe canonical cwd join [] = empty_path
is_safe canonical cwd join (c ∷ path) = judge (trim (resolve canonical cwd join (c ∷ path)))
