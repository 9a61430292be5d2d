-- ===== src/Application.antt =====
-- The host names and ports of src/Application.cpp and include/fw/Application.hpp. `std::set` is the
-- list of the names inserted; `std::tolower` is that of the C locale.
pub mod Hosts
pub mod Names
pub mod Server
mod Tests
use alkaidlab_fw.Base.{
  ℕ, zero, suc, ◌+◌, List, [], ◌∷◌, ◌++◌, Option, none, some, Bool, true, false, not, ◌==◌, ◌&&◌,
  ◌||◌, leb, ltb, if◌then◌else◌, ◌>>=◌, or_else, Bytes, bytes_eq, take, lower,
}
use alkaidlab_fw.Base.Int.{ℤ, pos, ltb_ℤ}

pub record Application : Type 0 where
  pub port : ℤ
  pub https_port : ℤ
  pub server_https_port : ℤ
  pub allowed_names : List Bytes

-- `s.rfind(c)`; `none` is `npos`.
unfoldable pub rfind : ℕ → Bytes → Option ℕ
rfind c [] = none
rfind c (x ∷ s) = elim (rfind c s) [
  | some i ↦ some (suc i)
  | none ↦ if x == c then some 0 else none
]

abbrev pub is_blank : ℕ → Bool
is_blank c = (c == 32) || (c == 9)

unfoldable pub drop_blanks : Bytes → Bytes
drop_blanks [] = []
drop_blanks (c ∷ s) = if is_blank c then drop_blanks s else c ∷ s

abbrev pub keep_unless_blank : ℕ → Bytes → Bytes
keep_unless_blank c [] = if is_blank c then [] else c ∷ []
keep_unless_blank c (d ∷ s) = c ∷ d ∷ s

unfoldable pub drop_last_blanks : Bytes → Bytes
drop_last_blanks [] = []
drop_last_blanks (c ∷ s) = keep_unless_blank c (drop_last_blanks s)

-- The pieces that `std::getline` reads up to each comma; `piece` is the one being read.
unfoldable pub pieces : Bytes → Bytes → List Bytes
pieces piece [] = piece ∷ []
pieces piece (c ∷ s) =
    let next = pieces [] s in
    let longer = pieces (piece ++ (c ∷ [])) s in if c == 44 then piece ∷ next else longer

unfoldable pub member : Bytes → List Bytes → Bool
member s [] = false
member s (t ∷ ts) = if bytes_eq s t then true else member s ts

abbrev pub add_name : Bytes → List Bytes → List Bytes
add_name [] names = names
add_name (c ∷ s) names = if member (c ∷ s) names then names else (c ∷ s) ∷ names

unfoldable pub add_pieces : List Bytes → List Bytes → List Bytes
add_pieces [] names = names
add_pieces (p ∷ ps) names =
    add_pieces ps (add_name (lower (drop_last_blanks (drop_blanks p))) names)

unfoldable pub set_server_name : Bytes → Application → Application
set_server_name names a = record a { allowed_names = add_pieces (pieces [] names) [] }

-- A colon that stands behind every `]` starts the port.
unfoldable pub strip_port : Bytes → Bytes
strip_port host = elim (rfind 58 host) [
  | none ↦ host
  | some colon ↦ elim (rfind 93 host) [
    | none ↦ take colon host
    | some bracket ↦ if ltb bracket colon then take colon host else host
  ]
]

unfoldable pub is_allowed_host : Bytes → Application → Bool
is_allowed_host header a = elim a.allowed_names [
  | [] ↦ true
  | n ∷ names ↦ member (lower (strip_port header)) (n ∷ names)
]

unfoldable pub set_port : ℤ → Application → Application
set_port port a = record a { port = port }

unfoldable pub set_https_port : ℤ → Application → Application
set_https_port port a = record a { https_port = port }

-- The assignments of `enableSsl`, in order; the TLS context is libhv's.
unfoldable pub enable_ssl : Application → Application
enable_ssl a =
    let cleared = record a { port = pos 0 } in
    record cleared {
      server_https_port =
          if ltb_ℤ (pos 0) cleared.https_port then cleared.https_port else cleared.port;
    }
