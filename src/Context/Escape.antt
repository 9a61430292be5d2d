-- ===== src/Context/Escape.antt =====
-- The JSON text of `error` (src/Context.cpp), read back by a reader of JSON strings.
use alkaidlab_fw.Base.{
  ℕ, ◌≤◌, ◌≢◌, ltb, [], ◌∷◌, Bytes, codes, Option, none, some, Bool, true, false, ◌==◌, ◌||◌,
  if◌then◌else◌, ◌>>=◌,
}

-- The content of a JSON string (RFC 8259) up to its closing quote, and the text behind it. A control
-- character refuses the text. Of the escapes it knows those of `"`, `\` and `/`, which stand for
-- themselves; the flag says that a backslash has just been read.
unfoldable pub read_string : Bool → Bytes → Option (Bytes × Bytes)
read_string escaped [] = none
read_string true (c ∷ s) =
    let rest = read_string false s in
    if (c == 34) || ((c == 92) || (c == 47)) then (rest >>= λ p. some (c ∷ p.0, p.1)) else none
read_string false (c ∷ s) =
    let rest = read_string false s in
    let behind = read_string true s in
    if ltb c 32
    then none
    else if c == 34
    then some ([], s)
    else (if c == 92 then behind else (rest >>= λ p. some (c ∷ p.0, p.1)))

abbrev pub IsPrintable : ℕ → Type 0
IsPrintable c = 32 ≤ c

-- The object of an error body, read member by member: the code, as far as its string goes, the
-- message, and what stands behind it.
unfoldable pub read_prefix : Bytes → Bytes → Option Bytes
read_prefix [] s = some s
read_prefix (c ∷ prefix) [] = none
read_prefix (c ∷ prefix) (d ∷ s) = let rest = read_prefix prefix s in if c == d then rest else none

abbrev pub read_error : Bytes → Option (Bytes × Bytes × Bytes)
read_error s = read_prefix (codes "{\"error\":\"") s >>= λ first.
    read_string false first >>= λ code. read_prefix (codes ",\"message\":\"") code.1 >>= λ second.
    read_string false second >>= λ message. some (code.0, message.0, message.1)

-- A code goes into the text as it is.
abbrev pub IsWord : ℕ → Type 0
IsWord c = (32 ≤ c) × (c ≢ 34) × (c ≢ 92)
