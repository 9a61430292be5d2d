-- ===== src/Transport/Http/RoundTrip.antt =====
-- The header text that is built is read back (src/HttpTransport.cpp, `buildHeadersString` and
-- `parseHeaders`).
use alkaidlab_fw.Base.{
  ℕ, suc, ◌≡◌, refl, sym, arith, ap, ◌∙◌, [], ◌∷◌, ◌++◌, Option, none, some, Bool, true, false, not,
  ◌&&◌, ◌==◌, if_true, if_false, Bytes, length, take, drop, find, lower, All, All-append,
  append_assoc, append-nil, ◌>>=◌,
}
use alkaidlab_fw.Jwt.Blacklist.{less}
use alkaidlab_fw.Transport.Url.{trim, trim_left}
use alkaidlab_fw.Transport.Http.{
  Headers, put, is_line_break, with_first, split_lines, put_trimmed, read_line, read_lines,
  parse_headers, build_headers_string,
}

abbrev pub NoBreak : ℕ → Type 0
NoBreak c = is_line_break c ≡ false

abbrev pub NoColon : ℕ → Type 0
NoColon c = (c == 58) ≡ false

-- A key and a value that a header line can carry: no line breaks, no blanks at the ends, neither
-- empty, and a key in lower case without a colon.
pub record IsField (key value : Bytes) : Type 0 where
  pub key_line : All NoBreak key
  pub key_colon : All NoColon key
  pub key_trim : trim key ≡ key
  pub key_lower : lower key ≡ key
  pub key_some : (length key == 0) ≡ false
  pub value_line : All NoBreak value
  pub value_trim : trim value ≡ value
  pub value_some : (length value == 0) ≡ false

-- The entries of a `std::map` whose keys and values a header line can carry.
abbrev pub Above : Bytes → Headers → Type 0
Above key headers = All (λ e. less key e.0 ≡ true) headers

abbrev pub IsHeaders : Headers → Type 0
IsHeaders [] = Unit
IsHeaders ((k, v) ∷ headers) = IsField k v × (Above k headers × IsHeaders headers)

split_lines_line :
    (line rest : Bytes)
    → All NoBreak line
    → split_lines (line ++ (13 ∷ 10 ∷ rest)) ≡ line ∷ [] ∷ split_lines rest
unfolding split_lines
split_lines_line [] rest plain = refl
split_lines_line (c ∷ line) rest plain =
    if_false _ _ plain.0 ∙ ap (with_first c) (split_lines_line line rest plain.1)

find_append : (k r : Bytes) → All NoColon k → find 58 (k ++ (58 ∷ r)) ≡ some (length k)
find_append [] r plain = refl
find_append (c ∷ k) r plain =
    if_false _ _ plain.0 ∙ ap (λ o. o >>= λ i. some (suc i)) (find_append k r plain.1)

take_append : (k r : Bytes) → take (length k) (k ++ r) ≡ k
take_append [] r = refl
take_append (c ∷ k) r = ap (λ (t : Bytes). c ∷ t) (take_append k r)

drop_append : (k : Bytes) (c : ℕ) (r : Bytes) → drop (suc (length k)) (k ++ (c ∷ r)) ≡ r
drop_append [] c r = refl
drop_append (d ∷ k) c r = drop_append k c r

trim_blank : (v : Bytes) → trim (32 ∷ v) ≡ trim v
unfolding trim trim_left
trim_blank v = refl

put_trimmed_lem :
    (k v : Bytes) (headers : Headers) → IsField k v → put_trimmed k v headers ≡ put k v headers
unfolding put_trimmed
put_trimmed_lem k v headers field =
    if_true _ _ (both field.key_some field.value_some) ∙ ap (λ t. put t v headers) field.key_lower
  where
    both : {a b : Bool} → a ≡ false → b ≡ false → (not a && not b) ≡ true
    both {a} {b} p q = rw (p, q) refl

read_line_lem :
    (k v : Bytes) (headers : Headers)
    → IsField k v
    → read_line (k ++ (58 ∷ 32 ∷ v)) headers ≡ put k v headers
unfolding read_line
read_line_lem k v headers field =
    ap after (find_append k (32 ∷ v) field.key_colon)
    ∙ ap (λ t. put_trimmed (trim t) (trim (drop (suc (length k)) line)) headers)
        (take_append k (58 ∷ 32 ∷ v))
    ∙ ap (λ t. put_trimmed (trim k) (trim t) headers) (drop_append k 58 (32 ∷ v))
    ∙ ap (λ t. put_trimmed t (trim (32 ∷ v)) headers) field.key_trim
    ∙ ap (λ t. put_trimmed k t headers) (trim_blank v ∙ field.value_trim)
    ∙ put_trimmed_lem k v headers field
  where
    line : Bytes
    line = k ++ (58 ∷ 32 ∷ v)

    after : Option ℕ → Headers
    after o = elim o [
      | none ↦ headers
      | some colon ↦ put_trimmed (trim (take colon line)) (trim (drop (suc colon) line)) headers
    ]

less_asym : (s t : Bytes) → less s t ≡ true → less t s ≡ false
unfolding less
less_asym [] [] p = cc
less_asym [] (b ∷ t) p = refl
less_asym (a ∷ s) [] p = cc
less_asym (a ∷ s) (b ∷ t) p = ground (arith, less_asym s t)

put_last :
    (k v : Bytes) (headers : Headers)
    → All (λ e. less e.0 k ≡ true) headers
    → put k v headers ≡ headers ++ ((k, v) ∷ [])
unfolding put
put_last k v [] below = refl
put_last k v ((j, w) ∷ headers) below =
    if_false _ _ (less_asym j k below.0)
    ∙ if_true _ _ below.0
    ∙ ap (λ (t : Headers). (j, w) ∷ t) (put_last k v headers below.1)

-- The keys read so far are below those to come.
abbrev Before : Headers → Headers → Type 0
Before old headers = All (λ e. Above e.0 headers) old

All-map :
    {P Q : Bytes × Bytes → Type 0} (xs : Headers)
    → ((x : Bytes × Bytes) → P x → Q x)
    → All P xs
    → All Q xs
All-map [] f all = tt
All-map (x ∷ xs) f all = (f x all.0, All-map xs f all.1)

read_back :
    (old headers : Headers)
    → Before old headers
    → IsHeaders headers
    → read_lines (split_lines (build_headers_string headers)) old ≡ old ++ headers
unfolding split_lines read_line build_headers_string
read_back old [] before fields = sym (append-nil old)
read_back old ((k, v) ∷ headers) before fields =
    ap (λ t. read_lines (split_lines t) old) (regroup k v (build_headers_string headers))
    ∙ ap (λ lines. read_lines lines old)
        (split_lines_line line (build_headers_string headers) plain)
    ∙ ap (λ h. read_lines (split_lines (build_headers_string headers)) h)
        (read_line_lem k v old fields.0
          ∙ put_last k v old (All-map old (λ e above. above.0) before))
    ∙ read_back (old ++ ((k, v) ∷ [])) headers
        (All-append (λ e. Above e.0 headers) old _ (All-map old (λ e above. above.1) before)
          (fields.1.0, tt))
        fields.1.1
    ∙ append_assoc old ((k, v) ∷ []) headers
  where
    line : Bytes
    line = k ++ (58 ∷ 32 ∷ v)

    plain : All NoBreak line
    plain = All-append NoBreak k _ fields.0.key_line (refl, (refl, fields.0.value_line))

    regroup :
        (k v r : Bytes)
        → k ++ (58 ∷ 32 ∷ (v ++ (13 ∷ 10 ∷ r))) ≡ (k ++ (58 ∷ 32 ∷ v)) ++ (13 ∷ 10 ∷ r)
    regroup k v r = sym (append_assoc k (58 ∷ 32 ∷ v) (13 ∷ 10 ∷ r))

-- The header text built of a map of headers is read back as that map, if its keys are in lower
-- case and without colons, and its keys and values have no line breaks and no blanks at their ends
-- and are not empty.
pub parse_headers-build_headers_string :
    (headers : Headers) → IsHeaders headers → parse_headers (build_headers_string headers) ≡ headers
unfolding parse_headers
parse_headers-build_headers_string headers fields = read_back [] headers tt fields
