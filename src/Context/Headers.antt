-- ===== src/Context/Headers.antt =====
-- Header values (src/Context.cpp, `setHeader` and `writeHeader`).
use alkaidlab_fw.Base.{ℕ, [], ◌∷◌, ◌≡◌, ◌≢◌, refl, arith, Bytes, false, All}
use alkaidlab_fw.Context.{has_crlf, strip_crlf, header_value}

abbrev pub IsPlain : ℕ → Type 0
IsPlain c = (c ≢ 13) × (c ≢ 10)

strip_crlf-IsPlain : (v : Bytes) → All IsPlain (strip_crlf v)
unfolding strip_crlf
strip_crlf-IsPlain [] = tt
strip_crlf-IsPlain (c ∷ v) = ground (arith, strip_crlf-IsPlain v)

has_crlf-IsPlain : (v : Bytes) → All IsPlain v → has_crlf v ≡ false
unfolding has_crlf
has_crlf-IsPlain [] h = refl
has_crlf-IsPlain (c ∷ v) h = ground (arith, has_crlf-IsPlain v h.1)

strip_crlf-of_plain : (v : Bytes) → has_crlf v ≡ false → strip_crlf v ≡ v
unfolding has_crlf strip_crlf
strip_crlf-of_plain [] h = refl
strip_crlf-of_plain (c ∷ v) h = ground (arith, strip_crlf-of_plain v)

header_value-strip : (v : Bytes) → header_value v ≡ strip_crlf v
unfolding header_value
header_value-strip v = ground (arith, strip_crlf-of_plain v)

-- A header value never holds a carriage return or a line feed, both branches give what the
-- copying loop alone would give, and a value without these two bytes is passed on unchanged.
pub header_value_lem :
    (v : Bytes)
    → All IsPlain (header_value v)
      × (header_value v ≡ strip_crlf v)
      × (All IsPlain v → header_value v ≡ v)
unfolding header_value
header_value_lem v = (
  rw (header_value-strip v) (strip_crlf-IsPlain v),
  header_value-strip v,
  λ h. rw (has_crlf-IsPlain v h) refl,
)
