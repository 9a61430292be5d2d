-- ===== src/Cert/Released.antt =====
-- What is taken from OpenSSL and from the file system is given back (src/CertUtil.cpp).
use alkaidlab_fw.Base.{
  ◌≡◌, refl, List, [], ◌∷◌, ◌++◌, Option, none, some, Bool, true, false, if◌then◌else◌, Bytes,
  ◌>>=◌,
}
use alkaidlab_fw.Cert.{
  Resource, key_context, key, certificate, extension, open_file, names, memory_bio, Effect, takes,
  gives_back, writes_key, restricts_key, writes_certificate, restricted, Answers, Parsed,
  GeneralName, CertInfo, asn1_time_to_iso, names_of, read_cert_info,
}

abbrev pub same : Resource → Resource → Bool
same key_context key_context = true
same key key = true
same certificate certificate = true
same extension extension = true
same open_file open_file = true
same names names = true
same memory_bio memory_bio = true
same _ _ = false

abbrev pub without : Resource → List Resource → Option (List Resource)
without r [] = none
without r (s ∷ held) = if same r s then some held else (without r held >>= λ rest. some (s ∷ rest))

-- The resources that are held behind a trace; `none` is one given back that was not held.
abbrev pub held_after : List Effect → List Resource → Option (List Resource)
held_after [] held = some held
held_after (takes r ∷ trace) held = held_after trace (r ∷ held)
held_after (gives_back r ∷ trace) held = without r held >>= held_after trace
held_after (writes_key ∷ trace) held = held_after trace held
held_after (restricts_key ∷ trace) held = held_after trace held
held_after (writes_certificate ∷ trace) held = held_after trace held

-- What a trace has of the key written, its file restricted to the owner, and the certificate
-- written.
abbrev pub marks : List Effect → List Effect
marks [] = []
marks (takes r ∷ trace) = marks trace
marks (gives_back r ∷ trace) = marks trace
marks (writes_key ∷ trace) = writes_key ∷ marks trace
marks (restricts_key ∷ trace) = restricts_key ∷ marks trace
marks (writes_certificate ∷ trace) = writes_certificate ∷ marks trace

-- Both files written, and the key's restricted where `chmod` works.
abbrev pub all_written : Answers → List Effect
all_written a = writes_key ∷ (restricted a ++ (writes_certificate ∷ []))

-- Everything is given back once, and success is told only with both files written.
abbrev pub IsReleased : Answers → Bool × List Effect → Type 0
IsReleased a r =
    (held_after r.1 [] ≡ some []) × ((if r.0 then marks r.1 else all_written a) ≡ all_written a)

parsed_lem :
    (c : Parsed) (info : CertInfo) → held_after (read_cert_info (some (some c)) info).1 [] ≡ some []
unfolding read_cert_info asn1_time_to_iso names_of
parsed_lem c info = go c.not_before c.not_after c.alternatives
  where
    go :
        (b a : Option (Option Bytes)) (n : Option (List GeneralName))
        → held_after
            (takes open_file
              ∷ takes certificate
              ∷ gives_back open_file
              ∷ (((asn1_time_to_iso b).1 ++ ((asn1_time_to_iso a).1 ++ (names_of n).1))
                  ++ (gives_back certificate ∷ [])))
            []
          ≡ some []
    go none none none = refl
    go none none (some n) = refl
    go none (some a) none = refl
    go none (some a) (some n) = refl
    go (some b) none none = refl
    go (some b) none (some n) = refl
    go (some b) (some a) none = refl
    go (some b) (some a) (some n) = refl

-- The same of what `readCertInfo` takes and gives back, of every file.
pub read_cert_info_lem :
    (file : Option (Option Parsed)) (info : CertInfo)
    → held_after (read_cert_info file info).1 [] ≡ some []
unfolding read_cert_info
read_cert_info_lem none info = refl
read_cert_info_lem (some none) info = refl
read_cert_info_lem (some (some c)) info = parsed_lem c info
