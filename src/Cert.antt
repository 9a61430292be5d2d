-- ===== src/Cert.antt =====
-- Certificates (src/CertUtil.cpp, include/fw/CertUtil.hpp). OpenSSL and the file system are given by
-- what their calls answer; what the code takes from them and gives back is a trace of effects.
pub mod Released
mod Tests
use alkaidlab_fw.Base.{
  ℕ, ◌+◌, List, [], ◌∷◌, ◌++◌, Option, none, some, Bool, true, false, not, ◌&&◌, ◌||◌, ◌==◌, leb,
  ltb, if◌then◌else◌, or_else, Bytes, codes, bytes_eq, find, length,
}
use alkaidlab_fw.Base.Int.{ℤ, pos, negsuc}

pub data Resource : Type 0 where
  key_context : Resource
  key : Resource
  certificate : Resource
  extension : Resource
  open_file : Resource
  names : Resource
  memory_bio : Resource

pub data Effect : Type 0 where
  takes : Resource → Effect
  gives_back : Resource → Effect
  writes_key : Effect
  restricts_key : Effect
  writes_certificate : Effect

-- Whether each call of `generateSelfSigned` that is tested succeeds, in the order of the calls.
pub record Answers : Type 0 where
  pub makes_context : Bool
  pub inits : Bool
  pub takes_bits : Bool
  pub makes_key : Bool
  pub makes_certificate : Bool
  pub makes_extension : Bool
  pub signs : Bool
  pub opens_key_file : Bool
  pub writes_key_file : Bool
  pub restricts_key_file : Bool
  pub opens_certificate_file : Bool
  pub writes_certificate_file : Bool

-- The pointers that the label `cleanup` tests, and what has been done.
pub record Held : Type 0 where
  pub ctx : Bool
  pub pkey : Bool
  pub x509 : Bool
  pub trace : List Effect

unfoldable pub does : List Effect → Held → Held
does effects h = record h { trace = h.trace ++ effects }

abbrev pub free_if : Bool → Resource → List Effect
free_if held r = if held then gives_back r ∷ [] else []

-- What stands behind the label `cleanup`.
unfoldable pub cleanup : Bool → Held → Bool × List Effect
cleanup ok h = (
  ok,
  h.trace ++ (free_if h.ctx key_context ++ (free_if h.x509 certificate ++ free_if h.pkey key)),
)

-- The files; a file is closed before each jump.
unfoldable pub write_certificate : Answers → Held → Bool × List Effect
write_certificate a h =
    let opened = does (takes open_file ∷ []) h in
    let closed = does (gives_back open_file ∷ []) opened in
    let written = does (writes_certificate ∷ gives_back open_file ∷ []) opened in
    if not a.opens_certificate_file
    then cleanup false h
    else if not a.writes_certificate_file
    then cleanup false closed
    else cleanup true written

-- `chmod`, whose result is not looked at.
abbrev pub restricted : Answers → List Effect
restricted a = if a.restricts_key_file then restricts_key ∷ [] else []

unfoldable pub write_key : Answers → Held → Bool × List Effect
write_key a h =
    let opened = does (takes open_file ∷ []) h in
    let closed = does (gives_back open_file ∷ []) opened in
    let written = does (writes_key ∷ gives_back open_file ∷ restricted a) opened in
    if not a.opens_key_file
    then cleanup false h
    else if not a.writes_key_file
    then cleanup false closed
    else write_certificate a written

-- The certificate: the extension is added where it can be made, and then freed.
unfoldable pub fill_certificate : Answers → Held → Bool × List Effect
fill_certificate a h =
    let extended =
      if a.makes_extension then does (takes extension ∷ gives_back extension ∷ []) h else h in
    if not a.signs then cleanup false extended else write_key a extended

unfoldable pub make_certificate : Answers → Held → Bool × List Effect
make_certificate a h =
    if not a.makes_certificate
    then cleanup false h
    else fill_certificate a (record (does (takes certificate ∷ []) h) { x509 = true })

unfoldable pub make_key : Answers → Held → Bool × List Effect
make_key a h =
    let made = record (does (takes key ∷ gives_back key_context ∷ []) h) {
      ctx = false;
      pkey = true;
    } in
    if not a.inits
    then cleanup false h
    else if not a.takes_bits
    then cleanup false h
    else if not a.makes_key
    then cleanup false h
    else make_certificate a made

-- `CertUtil::generateSelfSigned`
unfoldable pub generate_self_signed : Answers → Bool × List Effect
generate_self_signed a =
    let empty : Held = record { ctx = false; pkey = false; x509 = false; trace = [] } in
    if not a.makes_context
    then cleanup false empty
    else make_key a (record (does (takes key_context ∷ []) empty) { ctx = true })

-- The names of the certificate.
abbrev pub own_names : Bytes
own_names = codes "DNS:localhost,IP:127.0.0.1,IP:::1"

unfoldable pub is_ip : Bytes → Bool
is_ip [] = true
is_ip (c ∷ cn) =
    let rest = is_ip cn in if not (c == b'.') && (ltb c b'0' || ltb b'9' c) then false else rest

abbrev pub has : ℕ → Bytes → Bool
has c s = elim (find c s) [ none ↦ false | some _ ↦ true ]

unfoldable pub alternative_names : Bytes → Bytes
alternative_names cn =
    if length cn == 0 || bytes_eq cn (codes "localhost")
    then own_names
    else if has b':' cn
    then codes "IP:" ++ (cn ++ (codes "," ++ own_names))
    else if has b'.' cn
    then (if is_ip cn then codes "IP:" else codes "DNS:") ++ (cn ++ (codes "," ++ own_names))
    else own_names

pub data GeneralName : Type 0 where
  dns : Option Bytes → GeneralName
  other : GeneralName

-- What the calls of `readCertInfo` find in a certificate: the common name of the subject, if there
-- is a subject; whether issuer and subject are there and equal; the two dates as printed, if the
-- buffer can be made and holds something; the alternative names.
pub record Parsed : Type 0 where
  pub common_name : Option Bytes
  pub same_issuer : Bool
  pub not_before : Option (Option Bytes)
  pub not_after : Option (Option Bytes)
  pub alternatives : Option (List GeneralName)

pub record CertInfo : Type 0 where
  pub subject : Bytes
  pub domains : List Bytes
  pub not_before : Bytes
  pub not_after : Bytes
  pub self_signed : Bool

-- `asn1TimeToISO`; the outer `none` is no buffer, the inner one an empty buffer.
unfoldable pub asn1_time_to_iso : Option (Option Bytes) → Bytes × List Effect
asn1_time_to_iso none = ([], [])
asn1_time_to_iso (some text) = (or_else text [], takes memory_bio ∷ gives_back memory_bio ∷ [])

unfoldable pub domains_of : List GeneralName → List Bytes
domains_of [] = []
domains_of (dns none ∷ entries) = domains_of entries
domains_of (dns (some name) ∷ entries) = name ∷ domains_of entries
domains_of (other ∷ entries) = domains_of entries

unfoldable pub names_of : Option (List GeneralName) → List Bytes × List Effect
names_of none = ([], [])
names_of (some entries) = (domains_of entries, takes names ∷ gives_back names ∷ [])

unfoldable pub info_of : Parsed → CertInfo → CertInfo
info_of c info = record {
  subject = or_else c.common_name info.subject;
  domains = (names_of c.alternatives).0;
  not_before = (asn1_time_to_iso c.not_before).0;
  not_after = (asn1_time_to_iso c.not_after).0;
  self_signed = c.same_issuer;
}

abbrev pub info_effects : Parsed → List Effect
info_effects c =
    (asn1_time_to_iso c.not_before).1
    ++ ((asn1_time_to_iso c.not_after).1 ++ (names_of c.alternatives).1)

-- `CertUtil::readCertInfo`: the outer `none` is a file that does not open, the inner one no
-- certificate in it.
unfoldable pub read_cert_info : Option (Option Parsed) → CertInfo → (Bool × CertInfo) × List Effect
read_cert_info none info = ((false, info), [])
read_cert_info (some none) info = ((false, info), takes open_file ∷ gives_back open_file ∷ [])
read_cert_info (some (some c)) info = (
  (true, info_of c info),
  takes open_file
      ∷ takes certificate
      ∷ gives_back open_file
      ∷ (info_effects c ++ (gives_back certificate ∷ [])),
)
