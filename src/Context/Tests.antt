-- ===== src/Context/Tests.antt =====
-- Runs of the context on concrete requests.
use alkaidlab_fw.Base.{List, [], ◌∷◌, ◌≡◌, refl, Bytes, codes, none, some, All}
use alkaidlab_fw.Base.Int.{pos}
use alkaidlab_fw.Context.{
  escape, Context, Request, Response, context, header_value, strip_crlf, error_body, has_crlf,
  set_header,
}
use alkaidlab_fw.Context.Headers.{IsPlain, header_value_lem}
use alkaidlab_fw.Context.Escape.{read_error, read_prefix, read_string}

abbrev Pairs : Type 0
Pairs = List (Bytes × Bytes)

abbrev put : Bytes → Bytes → Pairs → Pairs
put key val h = (key, val) ∷ h

abbrev asked : Request Pairs
asked = record {
  method = 1;
  path = codes "/list";
  query_params = (codes "a", codes "1") ∷ (codes "b", codes "2") ∷ [];
  headers = [];
  body = [];
  content_length = pos 0;
  client_ip = [];
  client_port = pos 0;
  http_major = 1;
  http_minor = 1;
}

abbrev blank : Response Pairs
blank = record { status_code = pos 200; headers = []; content_type = 0; body = []; cookies = [] }

abbrev start : Context Pairs
start = context asked blank none

abbrev load : Bytes → Response Pairs → Response Pairs
load path r = record r { body = path }

set_header_runs :
    (set_header put (codes "X") (65 ∷ 13 ∷ 10 ∷ 66 ∷ []) start).resp.headers
    ≡ (codes "X", codes "AB") ∷ []
unfolding set_header header_value has_crlf strip_crlf context
set_header_runs = refl

header_value_lem_example :
    All IsPlain (header_value (65 ∷ 13 ∷ 10 ∷ 66 ∷ []))
    × (header_value (65 ∷ 13 ∷ 10 ∷ 66 ∷ []) ≡ strip_crlf (65 ∷ 13 ∷ 10 ∷ 66 ∷ []))
    × (All IsPlain (65 ∷ 13 ∷ 10 ∷ 66 ∷ [])
        → header_value (65 ∷ 13 ∷ 10 ∷ 66 ∷ []) ≡ 65 ∷ 13 ∷ 10 ∷ 66 ∷ [])
header_value_lem_example = header_value_lem (65 ∷ 13 ∷ 10 ∷ 66 ∷ [])

-- A line feed goes into the text, and a reader of JSON refuses it.
error_body_refused : read_error (error_body (codes "BAD") (some (10 ∷ []))) ≡ none
unfolding error_body escape read_prefix read_string
error_body_refused = refl
