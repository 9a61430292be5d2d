-- ===== src/Context.antt =====
-- The request and response context of src/Context.cpp and include/fw/Context.hpp. The header maps
-- of libhv are a type `H`; libhv's functions on them, its file reader and what its response
-- writer answers are arguments.
pub mod Escape
pub mod Headers
pub mod Query
pub mod Files
pub mod Readers
mod Tests
use alkaidlab_fw.Base.{
  ℕ, zero, suc, ◌+◌, ◌*◌, List, [], ◌∷◌, ◌++◌, Option, none, some, Bool, true, false, not, ◌&&◌,
  ◌||◌, ◌==◌, if◌then◌else◌, Bytes, codes, bytes_eq, length,
}
use alkaidlab_fw.Base.Int.{ℤ, pos, negsuc}

-- The calls that a response writer has received.
pub data WriterCall : Type 0 where
  status_written : ℤ → WriterCall
  header_written : Bytes → Bytes → WriterCall
  headers_ended : Bytes → ℤ → WriterCall
  body_written : Bytes → WriterCall
  response_ended : WriterCall

pub data SameSite : Type 0 where
  same_site_none : SameSite
  same_site_lax : SameSite
  same_site_strict : SameSite

pub record Cookie : Type 0 where
  pub name : Bytes
  pub value : Bytes
  pub path : Bytes
  pub max_age : ℤ
  pub http_only : Bool
  pub same_site : SameSite

pub record Request (H : Type 0) : Type 0 where
  pub method : ℕ
  pub path : Bytes
  pub query_params : List (Bytes × Bytes)
  pub headers : H
  pub body : Bytes
  pub content_length : ℤ
  pub client_ip : Bytes
  pub client_port : ℤ
  pub http_major : ℕ
  pub http_minor : ℕ

-- `cookies` are those that AddCookie has received, in order.
pub record Response (H : Type 0) : Type 0 where
  pub status_code : ℤ
  pub headers : H
  pub content_type : ℕ
  pub body : Bytes
  pub cookies : List Cookie

-- The writer is `none` in a synchronous handler.
pub record Context (H : Type 0) : Type 0 where
  pub req : Request H
  pub resp : Response H
  pub values : List (Bytes × Bytes)
  pub streaming_handoff : Bool
  pub writer : Option (List WriterCall)

abbrev pub is_break : ℕ → Bool
is_break c = (c == 13) || (c == 10)

-- The loop that looks for a carriage return or a line feed.
unfoldable pub has_crlf : Bytes → Bool
has_crlf [] = false
has_crlf (c ∷ v) = if is_break c then true else has_crlf v

-- The loop that copies all other bytes.
unfoldable pub strip_crlf : Bytes → Bytes
strip_crlf [] = []
strip_crlf (c ∷ v) = if is_break c then strip_crlf v else c ∷ strip_crlf v

unfoldable pub header_value : Bytes → Bytes
header_value v = if has_crlf v then strip_crlf v else v

-- `"` and `\` get a backslash.
unfoldable pub escape : Bytes → Bytes
escape [] = []
escape (c ∷ m) = if (c == 34) || (c == 92) then 92 ∷ c ∷ escape m else c ∷ escape m

-- `none` is a null or empty message.
unfoldable pub error_body : Bytes → Option Bytes → Bytes
error_body code none = codes "{\"error\":\"" ++ (code ++ codes "\"}")
error_body code (some message) =
    codes "{\"error\":\""
    ++ (code ++ (codes "\",\"message\":\"" ++ (escape message ++ codes "\"}")))

-- `p[0] == '.' && p[1] == '.'` at some position; behind the last byte stands the terminator.
unfoldable pub has_dots : Bytes → Bool
has_dots [] = false
has_dots (a ∷ []) = false
has_dots (a ∷ b ∷ p) = if (a == 46) && (b == 46) then true else has_dots (b ∷ p)

unfoldable pub lookup : List (Bytes × Bytes) → Bytes → Option Bytes
lookup [] key = none
lookup ((k, v) ∷ d) key = if bytes_eq k key then some v else lookup d key

unfoldable pub assign : List (Bytes × Bytes) → Bytes → Bytes → List (Bytes × Bytes)
assign [] key val = (key, val) ∷ []
assign ((k, v) ∷ d) key val = if bytes_eq k key then (k, val) ∷ d else ((k, v) ∷ assign d key val)

unfoldable pub contains_char : ℕ → Bytes → Bool
contains_char c [] = false
contains_char c (x ∷ s) = if x == c then true else contains_char c s

-- The loop of `fullPath`, with its flag for the first parameter and the text so far.
unfoldable pub query_loop : Bool → Bytes → List (Bytes × Bytes) → Bytes
query_loop first result [] = result
query_loop first result ((k, v) ∷ params) =
    query_loop false ((if first then result else (result ++ codes "&")) ++ (k ++ (codes "=" ++ v)))
      params

abbrev pub is_empty {ℓ} : {A : Type ℓ} → List A → Bool
is_empty [] = true
is_empty (_ ∷ _) = false

unfoldable pub same_site_of : ℤ → SameSite
same_site_of (pos zero) = same_site_none
same_site_of (pos (suc zero)) = same_site_lax
same_site_of (pos (suc (suc zero))) = same_site_strict
same_site_of _ = same_site_lax

module _ {H : Type 0} where
  unfoldable pub set_status : ℤ → Context H → Context H
  set_status code c = record c { resp = record c.resp { status_code = code } }

  abbrev pub status : Context H → ℤ
  status c = c.resp.status_code

  unfoldable pub set_body : Bytes → Context H → Context H
  set_body body c = record c { resp = record c.resp { body = body } }

  unfoldable pub response_body_size : Context H → ℕ
  response_body_size c = length c.resp.body

  -- `load` is libhv's `HttpResponse::File`.
  unfoldable pub serve_file : (Bytes → Response H → Response H) → Bytes → Context H → Context H
  serve_file load filepath c =
      if has_dots filepath
      then record c {
        resp = record c.resp { status_code = pos 403; body = codes "{\"error\":\"Forbidden\"}" };
      }
      else record c { resp = load filepath c.resp }

  module _ (put : Bytes → Bytes → H → H) where
    unfoldable pub set_header : Bytes → Bytes → Context H → Context H
    set_header key val c = record c {
      resp = record c.resp { headers = put key (header_value val) c.resp.headers };
    }

    -- `application_json` is the value of libhv's constant APPLICATION_JSON.
    unfoldable pub json : ℕ → ℤ → Bytes → Context H → Context H
    json application_json code body c = record c {
      resp = record c.resp {
        status_code = code;
        content_type = application_json;
        headers =
            put (codes "Content-Type") (codes "application/json; charset=utf-8") c.resp.headers;
        body = body;
      };
    }

    unfoldable pub error : ℤ → Bytes → Option Bytes → Context H → Context H
    error code word message c = record c {
      resp = record c.resp {
        status_code = code;
        headers =
            put (codes "Content-Type") (codes "application/json; charset=utf-8") c.resp.headers;
        body = error_body word message;
      };
    }

  unfoldable pub has_writer : Context H → Bool
  has_writer c = elim c.writer [ none ↦ false | some _ ↦ true ]

  -- A call of the writer, where there is one.
  abbrev pub call_writer : WriterCall → Context H → Context H
  call_writer call c = elim c.writer [
    | none ↦ c
    | some calls ↦ record c { writer = some (calls ++ (call ∷ [])) }
  ]

  abbrev pub reply_or : ℤ → Context H → ℤ
  reply_or reply c = elim c.writer [ none ↦ negsuc 0 | some _ ↦ reply ]

  unfoldable pub write_status : ℤ → Context H → Context H
  write_status code c = call_writer (status_written code) c

  unfoldable pub write_header : Bytes → Bytes → Context H → Context H
  write_header key val c = call_writer (header_written key (header_value val)) c

  -- `reply` is what the writer answers, here and below.
  unfoldable pub end_headers : ℤ → Bytes → ℤ → Context H → Context H × ℤ
  end_headers reply key content_length c =
      (call_writer (headers_ended key content_length) c, reply_or reply c)

  unfoldable pub write_body : ℤ → Bytes → Context H → Context H × ℤ
  write_body reply text c = (call_writer (body_written text) c, reply_or reply c)

  unfoldable pub end_response : ℤ → Context H → Context H × ℤ
  end_response reply c = (call_writer response_ended c, reply_or reply c)

  unfoldable pub set_value : Bytes → Bytes → Context H → Context H
  set_value key val c = record c { values = assign c.values key val }

  unfoldable pub get_value : Bytes → Bytes → Context H → Bytes
  get_value key default c = elim (lookup c.values key) [ none ↦ default | some v ↦ v ]

  unfoldable pub has_value : Bytes → Context H → Bool
  has_value key c = elim (lookup c.values key) [ none ↦ false | some _ ↦ true ]

  unfoldable pub full_path : Context H → Bytes
  full_path c =
      if not (contains_char 63 c.req.path) && not (is_empty c.req.query_params)
      then query_loop true (c.req.path ++ codes "?") c.req.query_params
      else c.req.path

  -- `erase` is `headers.erase(key)`.
  unfoldable pub remove_header : (Bytes → H → H) → Bytes → Context H → Context H
  remove_header erase key c = record c {
    resp = record c.resp { headers = erase key c.resp.headers };
  }

  unfoldable pub erase_request_header : (Bytes → H → H) → Bytes → Context H → Context H
  erase_request_header erase key c = record c {
    req = record c.req { headers = erase key c.req.headers };
  }

  unfoldable pub set_cookie : Bytes → Bytes → Bytes → ℤ → Bool → ℤ → Context H → Context H
  set_cookie name value path max_age http_only site c =
      let cookie : Cookie = record {
        name = name;
        value = value;
        path = path;
        max_age = max_age;
        http_only = http_only;
        same_site = same_site_of site;
      } in
      record c { resp = record c.resp { cookies = c.resp.cookies ++ (cookie ∷ []) } }

  unfoldable pub http_version : Context H → ℕ
  http_version c = c.req.http_major * 10 + c.req.http_minor

  unfoldable pub mark_streaming_handoff : Context H → Context H
  mark_streaming_handoff c = record c { streaming_handoff = true }

  unfoldable pub is_streaming_handoff : Context H → Bool
  is_streaming_handoff c = c.streaming_handoff

-- The context around a request and a response of libhv: without a writer for a synchronous
-- handler, with its writer for one that takes the whole HttpContext.
unfoldable pub context :
    {H : Type 0} → Request H → Response H → Option (List WriterCall) → Context H
context r s w = record { req = r; resp = s; values = []; streaming_handoff = false; writer = w }
