-- ===== src/Transport/Http.antt =====
-- The HTTP transport of src/HttpTransport.cpp and include/fw/HttpTransport.hpp, and the
-- calls of src/HttpsTransport.cpp that differ from it; libhv's client is a function of the request
-- that it is handed. `read_timeout` and the three after it are only kept.
pub mod RoundTrip
pub mod Tls
pub mod Settings
use alkaidlab_fw.Base.{
  ℕ, zero, suc, ◌+◌, ◌-◌, ◌/◌, ◌%◌, List, [], ◌∷◌, ◌++◌, Option, none, some, Bool, true, false, not,
  ◌&&◌, ◌||◌, ◌==◌, leb, ltb, if◌then◌else◌, or_else, Bytes, codes, bytes_eq, length, take, drop,
  find, lower, map,
}
use alkaidlab_fw.Base.Int.{ℤ, pos, negsuc, leb_ℤ}
use alkaidlab_fw.Base.Decimal.{decimal_ℤ}
use alkaidlab_fw.Jwt.Blacklist.{less}
use alkaidlab_fw.Transport.{Request, Response, Reply, fail, timeout_of}
use alkaidlab_fw.Transport.Url.{trim, WsUrl, parse_http_url}

-- A `std::map` of texts: its entries in the order of the keys.
abbrev pub Headers : Type 0
Headers = List (Bytes × Bytes)

-- `headers[key] = value`
unfoldable pub put : Bytes → Bytes → Headers → Headers
put key value [] = (key, value) ∷ []
put key value ((k, v) ∷ headers) =
    let rest = put key value headers in
    if less key k
    then (key, value) ∷ (k, v) ∷ headers
    else if less k key
    then (k, v) ∷ rest
    else (k, value) ∷ headers

abbrev pub is_line_break : ℕ → Bool
is_line_break c = c == 13 || c == 10

abbrev pub with_first : ℕ → List Bytes → List Bytes
with_first c [] = (c ∷ []) ∷ []
with_first c (line ∷ lines) = (c ∷ line) ∷ lines

-- The text cut at every carriage return and line feed. `boost::split` keeps fewer of the empty
-- lines, which the loop over the lines skips.
unfoldable pub split_lines : Bytes → List Bytes
split_lines [] = [] ∷ []
split_lines (c ∷ s) =
    let rest = split_lines s in if is_line_break c then [] ∷ rest else with_first c rest

unfoldable pub put_trimmed : Bytes → Bytes → Headers → Headers
put_trimmed key value headers =
    if not (length key == 0) && not (length value == 0)
    then put (lower key) value headers
    else headers

-- A line's entry, if it has a colon with something on both sides.
unfoldable pub read_line : Bytes → Headers → Headers
read_line line headers = elim (find b':' line) [
  | none ↦ headers
  | some colon ↦ put_trimmed (trim (take colon line)) (trim (drop (suc colon) line)) headers
]

abbrev pub read_lines : List Bytes → Headers → Headers
read_lines [] headers = headers
read_lines (line ∷ lines) headers = read_lines lines (read_line line headers)

unfoldable pub parse_headers : Bytes → Headers
parse_headers text = read_lines (split_lines text) []

unfoldable pub build_headers_string : Headers → Bytes
build_headers_string [] = []
build_headers_string ((k, v) ∷ headers) =
    k ++ (codes ": " ++ (v ++ (13 ∷ 10 ∷ build_headers_string headers)))

-- `named` is what `http_method_enum` makes of any other text.
pub data HttpMethod : Type 0 where
  http_get : HttpMethod
  http_post : HttpMethod
  http_put : HttpMethod
  http_delete : HttpMethod
  http_head : HttpMethod
  http_options : HttpMethod
  named : Bytes → HttpMethod

abbrev pub to_upper : ℕ → ℕ
to_upper c = if leb 97 c && leb c 122 then c - 32 else c

unfoldable pub method_of : Bytes → HttpMethod
method_of method =
    let upper = map to_upper method in
    if length method == 0
    then http_get
    else if bytes_eq upper (codes "GET")
    then http_get
    else if bytes_eq upper (codes "POST")
    then http_post
    else if bytes_eq upper (codes "PUT")
    then http_put
    else if bytes_eq upper (codes "DELETE")
    then http_delete
    else if bytes_eq upper (codes "HEAD")
    then http_head
    else if bytes_eq upper (codes "OPTIONS")
    then http_options
    else named method

abbrev pub at_most : ℕ → ℕ → ℕ
at_most n limit = if ltb limit n then limit else n

-- `static_cast<uint16_t>(std::min(t / 1000, 65535))`; the division drops the fraction, and the cast
-- wraps a negative number.
unfoldable pub seconds : ℤ → ℕ
seconds (pos n) = at_most (n / 1000) 65535
seconds (negsuc n) = (65536 - suc n / 1000 % 65536) % 65536

pub record HvRequest : Type 0 where
  pub url : Bytes
  pub method : HttpMethod
  pub headers : Headers
  pub body : Bytes
  pub timeout : ℕ
  pub connect_timeout : ℕ

-- libhv's answer; the last two are what its header map has under `reason` and `Reason-Phrase`.
pub record HvResponse : Type 0 where
  pub status_code : ℤ
  pub headers : Headers
  pub body : Bytes
  pub reason : Option Bytes
  pub reason_phrase : Option Bytes

pub data Outcome : Type 0 where
  answered : HvResponse → Outcome
  refused : ℤ → Outcome
  threw : Bytes → Outcome
  threw_other : Outcome

pub record Http : Type 0 where
  pub has_client : Bool
  pub timeout : ℤ
  pub connect_timeout : ℤ
  pub read_timeout : ℤ
  pub write_timeout : ℤ
  pub close_timeout : ℤ
  pub keepalive_timeout : ℤ
  pub connected : Bool

unfoldable pub http_transport : Bool → Http
http_transport creates = record {
  has_client = creates;
  timeout = pos 30000;
  connect_timeout = pos 3000;
  read_timeout = pos 30000;
  write_timeout = pos 30000;
  close_timeout = pos 5000;
  keepalive_timeout = pos 60000;
  connected = false;
}

unfoldable pub hv_request : Http → Request → HvRequest
hv_request t req = record {
  url = req.url;
  method = method_of req.method;
  headers = parse_headers req.headers;
  body = req.body;
  timeout = seconds (timeout_of req.timeout t.timeout);
  connect_timeout = seconds (timeout_of req.connect_timeout t.connect_timeout);
}

abbrev pub reason_of : HvResponse → Bytes
reason_of hv = or_else hv.reason (or_else hv.reason_phrase (codes "Request failed"))

unfoldable pub convert : HvResponse → Response → Response
convert hv resp = record resp {
  status_code = hv.status_code;
  body = hv.body;
  headers = build_headers_string hv.headers;
  error_message =
      if leb_ℤ (pos 400) hv.status_code
      then codes "HTTP " ++ (decimal_ℤ hv.status_code ++ (codes ": " ++ reason_of hv))
      else resp.error_message;
}

unfoldable pub behind_send : Request → Http → Response → Outcome → Reply Http
behind_send req t resp (answered hv) = record {
  transport = record t { connected = true };
  code = pos 0;
  response = convert hv resp;
}
behind_send req t resp (refused ret) =
    fail (codes "Request failed with code: " ++ (decimal_ℤ ret ++ (codes ", URL: " ++ req.url)))
      (record t { connected = false }) resp
behind_send req t resp (threw what) =
    fail (codes "Exception: " ++ what) (record t { connected = false }) resp
behind_send req t resp threw_other =
    fail (codes "Unknown exception") (record t { connected = false }) resp

-- `HttpTransport::sendRequest`
unfoldable pub send_request : (HvRequest → Outcome) → Request → Http → Response → Reply Http
send_request client req t resp =
    if not t.has_client
    then fail (codes "HttpClient not initialized") t resp
    else elim (parse_http_url (codes "http") req.url) [
      | none ↦ fail (codes "Invalid URL format: " ++ req.url) t resp
      | some target ↦
          if not (bytes_eq target.scheme (codes "http"))
          then fail (codes "Only HTTP scheme is supported (use HttpsTransport for HTTPS)") t resp
          else behind_send req t resp (client (hv_request t req))
    ]

-- `HttpsTransport::sendRequest`, whose state has the same fields beside the configuration for TLS.
unfoldable pub send_request_tls : (HvRequest → Outcome) → Request → Http → Response → Reply Http
send_request_tls client req t resp =
    if not t.has_client
    then fail (codes "HttpClient not initialized") t resp
    else elim (parse_http_url (codes "https") req.url) [
      | none ↦ fail (codes "Invalid URL format: " ++ req.url) t resp
      | some target ↦
          if not (bytes_eq target.scheme (codes "http"))
            && not (bytes_eq target.scheme (codes "https"))
          then fail (codes "Only HTTP and HTTPS schemes are supported") t resp
          else behind_send req t resp (client (hv_request t req))
    ]

unfoldable pub receive_response : Http → Response → Reply Http
receive_response t resp =
    if t.connected
    then record { transport = t; code = pos 0; response = resp }
    else fail (codes "No active connection") t resp

unfoldable pub disconnect : Http → Http
disconnect t = record t { has_client = false; connected = false }

abbrev pub is_connected : Http → Bool
is_connected t = t.connected && t.has_client
