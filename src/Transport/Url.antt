-- ===== src/Transport/Url.antt =====
-- The URLs of the transports (src/TcpTransport.cpp, src/WebSocketTransport.cpp and
-- src/HttpTransport.cpp, `parseUrl`).
use alkaidlab_fw.Base.{
  ℕ, suc, ◌-◌, [], ◌∷◌, Option, none, some, ◌||◌, ◌==◌, ltb, if◌then◌else◌, ◌>>=◌, or_else, Bytes,
  codes, bytes_eq, length, take, drop, find, find_text, lower,
}
use alkaidlab_fw.Base.Int.{ℤ, pos, negsuc}
use alkaidlab_fw.Base.Stoi.{is_space, stoi}

-- `boost::trim`
unfoldable pub trim_left : Bytes → Bytes
trim_left [] = []
trim_left (c ∷ s) = let rest = trim_left s in if is_space c then rest else c ∷ s

abbrev pub keep_unless_space : ℕ → Bytes → Bytes
keep_unless_space c [] = if is_space c then [] else c ∷ []
keep_unless_space c (d ∷ s) = c ∷ d ∷ s

unfoldable pub trim_right : Bytes → Bytes
trim_right [] = []
trim_right (c ∷ s) = keep_unless_space c (trim_right s)

unfoldable pub trim : Bytes → Bytes
trim s = trim_right (trim_left s)

-- What stands in front of `://` and behind it; without it all stands behind.
unfoldable pub split_scheme : Bytes → Option Bytes × Bytes
split_scheme s = elim (find_text (codes "://") s) [
  | none ↦ (none, s)
  | some found ↦ (some (take (length s - length found) s), drop 3 found)
]

-- A colon with no slash before it is followed by the port; the positions count from the host on.
unfoldable pub port_position : Bytes → Option ℕ
port_position rest = elim (find b':' rest) [
  | none ↦ none
  | some colon ↦ elim (find b'/' rest) [
    | none ↦ some colon
    | some slash ↦ if ltb colon slash then some colon else none
  ]
]

abbrev pub host_end : Bytes → ℕ
host_end rest = or_else (find b'/' rest) (length rest)

-- The host and the port, 0 where the URL has none.
unfoldable pub host_port : Bytes → Option (Bytes × ℤ)
host_port rest = elim (port_position rest) [
  | none ↦ some (take (host_end rest) rest, pos 0)
  | some colon ↦ stoi (take (host_end rest - colon - 1) (drop (suc colon) rest)) >>= λ port.
      some (take colon rest, port)
]

abbrev pub nonempty_host : Bytes → ℤ → Option (Bytes × ℤ)
nonempty_host [] port = none
nonempty_host (c ∷ host) port = some (c ∷ host, port)

abbrev pub or_default : ℤ → ℤ → ℤ
or_default default (pos n) = if n == 0 then default else pos n
or_default default (negsuc n) = negsuc n

-- `TcpTransport::parseUrl`
unfoldable pub parse_tcp_url : Bytes → Option (Bytes × ℤ)
parse_tcp_url url = elim (trim url) [
  | [] ↦ none
  | c ∷ s ↦ host_port (split_scheme (c ∷ s)).1 >>= λ found.
      nonempty_host (trim found.0) (or_default (pos 80) found.1)
]

pub record WsUrl : Type 0 where
  pub scheme : Bytes
  pub host : Bytes
  pub port : ℤ
  pub path : Bytes

abbrev pub ws_scheme : Option Bytes → Bytes
ws_scheme none = codes "ws"
ws_scheme (some scheme) = lower scheme

abbrev pub ws_default_port : Bytes → ℤ
ws_default_port scheme =
    if bytes_eq scheme (codes "wss") || bytes_eq scheme (codes "https") then pos 443 else pos 80

unfoldable pub ws_path : Bytes → Bytes
ws_path rest = elim (find b'/' rest) [ none ↦ codes "/" | some slash ↦ drop slash rest ]

abbrev pub ws_url : Bytes → Bytes → Bytes × ℤ → Option WsUrl
ws_url scheme path found =
    nonempty_host (trim found.0) (or_default (ws_default_port scheme) found.1) >>= λ target.
    some (record { scheme = scheme; host = target.0; port = target.1; path = path })

-- `WebSocketTransport::parseUrl`
unfoldable pub parse_ws_url : Bytes → Option WsUrl
parse_ws_url url = elim (trim url) [
  | [] ↦ none
  | c ∷ s ↦
      let (scheme, rest) = split_scheme (c ∷ s) in
      host_port rest >>= ws_url (ws_scheme scheme) (ws_path rest)
]

abbrev pub scheme_or : Bytes → Option Bytes → Bytes
scheme_or default none = default
scheme_or default (some scheme) = lower scheme

abbrev pub http_url : Bytes → Bytes → Bytes × ℤ → Option WsUrl
http_url scheme path found =
    nonempty_host (trim found.0)
      (or_default (if bytes_eq scheme (codes "https") then pos 443 else pos 80) found.1)
    >>= λ target. some (record { scheme = scheme; host = target.0; port = target.1; path = path })

-- `HttpTransport::parseUrl` and `HttpsTransport::parseUrl`, with the scheme of a URL without one.
unfoldable pub parse_http_url : Bytes → Bytes → Option WsUrl
parse_http_url default url = elim (trim url) [
  | [] ↦ none
  | c ∷ s ↦
      let (scheme, rest) = split_scheme (c ∷ s) in
      host_port rest >>= http_url (scheme_or default scheme) (ws_path rest)
]
