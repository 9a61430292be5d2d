-- ===== src/Transport/Http/Tls.antt =====
-- The TLS of src/HttpsTransport.cpp: the options of `configureSsl` and the calls that it makes of
-- libhv and OpenSSL, whose answers are given. Built with OpenSSL 1.1.0 or later. Log lines are left
-- out.
pub mod InUse
pub mod Settings
mod Tests
use alkaidlab_fw.Base.{
  ℕ, List, [], ◌∷◌, ◌++◌, Option, none, some, Bool, true, false, not, ◌&&◌, ◌||◌, ◌==◌,
  if◌then◌else◌, Bytes, codes, bytes_eq, length, map,
}
use alkaidlab_fw.Base.Int.{ℤ, pos, negsuc}
use alkaidlab_fw.Transport.Http.{Http, http_transport, to_upper, disconnect}

pub record SslConfig : Type 0 where
  pub ca_cert_path : Bytes
  pub client_cert_path : Bytes
  pub client_key_path : Bytes
  pub client_key_password : Bytes
  pub verify_peer : Bool
  pub verify_host : Bool
  pub ssl_version : Bytes
  pub session_reuse : Bool

abbrev pub default_ssl_config : SslConfig
default_ssl_config = record {
  ca_cert_path = [];
  client_cert_path = [];
  client_key_path = [];
  client_key_password = [];
  verify_peer = true;
  verify_host = true;
  ssl_version = codes "TLS1.2";
  session_reuse = true;
}

-- `hssl_ctx_opt_t` of a client; a null pointer is `none`.
pub record SslOptions : Type 0 where
  pub crt_file : Option Bytes
  pub key_file : Option Bytes
  pub ca_file : Option Bytes
  pub ca_path : Option Bytes
  pub verify_peer : Bool

abbrev pub unless_empty : Bytes → Option Bytes
unless_empty s = if length s == 0 then none else some s

-- `path.back() == '/'`
abbrev pub ends_in_slash : Bytes → Bool
ends_in_slash [] = false
ends_in_slash (c ∷ []) = c == b'/'
ends_in_slash (c ∷ d ∷ s) = ends_in_slash (d ∷ s)

unfoldable pub options_of : SslConfig → SslOptions
options_of config = record {
  crt_file = unless_empty config.client_cert_path;
  key_file = unless_empty config.client_key_path;
  ca_file = if ends_in_slash config.ca_cert_path then none else unless_empty config.ca_cert_path;
  ca_path = if ends_in_slash config.ca_cert_path then unless_empty config.ca_cert_path else none;
  verify_peer = config.verify_peer;
}

pub data Version : Type 0 where
  tls1 : Version
  tls1_1 : Version
  tls1_2 : Version
  tls1_3 : Version

unfoldable pub version_of : Bytes → Option Version
version_of text =
    let upper = map to_upper text in
    if bytes_eq upper (codes "TLS1.0") || bytes_eq upper (codes "TLS1_0")
    then some tls1
    else if bytes_eq upper (codes "TLS1.1") || bytes_eq upper (codes "TLS1_1")
    then some tls1_1
    else if bytes_eq upper (codes "TLS1.2") || bytes_eq upper (codes "TLS1_2")
    then some tls1_2
    else if bytes_eq upper (codes "TLS1.3") || bytes_eq upper (codes "TLS1_3")
    then some tls1_3
    else none

-- A context: the options it was created with, and the bounds set on its version.
pub record SslContext : Type 0 where
  pub options : SslOptions
  pub min_version : Option Version
  pub max_version : Option Version

-- What the libraries answer while one configuration is applied: whether `hssl_ctx_new` gives a
-- context, whether the two bounds are accepted, and the numbers of `setSslCtx` and `newSslCtx`.
pub record Answers : Type 0 where
  pub creates : Bool
  pub sets_min : Bool
  pub sets_max : Bool
  pub set_ssl_ctx : ℤ
  pub new_ssl_ctx : ℤ

-- What a configuration leaves: the context that the client took, and the number of contexts that
-- the transport created, handed to the client and freed.
pub record Applied : Type 0 where
  pub taken : Option SslContext
  pub created : ℕ
  pub handed : ℕ
  pub freed : ℕ

unfoldable pub set_versions : Answers → Option Version → SslContext → SslContext
set_versions answers none context = context
set_versions answers (some version) context =
    let bounded = record context { min_version = some version } in
    if not answers.sets_min
    then context
    else if not answers.sets_max
    then bounded
    else record bounded { max_version = some version }

abbrev pub fresh : SslOptions → SslContext
fresh options = record { options = options; min_version = none; max_version = none }

abbrev pub is_zero : ℤ → Bool
is_zero (pos n) = n == 0
is_zero (negsuc n) = false

-- `m_client->newSslCtx(&ssl_opt)`, after which the context is the client's.
unfoldable pub new_context : Answers → SslConfig → Applied
new_context answers config = record {
  taken = if is_zero answers.new_ssl_ctx then some (fresh (options_of config)) else none;
  created = 0;
  handed = 0;
  freed = 0;
}

unfoldable pub hand_over : Answers → SslContext → Applied
hand_over answers context =
    if is_zero answers.set_ssl_ctx
    then record { taken = some context; created = 1; handed = 1; freed = 0 }
    else record { taken = none; created = 1; handed = 0; freed = 1 }

-- `configureSsl`, of a client that exists.
unfoldable pub apply : Answers → SslConfig → Applied
apply answers config =
    if length config.ssl_version == 0
    then new_context answers config
    else if not answers.creates
    then new_context answers config
    else hand_over answers
        (set_versions answers (version_of config.ssl_version) (fresh (options_of config)))

-- The transport: what it shares with `HttpTransport`, its configuration, and the context that
-- the client has been given, `none` for libhv's own.
pub record Https : Type 0 where
  pub http : Http
  pub ssl_config : SslConfig
  pub context : Option SslContext

unfoldable pub configure_ssl : Answers → Https → Https
configure_ssl answers t =
    if not t.http.has_client then t else elim ((apply answers t.ssl_config).taken) [
      | none ↦ t
      | some context ↦ record t { context = some context }
    ]

-- `HttpsTransport(sslConfig)`, where `creates` says whether there is a client.
unfoldable pub https_transport_with : Bool → Answers → SslConfig → Https
https_transport_with creates answers config =
    configure_ssl answers
      (record { http = http_transport creates; ssl_config = config; context = none })

unfoldable pub https_transport : Bool → Answers → Https
https_transport creates answers = https_transport_with creates answers default_ssl_config

unfoldable pub set_ssl_config : Answers → SslConfig → Https → Https
set_ssl_config answers config t = configure_ssl answers (record t { ssl_config = config })

-- The client goes, and its context with it.
unfoldable pub disconnect_tls : Https → Https
disconnect_tls t = record t { http = disconnect t.http; context = none }
