-- ===== src/HvTransport.antt =====
-- The server transport of src/HvTransport.cpp and include/fw/HvTransport.hpp. libhv's server is the
-- fields that are set before it starts; what `newSslCtx` and `start` answer are functions of them.
-- A `char` array is the list of its bytes, and a C string ends before its first zero.
pub mod Host
mod Tests
use alkaidlab_fw.Base.{
  ℕ, zero, suc, ◌-◌, List, [], ◌∷◌, Option, none, some, Bool, true, false, not, ◌==◌, ◌>>=◌,
  if◌then◌else◌, Bytes, codes, length, replicate,
}
use alkaidlab_fw.Base.Int.{ℤ, pos, negsuc}
use alkaidlab_fw.Router.{Router, Service, bind}

-- The C string at the start of some bytes.
unfoldable pub c_string : Bytes → Bytes
c_string [] = []
c_string (c ∷ s) = let rest = c_string s in if c == 0 then [] else c ∷ rest

-- `buffer[i] = c`; `none` is a store outside the array.
unfoldable pub store : ℕ → ℕ → Bytes → Option Bytes
store i c [] = none
store zero c (b ∷ buffer) = some (c ∷ buffer)
store (suc i) c (b ∷ buffer) = store i c buffer >>= λ rest. some (b ∷ rest)

-- `strncpy(buffer, s, n)` of a C string, which always writes `n` bytes: those of the string, and
-- zeros behind it. `none` is a write outside the array.
unfoldable pub strncpy : ℕ → Bytes → Bytes → Option Bytes
strncpy zero s buffer = some buffer
strncpy (suc n) s [] = none
strncpy (suc n) [] (b ∷ buffer) = strncpy n [] buffer >>= λ rest. some (0 ∷ rest)
strncpy (suc n) (c ∷ s) (b ∷ buffer) = strncpy n s buffer >>= λ rest. some (c ∷ rest)

-- `strncpy(buffer, s, sizeof(buffer) - 1); buffer[sizeof(buffer) - 1] = '\0';`
unfoldable pub copy_host : Bytes → Bytes → Option Bytes
copy_host host buffer = strncpy (length buffer - 1) (c_string host) buffer >>= λ copied.
    store (length buffer - 1) 0 copied

pub record HvServer : Type 0 where
  pub host : Bytes
  pub port : ℤ
  pub https_port : ℤ
  pub has_service : Bool
  pub certificate : Option (Bytes × Bytes)

pub record HvServerTransport (H : Type 0) : Type 0 where
  pub server : HvServer
  pub service : Service H
  pub document_root : Bytes
  pub router : Option (Router H)
  pub port : ℤ
  pub https : Bool
  pub cert_path : Bytes
  pub key_path : Bytes

-- The constructor, around a server with an array of `size` bytes for its host.
unfoldable pub hv_server_transport :
    {H : Type 0} → ℕ → HvServer → Service H → Option (HvServerTransport H)
hv_server_transport size made service =
    strncpy (size - 1) (codes "0.0.0.0") (replicate size 0) >>= λ host. some (record {
      server = record made { host = host };
      service = service;
      document_root = [];
      router = none;
      port = pos 8080;
      https = false;
      cert_path = [];
      key_path = [];
    })

abbrev pub is_zero : ℤ → Bool
is_zero (pos n) = n == 0
is_zero (negsuc n) = false

module _ {H : Type 0} where
  -- `none` is a write outside the server's array.
  unfoldable pub set_host : Bytes → HvServerTransport H → Option (HvServerTransport H)
  set_host host t = copy_host host t.server.host >>= λ copied.
      some (record t { server = record t.server { host = copied } })

  unfoldable pub set_port : ℤ → HvServerTransport H → HvServerTransport H
  set_port port t = record t { port = port }

  unfoldable pub set_https : Bytes → Bytes → HvServerTransport H → HvServerTransport H
  set_https cert_path key_path t = record t {
    https = true;
    cert_path = cert_path;
    key_path = key_path;
  }

  unfoldable pub set_document_root : Bytes → HvServerTransport H → HvServerTransport H
  set_document_root doc_root t = record t { document_root = doc_root }

  unfoldable pub set_router : Option (Router H) → HvServerTransport H → HvServerTransport H
  set_router router t = record t { router = router }

  abbrev pub bound : HvServerTransport H → HvServerTransport H
  bound t = record t {
    service = elim t.router [ none ↦ t.service | some router ↦ bind router t.service ];
    server = record t.server { has_service = true };
  }

  module _ (new_ssl_ctx : Bytes → Bytes → ℤ) (start_server : HvServer → Service H → ℤ) where
    unfoldable pub start : HvServerTransport H → HvServerTransport H × ℤ
    start t =
        let b = bound t in
        let secure = record b.server {
          port = pos 0;
          https_port = t.port;
          certificate =
              if is_zero (new_ssl_ctx t.cert_path t.key_path)
              then some (t.cert_path, t.key_path)
              else b.server.certificate;
        } in
        let plain = record b.server { port = t.port; https_port = pos 0 } in
        if t.https
        then (if not (is_zero (new_ssl_ctx t.cert_path t.key_path))
            then (record b { server = secure }, negsuc 0)
            else (record b { server = secure }, start_server secure b.service))
        else (record b { server = plain }, start_server plain b.service)

  unfoldable pub transport_type : HvServerTransport H → Bytes
  transport_type t = if t.https then codes "https/1.1" else codes "http/1.1"
