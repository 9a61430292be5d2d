-- ===== src/Application/Server.antt =====
-- The rest of src/Application.cpp: libhv's service and server as the fields that are set before
-- they start. Handlers are the actions on a context that libhv is given bridges to.
use alkaidlab_fw.Base.{List, [], ◌∷◌, ◌++◌, ◌>>=◌, Option, some, Bool, true, false, Bytes}
use alkaidlab_fw.Base.Int.{ℤ}
use alkaidlab_fw.Middleware.{Action}
use alkaidlab_fw.Context.{Context}
use alkaidlab_fw.Router.{Router, Service, bind, is_zero}
use alkaidlab_fw.HvTransport.{copy_host}
use alkaidlab_fw.Application.{Application, enable_ssl}

pub record Proxies : Type 0 where
  pub targets : List (Bytes × Bytes)
  pub connect_timeout : ℤ
  pub read_timeout : ℤ
  pub write_timeout : ℤ

pub record Server (H : Type 0) : Type 0 where
  pub application : Application
  pub service : Service H
  pub header_handler : Option (Action (Context H))
  pub middleware : List (Action (Context H))
  pub document_root : Bytes
  pub statics : List (Bytes × Bytes)
  pub host : Bytes
  pub worker_threads : ℤ
  pub keepalive_timeout : ℤ
  pub limit_rate : ℤ
  pub proxies : Proxies
  pub certificate : Option (Bytes × Bytes)
  pub has_service : Bool

module _ {H : Type 0} where
  unfoldable pub set_header_handler : Action (Context H) → Server H → Server H
  set_header_handler fn s = record s { header_handler = some fn }

  unfoldable pub use_handler : Action (Context H) → Server H → Server H
  use_handler fn s = record s { middleware = s.middleware ++ (fn ∷ []) }

  unfoldable pub set_error_handler : Action (Context H) → Server H → Server H
  set_error_handler fn s = record s { service = record s.service { error_handler = some fn } }

  unfoldable pub set_postprocessor : Action (Context H) → Server H → Server H
  set_postprocessor fn s = record s { service = record s.service { postprocessor = some fn } }

  unfoldable pub set_document_root : Bytes → Server H → Server H
  set_document_root path s = record s { document_root = path }

  unfoldable pub mount_static : Bytes → Bytes → Server H → Server H
  mount_static url_prefix dir s = record s { statics = s.statics ++ ((url_prefix, dir) ∷ []) }

  unfoldable pub mount : Router H → Server H → Server H
  mount router s = record s { service = bind router s.service }

  -- `none` is a write outside the server's array.
  unfoldable pub set_host : Bytes → Server H → Option (Server H)
  set_host host s = copy_host host s.host >>= λ copied. some (record s { host = copied })

  unfoldable pub set_worker_threads : ℤ → Server H → Server H
  set_worker_threads n s = record s { worker_threads = n }

  unfoldable pub set_keepalive_timeout : ℤ → Server H → Server H
  set_keepalive_timeout ms s = record s { keepalive_timeout = ms }

  unfoldable pub set_limit_rate : ℤ → Server H → Server H
  set_limit_rate kbps s = record s { limit_rate = kbps }

  unfoldable pub proxy : Bytes → Bytes → Server H → Server H
  proxy url_prefix target_url s = record s {
    proxies = record s.proxies { targets = s.proxies.targets ++ ((url_prefix, target_url) ∷ []) };
  }

  unfoldable pub set_proxy_timeout : ℤ → ℤ → ℤ → Server H → Server H
  set_proxy_timeout connect_ms read_ms write_ms s = record s {
    proxies = record s.proxies {
      connect_timeout = connect_ms;
      read_timeout = read_ms;
      write_timeout = write_ms;
    };
  }

  -- `enableSsl`, with what `newSslCtx` answers for the two files.
  unfoldable pub enable_ssl_with : (Bytes → Bytes → ℤ) → Bytes → Bytes → Server H → Server H × Bool
  enable_ssl_with new_ssl_ctx cert_file key_file s = (
    record s {
      application = enable_ssl s.application;
      certificate = elim (is_zero (new_ssl_ctx cert_file key_file)) [
        | true ↦ some (cert_file, key_file)
        | false ↦ s.certificate
      ];
    },
    is_zero (new_ssl_ctx cert_file key_file),
  )

  unfoldable pub start : (Server H → ℤ) → Server H → Server H × ℤ
  start start_server s = let whole = record s { has_service = true } in (whole, start_server whole)
