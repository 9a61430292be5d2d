-- ===== src/HvTransport/Tests.antt =====
-- The server's host.
use alkaidlab_fw.Base.{ℕ, ◌≡◌, arith, [], none, some, refl, false, codes, length}
use alkaidlab_fw.Base.Int.{pos}
use alkaidlab_fw.HvTransport.{HvServer, HvServerTransport, c_string, strncpy, set_host}
use alkaidlab_fw.HvTransport.Host.{set_host_lem}

abbrev server : HvServer
server = record {
  host = codes "abc";
  port = pos 0;
  https_port = pos 0;
  has_service = false;
  certificate = none;
}

-- An array of three bytes, which an earlier host fills.
abbrev small : HvServerTransport ℕ
small = record {
  server = server;
  service = record { registrations = []; postprocessor = none; error_handler = none };
  document_root = [];
  router = none;
  port = pos 8080;
  https = false;
  cert_path = [];
  key_path = [];
}

-- With one byte more to copy the write leaves the array.
strncpy_beyond : strncpy 4 (codes "::1") (codes "abc") ≡ none
unfolding strncpy
strncpy_beyond = refl

set_host_lem_example :
    (u : HvServerTransport ℕ) × (set_host (codes "::1:2") small ≡ some u)
    × (length u.server.host ≡ 3)
    × (c_string u.server.host ≡ codes "::")
unfolding c_string
set_host_lem_example = set_host_lem (codes "::1:2") small (omega arith)
