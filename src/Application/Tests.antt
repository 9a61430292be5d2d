-- ===== src/Application/Tests.antt =====
-- Runs of the host names.
use alkaidlab_fw.Base.{lower, ◌≡◌, refl, [], ◌∷◌, codes}
use alkaidlab_fw.Base.Int.{pos}
use alkaidlab_fw.Application.{
  Application, member, add_pieces, pieces, drop_blanks, drop_last_blanks, set_server_name,
  enable_ssl, set_port,
}

abbrev app : Application
app = record {
  port = pos 80;
  https_port = pos 0;
  server_https_port = pos 0;
  allowed_names = codes "example.com" ∷ codes "[::1]" ∷ [];
}

-- Without a port for HTTPS the server's port is gone before it is copied.
enable_ssl_runs : (enable_ssl (set_port (pos 8443) app)).server_https_port ≡ pos 0
unfolding enable_ssl set_port
enable_ssl_runs = refl

set_server_name_runs :
    (set_server_name (codes " A.org,, b.net ") app).allowed_names
    ≡ codes "b.net" ∷ codes "a.org" ∷ []
unfolding set_server_name pieces add_pieces drop_blanks drop_last_blanks lower member
set_server_name_runs = refl
