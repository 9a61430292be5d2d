-- ===== src/Transport/Http/Tls/Tests.antt =====
-- Runs of the configuration of TLS.
use alkaidlab_fw.Base.{◌≡◌, refl, List, [], ◌∷◌, some, true, false, codes}
use alkaidlab_fw.Base.Int.{pos, negsuc}
use alkaidlab_fw.Transport.Http.{http_transport}
use alkaidlab_fw.Transport.Http.Tls.{
  SslConfig, default_ssl_config, tls1_3, Answers, apply, options_of, new_context, hand_over,
  set_versions, version_of, configure_ssl, set_ssl_config, https_transport_with,
}
use alkaidlab_fw.Transport.Http.Tls.InUse.{Op, sets, run}

abbrev willing : Answers
willing = record {
  creates = true;
  sets_min = true;
  sets_max = true;
  set_ssl_ctx = pos 0;
  new_ssl_ctx = pos 0;
}

-- libhv takes no context.
abbrev unwilling : Answers
unwilling = record willing { set_ssl_ctx = negsuc 0; new_ssl_ctx = negsuc 0 }

abbrev strict : SslConfig
strict = record default_ssl_config {
  ca_cert_path = codes "/etc/ssl/";
  ssl_version = codes "tls1.3";
}

abbrev lax : SslConfig
lax = record default_ssl_config { verify_peer = false; ssl_version = [] }

-- The second configuration is refused, so the first stays in force.
abbrev ops : List Op
ops = sets unwilling lax ∷ []

run_runs :
    (run ops (https_transport_with true willing strict)).context
    ≡ some (record {
      options = options_of strict;
      min_version = some tls1_3;
      max_version = some tls1_3;
    })
unfolding https_transport_with http_transport set_ssl_config configure_ssl apply new_context
    hand_over set_versions version_of options_of
run_runs = refl
