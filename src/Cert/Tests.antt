-- ===== src/Cert/Tests.antt =====
-- Runs on certificates.
use alkaidlab_fw.Base.{◌≡◌, refl, true, false, codes}
use alkaidlab_fw.Cert.{Answers, alternative_names, is_ip}

-- The key's file cannot be restricted, nor the certificate's be written.
abbrev disk_full : Answers
disk_full = record {
  makes_context = true;
  inits = true;
  takes_bits = true;
  makes_key = true;
  makes_certificate = true;
  makes_extension = true;
  signs = true;
  opens_key_file = true;
  writes_key_file = true;
  restricts_key_file = false;
  opens_certificate_file = true;
  writes_certificate_file = false;
}

alternative_names_runs :
    alternative_names (codes "10.0.0.1") ≡ codes "IP:10.0.0.1,DNS:localhost,IP:127.0.0.1,IP:::1"
unfolding alternative_names is_ip
alternative_names_runs = refl
