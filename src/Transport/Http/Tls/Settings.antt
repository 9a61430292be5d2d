-- ===== src/Transport/Http/Tls/Settings.antt =====
-- The timeouts of src/HttpsTransport.cpp, each set under the lock of the client.
use alkaidlab_fw.Base.Int.{ℤ}
use alkaidlab_fw.Transport.Http.Tls.{Https}

unfoldable pub set_timeout : ℤ → Https → Https
set_timeout milliseconds t = record t { http = record t.http { timeout = milliseconds } }

unfoldable pub set_connect_timeout : ℤ → Https → Https
set_connect_timeout milliseconds t = record t {
  http = record t.http { connect_timeout = milliseconds };
}

unfoldable pub set_read_timeout : ℤ → Https → Https
set_read_timeout milliseconds t = record t { http = record t.http { read_timeout = milliseconds } }

unfoldable pub set_write_timeout : ℤ → Https → Https
set_write_timeout milliseconds t = record t {
  http = record t.http { write_timeout = milliseconds };
}

unfoldable pub set_close_timeout : ℤ → Https → Https
set_close_timeout milliseconds t = record t {
  http = record t.http { close_timeout = milliseconds };
}

unfoldable pub set_keepalive_timeout : ℤ → Https → Https
set_keepalive_timeout milliseconds t = record t {
  http = record t.http { keepalive_timeout = milliseconds };
}
