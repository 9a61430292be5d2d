-- ===== src/Transport/Tcp/Settings.antt =====
-- The timeouts of src/TcpTransport.cpp, each set under the lock of the client, and its questions
-- for the connection.
use alkaidlab_fw.Base.{Bool, true, ◌&&◌}
use alkaidlab_fw.Base.Int.{ℤ}
use alkaidlab_fw.Transport.Tcp.{Tcp}

unfoldable pub set_connect_timeout : ℤ → Tcp → Tcp
set_connect_timeout milliseconds t = record t { connect_timeout = milliseconds }

unfoldable pub set_read_timeout : ℤ → Tcp → Tcp
set_read_timeout milliseconds t = record t { read_timeout = milliseconds }

unfoldable pub set_write_timeout : ℤ → Tcp → Tcp
set_write_timeout milliseconds t = record t { write_timeout = milliseconds }

unfoldable pub set_close_timeout : ℤ → Tcp → Tcp
set_close_timeout milliseconds t = record t { close_timeout = milliseconds }

unfoldable pub set_keepalive_timeout : ℤ → Tcp → Tcp
set_keepalive_timeout milliseconds t = record t { keepalive_timeout = milliseconds }

-- A connection is made by a request.
abbrev pub connect : Tcp → Bool
connect t = true

-- The flag is what libhv's client answers.
abbrev pub is_connected : Bool → Tcp → Bool
is_connected client_connected t = t.connected && (t.has_client && client_connected)
