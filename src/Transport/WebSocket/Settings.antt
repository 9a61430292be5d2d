-- ===== src/Transport/WebSocket/Settings.antt =====
-- The timeouts of src/WebSocketTransport.cpp, each set under the lock of the client.
use alkaidlab_fw.Base.Int.{ℤ}
use alkaidlab_fw.Transport.WebSocket.{Ws}

unfoldable pub set_connect_timeout : ℤ → Ws → Ws
set_connect_timeout milliseconds t = record t { connect_timeout = milliseconds }

unfoldable pub set_read_timeout : ℤ → Ws → Ws
set_read_timeout milliseconds t = record t { read_timeout = milliseconds }

unfoldable pub set_write_timeout : ℤ → Ws → Ws
set_write_timeout milliseconds t = record t { write_timeout = milliseconds }

unfoldable pub set_close_timeout : ℤ → Ws → Ws
set_close_timeout milliseconds t = record t { close_timeout = milliseconds }

unfoldable pub set_keepalive_timeout : ℤ → Ws → Ws
set_keepalive_timeout milliseconds t = record t { keepalive_timeout = milliseconds }
