-- ===== src/Transport/WebSocket.antt =====
-- The WebSocket transport of src/WebSocketTransport.cpp and include/fw/WebSocketTransport.hpp, one
-- call at a time. Libhv's client is given by the callbacks it runs and what its functions answer;
-- exceptions that it throws are left out.
pub mod Refused
pub mod Settings
use alkaidlab_fw.Base.{
  ℕ, List, [], ◌∷◌, ◌++◌, Option, none, some, Bool, true, false, not, ◌&&◌, ◌||◌, if◌then◌else◌,
  ◌>>=◌, Bytes, codes, bytes_eq, ◌==◌, length,
}
use alkaidlab_fw.Base.Int.{ℤ, pos, negsuc, leb_ℤ, ltb_ℤ}
use alkaidlab_fw.Base.Decimal.{decimal_ℤ}
use alkaidlab_fw.Transport.{
  Request, Response, Reply, fail, succeed, timeout_of, Waited, joined, refused, late,
}
use alkaidlab_fw.Transport.Url.{WsUrl, parse_ws_url}
use alkaidlab_fw.Transport.Tcp.{ℤ_eq}

-- `notes_failure` tells whether the `onclose` that the constructor has set writes
-- `m_connectFailed`.
pub record Ws : Type 0 where
  pub has_client : Bool
  pub notes_failure : Bool
  pub connected : Bool
  pub connect_failed : Bool
  pub connect_timeout : ℤ
  pub read_timeout : ℤ
  pub write_timeout : ℤ
  pub close_timeout : ℤ
  pub keepalive_timeout : ℤ
  pub current_url : Bytes
  pub messages : List Bytes

unfoldable pub fresh : Bool → Bool → Ws
fresh notes_failure creates = record {
  has_client = creates;
  notes_failure = notes_failure;
  connected = false;
  connect_failed = false;
  connect_timeout = pos 3000;
  read_timeout = pos 30000;
  write_timeout = pos 30000;
  close_timeout = pos 5000;
  keepalive_timeout = pos 60000;
  current_url = [];
  messages = [];
}

-- The constructor without an argument; the flag says that the client could be made.
abbrev pub ws_transport : Bool → Ws
ws_transport creates = fresh true creates

-- The constructor with an `SslConfig`.
abbrev pub ws_transport_ssl : Bool → Ws
ws_transport_ssl creates = fresh false creates

unfoldable pub on_open : Ws → Ws
on_open w = record w { connected = true }

unfoldable pub on_close : Ws → Ws
on_close w = record w {
  connected = false;
  connect_failed = if w.notes_failure then true else w.connect_failed;
}

unfoldable pub on_message : Bytes → Ws → Ws
on_message text w = record w { messages = w.messages ++ (text ∷ []) }

pub data Callback : Type 0 where
  opened : Callback
  closed : Callback
  message : Bytes → Callback

abbrev pub called : Callback → Ws → Ws
called opened w = on_open w
called closed w = on_close w
called (message text) w = on_message text w

abbrev pub all_called : List Callback → Ws → Ws
all_called [] w = w
all_called (c ∷ cs) w = all_called cs (called c w)

-- A round of the loop that waits for the connection: the callbacks that run while it waits, the
-- milliseconds since the loop began, and the state of libhv's client.
pub record WsRound : Type 0 where
  pub callbacks : List Callback
  pub elapsed : ℤ
  pub client_connected : Bool

-- `none` is a loop that goes on behind the rounds given.
unfoldable pub wait_ws : ℤ → List WsRound → Ws → Option (Ws × Waited)
wait_ws timeout [] w = if w.connected then some (w, joined) else none
wait_ws timeout (r ∷ rounds) w =
    let now = all_called r.callbacks w in
    let more = wait_ws timeout rounds now in
    if w.connected
    then some (w, joined)
    else if now.connect_failed
    then some (now, refused)
    else if ltb_ℤ (pos 0) timeout && leb_ℤ timeout r.elapsed
    then some (now, late r.elapsed)
    else if r.client_connected
    then some (record now { connected = true }, joined)
    else more

-- What a request meets: the answer of `open` and the callbacks until the wait begins, the rounds of
-- the wait, the callbacks behind it, whether the client is still there when the body is sent, the
-- answer of `send` and the callbacks behind it, and, on an empty queue, whether the wait was
-- notified and the callbacks that run while it lasts.
pub record Peer : Type 0 where
  pub open_result : ℤ
  pub at_open : List Callback
  pub rounds : List WsRound
  pub behind_wait : List Callback
  pub client_kept : Bool
  pub send_result : ℤ
  pub behind_send : List Callback
  pub notified : Bool
  pub while_waiting : List Callback

-- The message at the head of the queue.
unfoldable pub take_message : List Bytes → Ws → Response → Reply Ws
take_message [] w resp = fail (codes "No message available") w resp
take_message (text ∷ messages) w resp = succeed text (record w { messages = messages }) resp

unfoldable pub receive_response : Peer → Ws → Response → Reply Ws
receive_response peer w resp =
    let later = all_called peer.while_waiting w in
    if not w.connected
    then fail (codes "No active WebSocket connection") w resp
    else elim w.messages [
      | [] ↦
          if peer.notified
          then take_message later.messages later resp
          else fail (codes "Timeout waiting for WebSocket message") later resp
      | text ∷ messages ↦ take_message (text ∷ messages) w resp
    ]

-- From the look at the flag behind the wait on. An empty body is not sent.
unfoldable pub exchange : Peer → Request → Ws → Response → Reply Ws
exchange peer req w resp =
    if not w.connected
    then fail (codes "Connection failed to " ++ req.url) w resp
    else if length req.body == 0
    then receive_response peer (all_called peer.behind_send w) resp
    else if not peer.client_kept
    then fail (codes "Client destroyed during send") w resp
    else if ltb_ℤ peer.send_result (pos 0)
    then fail (codes "Send failed, error code: " ++ decimal_ℤ peer.send_result)
        (record w { connected = false }) resp
    else receive_response peer (all_called peer.behind_send w) resp

-- What the wait for the connection leads to.
unfoldable pub behind_wait : Peer → Request → Response → Ws × Waited → Reply Ws
behind_wait peer req resp (w, joined) = exchange peer req (all_called peer.behind_wait w) resp
behind_wait peer req resp (w, refused) =
    fail (codes "Connection refused/closed to " ++ req.url) w resp
behind_wait peer req resp (w, late elapsed) =
    fail (codes "Connection timeout to " ++ req.url) w resp

abbrev pub wait_and_exchange : Peer → Request → Ws → Response → Option (Reply Ws)
wait_and_exchange peer req w resp =
    wait_ws (timeout_of req.connect_timeout w.connect_timeout) peer.rounds w >>= λ waited.
    some (behind_wait peer req resp waited)

-- The new connection. The flag of the old one is left as it is.
unfoldable pub reconnect : Peer → Request → Ws → Response → Option (Reply Ws)
reconnect peer req w resp =
    let asked = record w { messages = []; current_url = req.url; connect_failed = false } in
    let failed =
      codes "Failed to connect WebSocket: "
      ++ (decimal_ℤ peer.open_result ++ (codes ", URL: " ++ req.url)) in
    if ℤ_eq peer.open_result (pos 0)
    then wait_and_exchange peer req (all_called peer.at_open asked) resp
    else some (fail failed (all_called peer.at_open asked) resp)

unfoldable pub connect_to : Peer → Request → Ws → Response → Option (Reply Ws)
connect_to peer req w resp =
    if not w.has_client
    then some (fail (codes "WebSocketClient not initialized") w resp)
    else if not w.connected || not (bytes_eq w.current_url req.url)
    then reconnect peer req w resp
    else wait_and_exchange peer req w resp

abbrev pub is_ws_scheme : Bytes → Bool
is_ws_scheme scheme = bytes_eq scheme (codes "ws") || bytes_eq scheme (codes "wss")

-- `WebSocketTransport::sendRequest`; `none` is a wait for the connection that goes on.
unfoldable pub send_request : Peer → Request → Ws → Response → Option (Reply Ws)
send_request peer req w resp = elim (parse_ws_url req.url) [
  | none ↦ some (fail (codes "Invalid URL format: " ++ req.url) w resp)
  | some target ↦
      if not (is_ws_scheme target.scheme)
      then some (fail (codes "Only ws:// and wss:// schemes are supported") w resp)
      else connect_to peer req w resp
]

abbrev pub connect : Ws → Bool
connect w = w.connected && w.has_client

unfoldable pub disconnect : Ws → Ws
disconnect w = record w {
  has_client = false;
  connected = if w.has_client then false else w.connected;
  current_url = [];
  messages = [];
}

abbrev pub is_connected : Bool → Ws → Bool
is_connected client_connected w = w.connected && (w.has_client && client_connected)
