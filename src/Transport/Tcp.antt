-- ===== src/Transport/Tcp.antt =====
-- The TCP transport of src/TcpTransport.cpp and include/fw/TcpTransport.hpp, one call at a time.
pub mod Frame
pub mod Errors
pub mod Late
pub mod Settings
use alkaidlab_fw.Base.{
  ℕ, zero, suc, ◌+◌, ◌*◌, ◌/◌, ◌%◌, ◌^◌, List, [], ◌∷◌, ◌++◌, Option, none, some, Bool, true, false,
  not, ◌&&◌, ◌||◌, ◌==◌, ltb, if◌then◌else◌, ◌>>=◌, Bytes, codes, bytes_eq, length, drop,
}
use alkaidlab_fw.Base.Int.{ℤ, pos, negsuc, leb_ℤ, ltb_ℤ}
use alkaidlab_fw.Base.Decimal.{decimal_ℤ}
use alkaidlab_fw.Transport.{
  Request, Response, Reply, fail, succeed, timeout_of, Round, Waited, joined, refused, late,
  wait_tcp,
}
use alkaidlab_fw.Transport.Url.{parse_tcp_url}

pub record Tcp : Type 0 where
  pub has_client : Bool
  pub connected : Bool
  pub connect_timeout : ℤ
  pub read_timeout : ℤ
  pub write_timeout : ℤ
  pub close_timeout : ℤ
  pub keepalive_timeout : ℤ
  pub current_host : Bytes
  pub current_port : ℤ
  pub packets : List Bytes

-- What a request meets: what `new TcpClient` throws, if it does, the socket's number, the rounds of
-- the wait for the connection, the connection's flag behind it, whether the client is still there
-- when the data is sent, what `send` answers, the connection's flag and the channel behind it, the
-- packets that arrive before the receiver looks and those that arrive while it waits, and whether
-- its wait was notified.
pub record Network : Type 0 where
  pub create_error : Option Bytes
  pub socket : ℤ
  pub rounds : List Round
  pub joined_still : Bool
  pub client_kept : Bool
  pub sent : ℤ
  pub still_connected : Bool
  pub has_channel : Bool
  pub arrived : List Bytes
  pub notified : Bool
  pub arrived_later : List Bytes

unfoldable pub tcp_transport : Bool → Tcp
tcp_transport creates = record {
  has_client = creates;
  connected = false;
  connect_timeout = pos 3000;
  read_timeout = pos 30000;
  write_timeout = pos 30000;
  close_timeout = pos 5000;
  keepalive_timeout = pos 60000;
  current_host = [];
  current_port = pos 0;
  packets = [];
}

-- A 32-bit number in network order.
unfoldable pub big_endian : ℕ → Bytes
big_endian n = n / 2 ^ 24 % 256 ∷ n / 2 ^ 16 % 256 ∷ n / 2 ^ 8 % 256 ∷ n % 256 ∷ []

-- The length, which counts its own four bytes, and the body.
unfoldable pub frame : Bytes → Bytes
frame body = big_endian ((length body + 4) % 2 ^ 32) ++ body

abbrev pub at_port : Bytes → ℤ → Bytes
at_port host port = host ++ (codes ":" ++ decimal_ℤ port)

unfoldable pub disconnect_internal : Tcp → Tcp
disconnect_internal t = record t {
  connected = if t.has_client then false else t.connected;
  current_host = [];
  current_port = pos 0;
  packets = [];
}

unfoldable pub disconnect : Tcp → Tcp
disconnect t = record t {
  has_client = false;
  connected = if t.has_client then false else t.connected;
  current_host = [];
  current_port = pos 0;
  packets = [];
}

-- The packet at the head of the queue, without its four bytes of length.
unfoldable pub take_packet : List Bytes → Tcp → Response → Reply Tcp
take_packet [] t resp = fail (codes "No packet available") t resp
take_packet (packet ∷ packets) t resp =
    let popped = record t { packets = packets } in
    if ltb (length packet) 4
    then fail (codes "Invalid packet size") popped resp
    else succeed (drop 4 packet) popped resp

-- The wait on an empty queue.
unfoldable pub await_packet : Network → Tcp → Response → Reply Tcp
await_packet net t resp =
    let waited = record t { packets = net.arrived_later } in
    if net.notified
    then take_packet net.arrived_later waited resp
    else fail (codes "Timeout waiting for response") waited resp

unfoldable pub receive_response_with_timeout : ℤ → Network → Tcp → Response → Reply Tcp
receive_response_with_timeout timeout net t resp =
    if not t.connected
    then fail (codes "Not connected, cannot receive response") t resp
    else if leb_ℤ timeout (pos 0)
    then fail (codes "Invalid timeout value") t resp
    else elim t.packets [
      | [] ↦ await_packet net t resp
      | packet ∷ packets ↦ take_packet (packet ∷ packets) t resp
    ]

-- From the frame's size on. The flag of the connection is read again behind `send`.
unfoldable pub exchange : Network → Request → Tcp → Response → Reply Tcp
exchange net req t resp =
    if ltb 0xFFFFFFFB (length req.body)
    then fail (codes "Body too large for TCP frame") t resp
    else if not net.client_kept
    then fail (codes "Client destroyed during send") t resp
    else if ltb_ℤ net.sent (pos 0)
    then fail (codes "Failed to send data") (record t { connected = false }) resp
    else (let told = record t {
      connected = net.still_connected;
      packets = t.packets ++ net.arrived;
    } in
        if not net.still_connected
        then fail (codes "Connection lost before receiving response") told resp
        else receive_response_with_timeout
            (if net.has_channel
              then timeout_of req.read_timeout told.read_timeout
              else told.read_timeout)
            net told resp)

-- What the wait for the connection leads to.
unfoldable pub behind_wait : Network → Request → Bytes → ℤ → Tcp → Response → Waited → Reply Tcp
behind_wait net req host port t resp joined =
    if not net.joined_still
    then fail (codes "Connection failed to " ++ at_port host port) (record t { connected = false })
        resp
    else exchange net req (record t { connected = true }) resp
behind_wait net req host port t resp refused =
    fail (codes "Connection refused/failed to " ++ at_port host port)
      (record t { connected = false }) resp
behind_wait net req host port t resp (late elapsed) =
    fail (codes "Connection timeout to " ++ at_port host port) (disconnect_internal t) resp

abbrev pub wait_and_exchange : Network → Request → Bytes → ℤ → Tcp → Response → Option (Reply Tcp)
wait_and_exchange net req host port t resp =
    wait_tcp (timeout_of req.connect_timeout t.connect_timeout) net.rounds >>= λ waited.
    some (behind_wait net req host port t resp waited)

-- The new connection; the old one's packets are gone, also where no socket can be made.
unfoldable pub reconnect : Network → Request → Bytes → ℤ → Tcp → Response → Option (Reply Tcp)
reconnect net req host port t resp =
    let closed = disconnect_internal t in
    if ltb_ℤ net.socket (pos 0)
    then some (fail (codes "Failed to create socket for " ++ at_port host port) closed resp)
    else wait_and_exchange net req host port
        (record closed { current_host = host; current_port = port }) resp

abbrev pub ℤ_eq : ℤ → ℤ → Bool
ℤ_eq a b = leb_ℤ a b && leb_ℤ b a

abbrev pub needs_reconnect : Bytes → ℤ → Tcp → Bool
needs_reconnect host port t =
    not t.connected || (not (bytes_eq t.current_host host) || not (ℤ_eq t.current_port port))

-- The client, made anew where `disconnect` has dropped it.
unfoldable pub connect_to : Network → Request → Bytes → ℤ → Tcp → Response → Option (Reply Tcp)
connect_to net req host port t resp =
    if t.has_client
    then (if needs_reconnect host port t
        then reconnect net req host port t resp
        else wait_and_exchange net req host port t resp)
    else elim net.create_error [
      | none ↦ reconnect net req host port (record t { has_client = true; connected = false }) resp
      | some what ↦ some (fail (codes "Failed to recreate TcpClient: " ++ what) t resp)
    ]

-- `TcpTransport::sendRequest`; `none` is a wait for the connection that goes on.
unfoldable pub send_request : Network → Request → Tcp → Response → Option (Reply Tcp)
send_request net req t resp = elim (parse_tcp_url req.url) [
  | none ↦ some (fail (codes "Invalid URL format: " ++ req.url) t resp)
  | some (host, port) ↦ connect_to net req host port t resp
]
