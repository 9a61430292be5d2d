-- ===== src/Transport.antt =====
-- The client transports: the requests and responses of include/fw/TransportTypes.hpp and the wait
-- for a connection that src/TcpTransport.cpp and src/WebSocketTransport.cpp share. The network is
-- given by what the code reads of it.
pub mod Url
pub mod Tcp
pub mod WebSocket
pub mod Http
mod Tests
use alkaidlab_fw.Base.{
  ℕ, List, [], ◌∷◌, Option, none, some, Bool, true, false, ◌&&◌, if◌then◌else◌, Bytes, codes,
}
use alkaidlab_fw.Base.Int.{ℤ, pos, negsuc, leb_ℤ, ltb_ℤ}

-- A timeout of -1 stands for the transport's own.
pub record Request : Type 0 where
  pub url : Bytes
  pub method : Bytes
  pub headers : Bytes
  pub body : Bytes
  pub timeout : ℤ
  pub connect_timeout : ℤ
  pub read_timeout : ℤ

pub record Response : Type 0 where
  pub status_code : ℤ
  pub headers : Bytes
  pub body : Bytes
  pub error_message : Bytes

unfoldable pub is_success : Response → Bool
is_success r = leb_ℤ (pos 200) r.status_code && ltb_ℤ r.status_code (pos 300)

-- What a call leaves: the transport, the number returned, and the response.
pub record Reply (T : Type 0) : Type 0 where
  pub transport : T
  pub code : ℤ
  pub response : Response

-- `resp.statusCode = -1; resp.errorMessage = ...; return -1;`
unfoldable pub fail : {T : Type 0} → Bytes → T → Response → Reply T
fail message t resp = record {
  transport = t;
  code = negsuc 0;
  response = record resp { status_code = negsuc 0; error_message = message };
}

unfoldable pub succeed : {T : Type 0} → Bytes → T → Response → Reply T
succeed body t resp = record {
  transport = t;
  code = pos 0;
  response = record resp { status_code = pos 200; body = body };
}

-- `(given >= 0) ? given : own`
abbrev pub timeout_of : ℤ → ℤ → ℤ
timeout_of given own = if leb_ℤ (pos 0) given then given else own

-- What a round of the loop that waits for the connection reads: the two flags that callbacks set,
-- the milliseconds since the loop began, and the state of libhv's client.
pub record Round : Type 0 where
  pub connected : Bool
  pub failed : Bool
  pub elapsed : ℤ
  pub client_connected : Bool

pub data Waited : Type 0 where
  joined : Waited
  refused : Waited
  late : ℤ → Waited

-- The loop of `TcpTransport::sendRequest`; each round looks at the flag for success, at the one for
-- failure, waits, and then looks at the clock and at the client. `none` is a loop that goes on
-- behind the rounds given. A timeout of 0 or less is none.
unfoldable pub wait_tcp : ℤ → List Round → Option Waited
wait_tcp timeout [] = none
wait_tcp timeout (r ∷ rounds) =
    let more = wait_tcp timeout rounds in
    if r.connected
    then some joined
    else if r.failed
    then some refused
    else if ltb_ℤ (pos 0) timeout && leb_ℤ timeout r.elapsed
    then some (late r.elapsed)
    else if r.client_connected
    then some joined
    else more
