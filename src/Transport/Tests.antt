-- ===== src/Transport/Tests.antt =====
-- Runs of the transports.
use alkaidlab_fw.Base.{
  ◌≡◌, refl, arith, inl, inr, List, [], ◌∷◌, none, some, Bool, true, false, Bytes, codes, length,
  take, lower,
}
use alkaidlab_fw.Base.Int.{ℤ, pos, negsuc}
use alkaidlab_fw.Base.Stoi.{stoi}
use alkaidlab_fw.Transport.{Request, Response, fail, succeed, Round, wait_tcp}
use alkaidlab_fw.Transport.Url.{
  WsUrl, trim, trim_left, trim_right, host_port, port_position, split_scheme, ws_path,
  parse_tcp_url, parse_ws_url,
}
use alkaidlab_fw.Transport.Tcp.{Tcp, Network, tcp_transport, frame, take_packet, send_request}
use alkaidlab_fw.Transport.Tcp.Frame.{frame_lem, number}
use alkaidlab_fw.Transport.Tcp.Errors.{IsAnswered, IsTimed, send_request-IsAnswered}
use alkaidlab_fw.Transport.Tcp.Late.{connected_to, IsSmooth, send_request_late}
use alkaidlab_fw.Transport.WebSocket
use alkaidlab_fw.Jwt.Blacklist.{less}
use alkaidlab_fw.Transport.Http.{Headers, parse_headers, build_headers_string}
use alkaidlab_fw.Transport.Http.RoundTrip.{IsHeaders, parse_headers-build_headers_string}
use alkaidlab_fw.Transport.WebSocket.{Ws, Peer, ws_transport, ws_transport_ssl}
use alkaidlab_fw.Transport.WebSocket.Refused.{refusing, patient, closed_on, refusal_by_constructor}

abbrev idle : Tcp
idle = tcp_transport true

abbrev blank : Response
blank = record { status_code = pos 0; headers = []; body = []; error_message = [] }

abbrev url : Bytes
url = codes "tcp://db:5000"

abbrev asked : Request
asked = record {
  url = url;
  method = [];
  headers = [];
  body = codes "ping";
  timeout = negsuc 0;
  connect_timeout = negsuc 0;
  read_timeout = negsuc 0;
}

abbrev round : Bool → ℤ → Round
round connected elapsed = record {
  connected = connected;
  failed = false;
  elapsed = elapsed;
  client_connected = false;
}

abbrev network : List Round → Network
network rounds = record {
  create_error = none;
  socket = pos 7;
  rounds = rounds;
  joined_still = true;
  client_kept = true;
  sent = pos 8;
  still_connected = true;
  has_channel = true;
  arrived = [];
  notified = false;
  arrived_later = [];
}

url_runs : parse_tcp_url url ≡ some (codes "db", pos 5000)
unfolding parse_tcp_url trim trim_right trim_left host_port port_position split_scheme stoi
url_runs = refl

ws_runs :
    parse_ws_url (codes "WSS://h/chat")
    ≡ some (record { scheme = codes "wss"; host = codes "h"; port = pos 443; path = codes "/chat" })
unfolding parse_ws_url trim trim_right trim_left host_port port_position split_scheme stoi lower
    ws_path
ws_runs = refl

frame_lem_example :
    (number 0 (take 4 (frame (codes "ping"))) ≡ length (frame (codes "ping")))
    × (take_packet (frame (codes "ping") ∷ []) idle blank
        ≡ succeed (codes "ping") (record idle { packets = [] }) blank)
frame_lem_example = frame_lem (codes "ping") [] idle blank (omega arith)

abbrev never : Network
never = network (round false (pos 100) ∷ round false (pos 3050) ∷ [])

idle-IsTimed : IsTimed blank never asked idle
unfolding tcp_transport
idle-IsTimed = (refl, inr (inl refl))

-- The connection is never made, and the clock passes the 3 seconds of the transport.
send_request-IsAnswered_example : IsAnswered blank (send_request never asked idle blank)
send_request-IsAnswered_example = send_request-IsAnswered blank never asked idle idle-IsTimed

abbrev at_once : Network
at_once = network (round true (pos 0) ∷ [])

abbrev stale : Tcp
stale = connected_to (codes "db") (pos 5000) (pos 3000) (pos 30000) (0 ∷ 0 ∷ 0 ∷ 5 ∷ 65 ∷ []) []

stale-IsSmooth : IsSmooth at_once asked stale
unfolding wait_tcp
stale-IsSmooth = record {
  joins = refl;
  joined_on = refl;
  fits = refl;
  kept = refl;
  sends = refl;
  holds = refl;
  has_time = elim [ true ↦ refl | false ↦ refl ];
}

-- Nothing comes from the peer, and the request is answered by what stood in the queue.
send_request_late_example :
    send_request at_once asked stale blank
    ≡ some (succeed (65 ∷ []) (record stale { packets = [] }) blank)
send_request_late_example =
    send_request_late (codes "db") (pos 5000) (pos 3000) (pos 30000) (0 ∷ 0 ∷ 0 ∷ 5 ∷ 65 ∷ []) []
      at_once asked blank refl url_runs stale-IsSmooth

abbrev ws_asked : Request
ws_asked = record asked { url = codes "wss://h/chat" }

abbrev ws_target : WsUrl
ws_target = record { scheme = codes "wss"; host = codes "h"; port = pos 443; path = codes "/chat" }

ws_parsed : parse_ws_url ws_asked.url ≡ some ws_target
unfolding parse_ws_url trim trim_right trim_left host_port port_position split_scheme stoi lower
    ws_path
ws_parsed = refl

abbrev peer : Peer
peer = record {
  open_result = pos 0;
  at_open = [];
  rounds = [];
  behind_wait = [];
  client_kept = true;
  send_result = pos 0;
  behind_send = [];
  notified = false;
  while_waiting = [];
}

refusal_by_constructor_example :
    (WebSocket.send_request
        (refusing (pos 100 ∷ pos 200 ∷ []) peer)
        (patient ws_asked)
        (ws_transport true)
        blank
      ≡ some (
          fail
            (codes "Connection refused/closed to wss://h/chat")
            (closed_on true (codes "wss://h/chat"))
            blank))
    × (WebSocket.send_request
          (refusing (pos 100 ∷ pos 200 ∷ []) peer)
          (patient ws_asked)
          (ws_transport_ssl true)
          blank
        ≡ none)
refusal_by_constructor_example =
    refusal_by_constructor peer ws_asked blank ws_target (pos 100) (pos 200 ∷ []) ws_parsed refl

abbrev fields : Headers
fields = (codes "a", codes "1, 2") ∷ (codes "b", codes "x:y") ∷ []

fields-IsHeaders : IsHeaders fields
unfolding less trim trim_right trim_left lower
fields-IsHeaders = (
  record {
    key_line = (refl, tt);
    key_colon = (refl, tt);
    key_trim = refl;
    key_lower = refl;
    key_some = refl;
    value_line = (refl, (refl, (refl, (refl, tt))));
    value_trim = refl;
    value_some = refl;
  },
  (
    (refl, tt),
    (
      record {
        key_line = (refl, tt);
        key_colon = (refl, tt);
        key_trim = refl;
        key_lower = refl;
        key_some = refl;
        value_line = (refl, (refl, (refl, tt)));
        value_trim = refl;
        value_some = refl;
      },
      (tt, tt),
    ),
  ),
)

parse_headers-build_headers_string_example : parse_headers (build_headers_string fields) ≡ fields
parse_headers-build_headers_string_example =
    parse_headers-build_headers_string fields fields-IsHeaders
