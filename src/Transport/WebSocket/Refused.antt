-- ===== src/Transport/WebSocket/Refused.antt =====
-- A connection that the peer closes before it is open (src/WebSocketTransport.cpp).
use alkaidlab_fw.Base.{
  ◌≡◌, refl, ap, ◌∙◌, ◌>>=◌, List, [], ◌∷◌, ◌++◌, none, some, Bool, true, false, not, Bytes, codes,
  if_false,
}
use alkaidlab_fw.Base.Int.{ℤ, pos}
use alkaidlab_fw.Transport.{Request, Response, fail}
use alkaidlab_fw.Transport.Url.{WsUrl, parse_ws_url}
use alkaidlab_fw.Transport.WebSocket.{
  Ws, fresh, ws_transport, ws_transport_ssl, on_close, closed, WsRound, wait_ws, Peer, reconnect,
  connect_to, is_ws_scheme, send_request, behind_wait,
}

-- A peer that `open` finds and that closes the connection in every round, at the times given.
abbrev pub closing : List ℤ → List WsRound
closing [] = []
closing (time ∷ times) =
    record { callbacks = closed ∷ []; elapsed = time; client_connected = false } ∷ closing times

abbrev pub refusing : List ℤ → Peer → Peer
refusing times peer = record peer { open_result = pos 0; at_open = []; rounds = closing times }

abbrev pub patient : Request → Request
patient req = record req { connect_timeout = pos 0 }

-- The transport that `onclose` leaves behind a refused connection to the URL.
abbrev pub closed_on : Bool → Bytes → Ws
closed_on notes_failure url = record {
  has_client = true;
  notes_failure = notes_failure;
  connected = false;
  connect_failed = notes_failure;
  connect_timeout = pos 3000;
  read_timeout = pos 30000;
  write_timeout = pos 30000;
  close_timeout = pos 5000;
  keepalive_timeout = pos 60000;
  current_url = url;
  messages = [];
}

never_told :
    (times : List ℤ) (url : Bytes) → wait_ws (pos 0) (closing times) (closed_on false url) ≡ none
unfolding wait_ws on_close
never_told [] url = refl
never_told (time ∷ times) url = never_told times url

module _ (peer : Peer) (req : Request) (resp : Response) (target : WsUrl) (time : ℤ)
    (times : List ℤ) (parsed : parse_ws_url req.url ≡ some target)
    (known : is_ws_scheme target.scheme ≡ true) where
  -- Where the peer refuses the connection and the timeout is 0, the transport that was made
  -- without an `SslConfig` reports the refusal in the first round; the one made with an `SslConfig`
  -- goes on waiting however many rounds follow, for its `onclose` does not note the failure.
  pub refusal_by_constructor :
      (send_request (refusing (time ∷ times) peer) (patient req) (ws_transport true) resp
        ≡ some
            (fail (codes "Connection refused/closed to " ++ req.url) (closed_on true req.url) resp))
      × (send_request (refusing (time ∷ times) peer) (patient req) (ws_transport_ssl true) resp
          ≡ none)
  unfolding send_request connect_to reconnect behind_wait wait_ws on_close fresh
  refusal_by_constructor = (
    rw (send_request, parsed) (if_false _ _ (ap not known) ∙ refl),
    rw (send_request, parsed)
        (if_false _ _ (ap not known)
          ∙ ap
              (λ o.
                o >>= λ w. some (behind_wait (refusing (time ∷ times) peer) (patient req) resp w))
              (never_told times req.url)),
  )
