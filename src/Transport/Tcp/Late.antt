-- ===== src/Transport/Tcp/Late.antt =====
-- A packet that is left over from an earlier request (src/TcpTransport.cpp, `sendRequest`).
use alkaidlab_fw.Base.{
  ◌≡◌, refl, arith, ap, ◌∙◌, List, ◌∷◌, ◌++◌, some, Bool, true, false, not, Bytes, bytes_eq_refl,
  length, drop, ltb, if◌then◌else◌, if_false,
}
use alkaidlab_fw.Base.Int.{ℤ, pos, negsuc, leb_ℤ, ltb_ℤ}
use alkaidlab_fw.Transport.{Request, Response, succeed, timeout_of, joined, wait_tcp}
use alkaidlab_fw.Transport.Url.{parse_tcp_url}
use alkaidlab_fw.Transport.Tcp.{
  Tcp, Network, ℤ_eq, take_packet, receive_response_with_timeout, exchange, behind_wait,
  needs_reconnect, connect_to, send_request,
}

-- A transport that is connected to a host, with a packet in its queue.
abbrev pub connected_to : Bytes → ℤ → ℤ → ℤ → Bytes → List Bytes → Tcp
connected_to host port connect_timeout read_timeout packet packets = record {
  has_client = true;
  connected = true;
  connect_timeout = connect_timeout;
  read_timeout = read_timeout;
  write_timeout = pos 30000;
  close_timeout = pos 5000;
  keepalive_timeout = pos 60000;
  current_host = host;
  current_port = port;
  packets = packet ∷ packets;
}

-- A network on which the request meets no trouble.
pub record IsSmooth (net : Network) (req : Request) (t : Tcp) : Type 0 where
  pub joins : wait_tcp (timeout_of req.connect_timeout t.connect_timeout) net.rounds ≡ some joined
  pub joined_on : net.joined_still ≡ true
  pub fits : ltb 0xFFFFFFFB (length req.body) ≡ false
  pub kept : net.client_kept ≡ true
  pub sends : ltb_ℤ net.sent (pos 0) ≡ false
  pub holds : net.still_connected ≡ true
  pub has_time :
      (has_channel : Bool)
      → leb_ℤ
          (if has_channel then timeout_of req.read_timeout t.read_timeout else t.read_timeout)
          (pos 0)
        ≡ false

ℤ_eq_refl : (z : ℤ) → ℤ_eq z z ≡ true
ℤ_eq_refl (pos n) = ground arith
ℤ_eq_refl (negsuc n) = ground arith

module _ (host : Bytes) (port connect_timeout read_timeout : ℤ) (packet : Bytes)
    (packets : List Bytes) (net : Network) (req : Request) (resp : Response) where
  abbrev before : Tcp
  before = connected_to host port connect_timeout read_timeout packet packets

  abbrev after : Tcp
  after = record before { packets = packets ++ net.arrived }

  no_reconnect : needs_reconnect host port before ≡ false
  no_reconnect = rw (bytes_eq_refl host, ℤ_eq_refl port) refl

  exchanged :
      ltb (length packet) 4 ≡ false
      → IsSmooth net req before
      → exchange net req before resp ≡ succeed (drop 4 packet) after resp
  unfolding exchange receive_response_with_timeout take_packet
  exchanged whole smooth =
      if_false _ _ smooth.fits
      ∙ if_false _ _ (ap not smooth.kept)
      ∙ if_false _ _ smooth.sends
      ∙ if_false _ _ (ap not smooth.holds)
      ∙ if_false _ _ (ap not smooth.holds)
      ∙ if_false _ _ (smooth.has_time net.has_channel)
      ∙ if_false _ _ whole
      ∙ ap (λ up. succeed (drop 4 packet) (record after { connected = up }) resp) smooth.holds

  -- On a connection that is used again and stays open, where the body is short enough for a frame,
  -- `send` takes it and the time to wait for the answer is positive, a packet of at least four bytes
  -- that stands in the queue when the request begins is taken for the request's answer, whatever
  -- the peer sends in answer: so the answer to a request that gave up waiting becomes the answer to
  -- the next request.
  pub send_request_late :
      ltb (length packet) 4 ≡ false
      → parse_tcp_url req.url ≡ some (host, port)
      → IsSmooth net req before
      → send_request net req before resp ≡ some (succeed (drop 4 packet) after resp)
  unfolding send_request connect_to behind_wait
  send_request_late whole parsed smooth =
      rw (send_request, parsed)
        (if_false _ _ no_reconnect
          ∙ rw smooth.joins
              (ap some (if_false _ _ (ap not smooth.joined_on) ∙ exchanged whole smooth)))
