-- ===== src/Transport/Tcp/Errors.antt =====
-- Every request comes to an end that its response tells (src/TcpTransport.cpp, `sendRequest`).
use alkaidlab_fw.Base.{
  ◌≡◌, ◌≢◌, ◌⊎◌, inl, inr, refl, arith, List, [], ◌∷◌, ◌++◌, Option, none, some, Bool, true, false,
  not, ◌&&◌, Bytes, codes, length, ltb, if_both, ◌>>=◌,
}
use alkaidlab_fw.Base.Int.{ℤ, pos, negsuc, leb_ℤ, ltb_ℤ}
use alkaidlab_fw.Transport.{
  Request, Response, Reply, fail, succeed, timeout_of, Round, Waited, joined, refused, late,
  wait_tcp,
}
use alkaidlab_fw.Transport.Url.{parse_tcp_url}
use alkaidlab_fw.Transport.Tcp.{
  Tcp, Network, disconnect_internal, take_packet, await_packet, receive_response_with_timeout,
  exchange, behind_wait, wait_and_exchange, reconnect, needs_reconnect, connect_to, send_request,
}

-- The reply to a call on `resp`: 0 with the status 200, or -1 with the status -1, an error message
-- and the body as it was.
abbrev pub IsAnswer : {T : Type 0} → Response → Reply T → Type 0
IsAnswer resp r =
    ((r.code ≡ pos 0) × (r.response.status_code ≡ pos 200))
    ⊎ ((r.code ≡ negsuc 0)
        × ((r.response.status_code ≡ negsuc 0)
            × ((r.response.error_message ≢ []) × (r.response.body ≡ resp.body))))

module _ (resp : Response) where
  fail-IsAnswer :
      {T : Type 0} (message : Bytes) (t : T) → message ≢ [] → IsAnswer resp (fail message t resp)
  unfolding fail
  fail-IsAnswer message t some_text = inr (refl, (refl, (some_text, refl)))

  succeed-IsAnswer : {T : Type 0} (body : Bytes) (t : T) → IsAnswer resp (succeed body t resp)
  unfolding succeed
  succeed-IsAnswer body t = inl (refl, refl)

  take_packet-IsAnswer :
      (packets : List Bytes) (t : Tcp) → IsAnswer resp (take_packet packets t resp)
  unfolding take_packet
  take_packet-IsAnswer [] t = fail-IsAnswer _ t (λ e. cc)
  take_packet-IsAnswer (packet ∷ packets) t =
      if_both (IsAnswer resp) (ltb (length packet) 4) (λ _. fail-IsAnswer _ _ (λ e. cc))
        (λ _. succeed-IsAnswer _ _)

  await_packet-IsAnswer : (net : Network) (t : Tcp) → IsAnswer resp (await_packet net t resp)
  unfolding await_packet
  await_packet-IsAnswer net t =
      if_both (IsAnswer resp) net.notified (λ _. take_packet-IsAnswer net.arrived_later _)
        (λ _. fail-IsAnswer _ _ (λ e. cc))

  receive-IsAnswer :
      (timeout : ℤ) (net : Network) (t : Tcp)
      → IsAnswer resp (receive_response_with_timeout timeout net t resp)
  unfolding receive_response_with_timeout
  receive-IsAnswer timeout net t =
      if_both (IsAnswer resp) (not t.connected) (λ _. fail-IsAnswer _ _ (λ e. cc))
        (λ _.
          if_both (IsAnswer resp) (leb_ℤ timeout (pos 0)) (λ _. fail-IsAnswer _ _ (λ e. cc))
            (λ _. go t.packets))
    where
      go :
          (packets : List Bytes)
          → IsAnswer resp (elim packets [
            | [] ↦ await_packet net t resp
            | packet ∷ rest ↦ take_packet (packet ∷ rest) t resp
          ])
      go [] = await_packet-IsAnswer net t
      go (packet ∷ rest) = take_packet-IsAnswer (packet ∷ rest) t

  exchange-IsAnswer :
      (net : Network) (req : Request) (t : Tcp) → IsAnswer resp (exchange net req t resp)
  unfolding exchange
  exchange-IsAnswer net req t =
      if_both (IsAnswer resp) (ltb 0xFFFFFFFB (length req.body)) (λ _. fail-IsAnswer _ _ (λ e. cc))
        (λ _.
          if_both (IsAnswer resp) (not net.client_kept) (λ _. fail-IsAnswer _ _ (λ e. cc))
            (λ _.
              if_both (IsAnswer resp) (ltb_ℤ net.sent (pos 0)) (λ _. fail-IsAnswer _ _ (λ e. cc))
                (λ _.
                  if_both (IsAnswer resp) (not net.still_connected)
                    (λ _. fail-IsAnswer _ _ (λ e. cc)) (λ _. receive-IsAnswer _ net _))))

  behind_wait-IsAnswer :
      (net : Network) (req : Request) (host : Bytes) (port : ℤ) (t : Tcp) (w : Waited)
      → IsAnswer resp (behind_wait net req host port t resp w)
  unfolding behind_wait
  behind_wait-IsAnswer net req host port t joined =
      if_both (IsAnswer resp) (not net.joined_still) (λ _. fail-IsAnswer _ _ (λ e. cc))
        (λ _. exchange-IsAnswer net req _)
  behind_wait-IsAnswer net req host port t refused = fail-IsAnswer _ _ (λ e. cc)
  behind_wait-IsAnswer net req host port t (late elapsed) = fail-IsAnswer _ _ (λ e. cc)

-- The clock has reached the timeout in some round.
abbrev pub Expires : ℤ → List Round → Type 0
Expires timeout [] = ⊥
Expires timeout (r ∷ rounds) = (leb_ℤ timeout r.elapsed ≡ true) ⊎ Expires timeout rounds

abbrev Ends : Option Waited → Type 0
Ends none = ⊥
Ends (some w) = Unit

wait_tcp-Ends :
    (timeout : ℤ) (rounds : List Round)
    → ltb_ℤ (pos 0) timeout ≡ true
    → Expires timeout rounds
    → Ends (wait_tcp timeout rounds)
unfolding wait_tcp
wait_tcp-Ends timeout [] limited over = absurd over
wait_tcp-Ends timeout (r ∷ rounds) limited over =
    if_both Ends r.connected (λ _. tt)
      (λ _.
        if_both Ends r.failed (λ _. tt)
          (λ _.
            if_both Ends (ltb_ℤ (pos 0) timeout && leb_ℤ timeout r.elapsed) (λ _. tt)
              (λ early.
                if_both Ends r.client_connected (λ _. tt)
                  (λ _. wait_tcp-Ends timeout rounds limited (later over early)))))
  where
    later :
        (leb_ℤ timeout r.elapsed ≡ true) ⊎ Expires timeout rounds
        → (ltb_ℤ (pos 0) timeout && leb_ℤ timeout r.elapsed) ≡ false
        → Expires timeout rounds
    later (inl now) early = absurd (both_absurd limited now early)
      where
        both_absurd : {a b : Bool} → a ≡ true → b ≡ true → (a && b) ≡ false → ⊥
        both_absurd {a} {b} p q e = ground (arith, p, q, e)
    later (inr rest) early = rest

-- The request has come back, with an answer.
abbrev pub IsAnswered : {T : Type 0} → Response → Option (Reply T) → Type 0
IsAnswered resp none = ⊥
IsAnswered resp (some r) = IsAnswer resp r

module _ (resp : Response) (net : Network) (req : Request) where
  -- The timeout of the connection is set, and the clock reaches it.
  abbrev pub IsTimed : Tcp → Type 0
  IsTimed t =
      let timeout = timeout_of req.connect_timeout t.connect_timeout in
      (ltb_ℤ (pos 0) timeout ≡ true) × Expires timeout net.rounds

  wait-IsAnswered :
      (host : Bytes) (port : ℤ) (t : Tcp)
      → IsTimed t
      → IsAnswered resp (wait_and_exchange net req host port t resp)
  wait-IsAnswered host port t timed =
      go (wait_tcp (timeout_of req.connect_timeout t.connect_timeout) net.rounds)
        (wait_tcp-Ends _ net.rounds timed.0 timed.1)
    where
      go :
          (o : Option Waited)
          → Ends o
          → IsAnswered resp (o >>= λ w. some (behind_wait net req host port t resp w))
      go none ends = ends
      go (some w) ends = behind_wait-IsAnswer resp net req host port t w

  reconnect-IsAnswered :
      (host : Bytes) (port : ℤ) (t : Tcp)
      → IsTimed t
      → IsAnswered resp (reconnect net req host port t resp)
  unfolding reconnect disconnect_internal
  reconnect-IsAnswered host port t timed =
      if_both (IsAnswered resp) (ltb_ℤ net.socket (pos 0)) (λ _. fail-IsAnswer resp _ _ (λ e. cc))
        (λ _. wait-IsAnswered host port _ timed)

  connect_to-IsAnswered :
      (host : Bytes) (port : ℤ) (t : Tcp)
      → IsTimed t
      → IsAnswered resp (connect_to net req host port t resp)
  unfolding connect_to
  connect_to-IsAnswered host port t timed =
      if_both (IsAnswered resp) t.has_client
        (λ _.
          if_both (IsAnswered resp) (needs_reconnect host port t)
            (λ _. reconnect-IsAnswered host port t timed) (λ _. wait-IsAnswered host port t timed))
        (λ _. go net.create_error)
    where
      go :
          (o : Option Bytes)
          → IsAnswered resp (elim o [
            | none ↦
                reconnect net req host port (record t { has_client = true; connected = false }) resp
            | some what ↦ some (fail (codes "Failed to recreate TcpClient: " ++ what) t resp)
          ])
      go none = reconnect-IsAnswered host port _ timed
      go (some what) = fail-IsAnswer resp _ t (λ e. cc)

  -- With a positive timeout for the connection every request comes back, at the latest in the
  -- round in which the clock reaches the timeout: with 0 and the status 200, or with -1, the status
  -- -1, an error message and the response's body untouched. That holds of every URL, of a
  -- transport in any state, and of whatever the network does.
  pub send_request-IsAnswered :
      (t : Tcp) → IsTimed t → IsAnswered resp (send_request net req t resp)
  unfolding send_request
  send_request-IsAnswered t timed = go (parse_tcp_url req.url)
    where
      go :
          (o : Option (Bytes × ℤ))
          → IsAnswered resp (elim o [
            | none ↦ some (fail (codes "Invalid URL format: " ++ req.url) t resp)
            | some (host, port) ↦ connect_to net req host port t resp
          ])
      go none = fail-IsAnswer resp _ t (λ e. cc)
      go (some (host, port)) = connect_to-IsAnswered host port t timed
