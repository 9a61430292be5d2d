-- ===== src/Transfer/Route.antt =====
-- An asynchronous route whose handler sends a file by src/StreamTransfer.cpp: what the task of
-- src/Router.cpp and the transfer do to the response's writer together.
use alkaidlab_fw.Base.{
  ℕ, zero, suc, ◌≡◌, refl, sym, List, [], ◌∷◌, some, true, false, Bytes, codes, if_both, drop,
  subst,
}
use alkaidlab_fw.Base.Int.{ℤ, pos, negsuc, pos_part}
use alkaidlab_fw.Middleware.{execute, run}
use alkaidlab_fw.Context.{
  Context, Request, Response, context, set_header, set_status, end_headers, end_response,
  has_writer, mark_streaming_handoff, headers_ended, response_ended,
}
use alkaidlab_fw.Router.{Called, finished, Task, innermost, end_unless, run_task}
use alkaidlab_fw.Router.Requests.{Ends}
use alkaidlab_fw.Transfer.{
  TransferStats, TransferParams, record_start, is_range, send_len, send_start,
}
use alkaidlab_fw.Transfer.Stream.{
  Event, Sent, send, send_nothing, begin_stream, started, transfer_headers, transfer_status,
}

-- Of `n` bytes, how often the transfer's `send` and the task end the response.
abbrev pub ends_of : ℕ → ℕ
ends_of zero = 2
ends_of (suc n) = 0

module _ {H : Type 0} (put : Bytes → Bytes → H → H) (typed : Bytes → Response H → Response H)
    (reply : ℤ) (during at_end : List Event) (bytes : Bytes) (p : TransferParams)
    (stats : TransferStats) where
  -- `setContentTypeByFilename`, which changes the response.
  abbrev pub type_by_name : Bytes → Context H → Context H
  type_by_name name c = record c { resp = typed name c.resp }

  abbrev pub sending : Context H → Called (Context H)
  sending c =
      finished (send put type_by_name reply during at_end (some bytes) true p stats c).context

  abbrev pub sending_task : Request H → Response H → Task H
  sending_task req resp = record {
    chain = [];
    handler = sending;
    req = req;
    resp = resp;
    writer = some [];
  }

  -- A context whose writer has not been called.
  abbrev Untouched : Context H → Type 0
  Untouched c = (c.writer ≡ some []) × (c.streaming_handoff ≡ false)

  ready-Untouched :
      (c : Context H)
      → Untouched c
      → Untouched (transfer_status put type_by_name p (transfer_headers put type_by_name p c))
  unfolding transfer_status transfer_headers set_header set_status
  ready-Untouched c fresh = if_both Untouched (is_range p) (λ _. fresh) (λ _. fresh)

  abbrev over : Context H → Context H
  over c = end_unless c.streaming_handoff c

  ended_twice :
      (c : Context H)
      → Untouched c
      → Ends 2
          (over (end_response reply (end_headers reply (codes "Content-Length") (pos 0) c).0).0)
  unfolding end_response end_headers end_unless
  ended_twice c fresh =
      rw (fresh.0, fresh.1)
        (
          headers_ended (codes "Content-Length") (pos 0) ∷ response_ended ∷ response_ended ∷ [],
          refl,
          refl,
        )

  handed_off :
      (n : ℕ) (unread : Bytes) (after : TransferStats) (c : Context H)
      → Untouched c
      → Ends 0 (over (started put type_by_name reply during unread (pos n) after c).context)
  unfolding started end_headers mark_streaming_handoff end_unless
  handed_off n unread after c fresh =
      rw fresh.0 (headers_ended (codes "Content-Length") (pos n) ∷ [], refl, refl)

  begun-Ends :
      (n : ℕ) (unread : Bytes) (c : Context H)
      → send_len p ≡ pos n
      → Untouched c
      → Ends
          (ends_of n)
          (over (begin_stream put type_by_name reply during at_end unread p stats c).context)
  unfolding begin_stream send_nothing
  begun-Ends n unread c len fresh =
      subst (λ z. Ends (ends_of n) (over (sent z).context)) (sym len) (go n)
    where
      ready : Context H
      ready = transfer_status put type_by_name p (transfer_headers put type_by_name p c)

      counted : TransferStats
      counted = record_start (send_len p) stats

      sent : ℤ → Sent H
      sent z = elim z [
        | pos zero ↦ send_nothing put type_by_name reply during at_end unread counted ready
        | pos (suc n) ↦ started put type_by_name reply during unread (pos (suc n)) counted ready
        | negsuc n ↦ started put type_by_name reply during unread (negsuc n) counted ready
      ]

      go : (n : ℕ) → Ends (ends_of n) (over (sent (pos n)).context)
      go zero = ended_twice ready (ready-Untouched c fresh)
      go (suc n) = handed_off (suc n) unread counted ready (ready-Untouched c fresh)

  -- The task of a route whose handler sends `n` bytes of a file that opens, at a position that can
  -- be sought, with no middleware, and whatever write events run inside `EndHeaders` and `End`: if
  -- there is nothing to send, the response is ended by the transfer and once more by the task;
  -- otherwise neither the transfer's `send` nor the task ends it, so that only the pumps of the
  -- stream do, those that have run inside `EndHeaders` included.
  pub run_task-sending :
      (n : ℕ) (req : Request H) (resp : Response H)
      → send_len p ≡ pos n
      → Ends (ends_of n) (run_task (sending_task req resp))
  unfolding run_task execute run innermost send context has_writer
  run_task-sending n req resp len =
      if_both (λ sent. Ends (ends_of n) (over (Sent.context sent))) (is_range p)
        (λ _.
          begun-Ends n (drop (pos_part (send_start p)) bytes) (context req resp (some [])) len
            (refl, refl))
        (λ _. begun-Ends n bytes (context req resp (some [])) len (refl, refl))
