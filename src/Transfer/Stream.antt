-- ===== src/Transfer/Stream.antt =====
-- The event-driven transfer of src/StreamTransfer.cpp. A file is the list of the bytes behind its
-- position. `WriteBody` may run the `onwrite` callback before it returns, so a call of `pump` is in
-- two halves, and calls that wait in `WriteBody` are counted.
pub mod Sound
pub mod Progress
pub mod Reentry
use alkaidlab_fw.Base.{
  ℕ, zero, suc, ◌+◌, ◌*◌, List, [], ◌∷◌, ◌++◌, Option, none, some, Bool, true, false, not, ◌==◌,
  if◌then◌else◌, Bytes, codes, length, take, drop,
}
use alkaidlab_fw.Base.Int.{ℤ, pos, negsuc, pos_part, ◌-ℤ◌, leb_ℤ, ltb_ℤ}
use alkaidlab_fw.Context.{
  Context, Response, set_header, set_status, error, has_writer, end_headers, end_response,
  mark_streaming_handoff,
}
use alkaidlab_fw.Transfer.{
  TransferStats, TransferParams, record_start, record_end, is_range, send_start, send_len,
  disposition, content_range,
}

abbrev pub chunk_size : ℕ
chunk_size = 256 * 1024

-- `TransferState`, with what the writer and the callback were given: the bytes of the `WriteBody`
-- calls, the number of `End` calls, and the arguments of `onComplete` calls.
pub record Stream : Type 0 where
  pub unread : Bytes
  pub remaining : ℤ
  pub finished : Bool
  pub hooked : Bool
  pub waiting : ℕ
  pub written : Bytes
  pub ends : ℕ
  pub completions : List Bool
  pub stats : TransferStats

unfoldable pub finish : Bool → Stream → Stream
finish success s = if s.finished then s else record s {
  finished = true;
  hooked = false;
  completions = s.completions ++ (success ∷ []);
  stats = record_end success s.stats;
}

abbrev pub to_read : Stream → ℕ
to_read s = pos_part (if ltb_ℤ s.remaining (pos chunk_size) then s.remaining else pos chunk_size)

-- `remaining -= got`, the hook's removal before the last block, and the call of `WriteBody`.
unfoldable pub write_chunk : Bytes → Stream → Stream
write_chunk chunk s =
    let left = s.remaining -ℤ pos (length chunk) in
    record s {
      remaining = left;
      hooked = if leb_ℤ left (pos 0) then false else s.hooked;
      written = s.written ++ chunk;
      waiting = suc s.waiting;
    }

-- `pump` up to the call of `WriteBody`; the two flags are `isConnected` and `isWriteComplete`.
unfoldable pub pump_enter : Bool → Bool → Stream → Stream
pump_enter connected complete s =
    if s.finished
    then s
    else if not connected
    then finish false s
    else if not complete
    then s
    else (let chunk = take (to_read s) s.unread in
        let after = record s { unread = drop (to_read s) s.unread } in
        if length chunk == 0 then finish false after else write_chunk chunk after)

-- `pump` behind the call; the flag says that `WriteBody` did not fail.
unfoldable pub pump_leave : Bool → Stream → Stream
pump_leave ok s =
    if not ok
    then finish false s
    else if leb_ℤ s.remaining (pos 0)
    then finish true (record s { ends = suc s.ends })
    else s

-- What the event loop does: the write event, which runs the hook if it is set, the return of the
-- innermost `WriteBody`, and the end of the writer, which drops the state that the hook holds.
pub data Event : Type 0 where
  fired : Bool → Bool → Event
  returned : Bool → Event
  destroyed : Event

unfoldable pub step : Event → Stream → Stream
step (fired connected complete) s = if s.hooked then pump_enter connected complete s else s
step (returned ok) s = elim s.waiting [
  | zero ↦ s
  | suc n ↦ pump_leave ok (record s { waiting = n })
]
step destroyed s = elim s.waiting [ zero ↦ finish false s | suc n ↦ s ]

abbrev pub run : List Event → Stream → Stream
run [] s = s
run (e ∷ es) s = run es (step e s)

unfoldable pub start : Bytes → ℤ → TransferStats → Stream
start unread len stats = record {
  unread = unread;
  remaining = len;
  finished = false;
  hooked = true;
  waiting = 0;
  written = [];
  ends = 0;
  completions = [];
  stats = stats;
}

-- What `send` leaves: the context, the statistics and the callback's calls, and the stream that
-- the write events go on with, if there is one.
pub record Sent (H : Type 0) : Type 0 where
  pub context : Context H
  pub stats : TransferStats
  pub completions : List Bool
  pub stream : Option Stream

module _ {H : Type 0} (put : Bytes → Bytes → H → H)
    (type_by_name : Bytes → Context H → Context H) where
  unfoldable pub refuse : Context H → TransferStats → Sent H
  refuse c stats = record {
    context = error put (pos 500) (codes "internal") none c;
    stats = stats;
    completions = false ∷ [];
    stream = none;
  }

  unfoldable pub transfer_headers : TransferParams → Context H → Context H
  transfer_headers p c =
      let named = set_header put (codes "Content-Disposition") (disposition p.display_name) c in
      let ranged = set_header put (codes "Accept-Ranges") (codes "bytes") named in
      type_by_name p.display_name ranged

  unfoldable pub transfer_status : TransferParams → Context H → Context H
  transfer_status p c =
      if is_range p
      then set_header put (codes "Content-Range") (content_range p) (set_status (pos 206) c)
      else set_status (pos 200) c

  abbrev pub end_headers_of : ℤ → ℤ → Context H → Context H
  end_headers_of reply len c = (end_headers reply (codes "Content-Length") len c).0

  -- `during` is what the event loop does inside `EndHeaders`, when the hook is already set.
  unfoldable pub started : ℤ → List Event → Bytes → ℤ → TransferStats → Context H → Sent H
  started reply during unread len stats c =
      let s = run during (start unread len stats) in
      record {
        context = mark_streaming_handoff (end_headers_of reply len c);
        stats = s.stats;
        completions = s.completions;
        stream = some s;
      }

  -- A transfer of nothing: `EndHeaders`, `End` and then `finish`, which says nothing more where a
  -- write event inside of the first two has failed for want of bytes.
  unfoldable pub send_nothing :
      ℤ → List Event → List Event → Bytes → TransferStats → Context H → Sent H
  send_nothing reply during at_end unread stats c =
      let s = finish true (run at_end (run during (start unread (pos 0) stats))) in
      record {
        context = (end_response reply (end_headers_of reply (pos 0) c)).0;
        stats = s.stats;
        completions = s.completions;
        stream = some s;
      }

  unfoldable pub begin_stream :
      ℤ → List Event → List Event → Bytes → TransferParams → TransferStats → Context H → Sent H
  begin_stream reply during at_end unread p stats c =
      let counted = record_start (send_len p) stats in
      let ready = transfer_status p (transfer_headers p c) in
      elim (send_len p) [
        | pos zero ↦ send_nothing reply during at_end unread counted ready
        | pos (suc n) ↦ started reply during unread (pos (suc n)) counted ready
        | negsuc n ↦ started reply during unread (negsuc n) counted ready
      ]

  -- The file opens to its bytes or, as `none`, does not open; `seeks` tells if `seekg` works.
  unfoldable pub send :
      ℤ
      → List Event
      → List Event
      → Option Bytes
      → Bool
      → TransferParams
      → TransferStats
      → Context H
      → Sent H
  send reply during at_end file seeks p stats c =
      if not (has_writer c) then refuse c stats else elim file [
        | none ↦ refuse c stats
        | some bytes ↦
            if is_range p
            then (if seeks
                then begin_stream reply during at_end (drop (pos_part (send_start p)) bytes) p stats
                    c
                else refuse c stats)
            else begin_stream reply during at_end bytes p stats c
      ]
