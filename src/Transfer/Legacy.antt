-- ===== src/Transfer/Legacy.antt =====
-- The transfer that blocks (src/LegacyTransfer.cpp). What the loops read of the writer is given
-- by a function of the round.
pub mod Bounds
use alkaidlab_fw.Base.{
  ℕ, zero, suc, ◌+◌, ◌-◌, ◌*◌, ◌/◌, ◌||◌, List, [], ◌∷◌, ◌++◌, Option, none, some, Bool, true,
  false, not, ◌&&◌, ◌==◌, ltb, leb, if◌then◌else◌, ◌>>=◌, Bytes, codes, length, take, drop,
  replicate,
}
use alkaidlab_fw.Base.Int.{ℤ, pos, negsuc, pos_part, ltb_ℤ}
use alkaidlab_fw.Context.{
  Context, Response, set_header, set_status, set_body, serve_file, error, has_writer, end_headers,
  end_response,
}
use alkaidlab_fw.Transfer.{
  TransferStats, TransferParams, record_start, record_end, is_range, send_start, send_len,
  disposition, content_range,
}
use alkaidlab_fw.Transfer.Stream.{Sent, chunk_size, transfer_headers, transfer_status}

abbrev pub stream_threshold : ℕ
stream_threshold = 4 * 1024 * 1024

abbrev pub backpressure_threshold : ℕ
backpressure_threshold = 4 * 1024 * 1024

-- 60 seconds in waits of 10 milliseconds.
abbrev pub backpressure_rounds : ℕ
backpressure_rounds = 60 * 1000 / 10

-- What a block meets: the buffer's size and the connection at each look of the waiting loop, the
-- connection before the block is read, whether it is accepted, and the connection behind it.
pub record Weather : Type 0 where
  pub looks : ℕ → ℕ × Bool
  pub is_open : Bool
  pub accepts : Bool
  pub stays_open : Bool

-- The loop that waits for the buffer to drain, with the rounds that are left: true if none is left
-- before it is drained.
unfoldable pub times_out : ℕ → ℕ → (ℕ → ℕ × Bool) → Bool
times_out zero i looks = false
times_out (suc rounds) i looks =
    let more = times_out rounds (suc i) looks in
    if ltb backpressure_threshold (looks i).0 && (looks i).1
    then (if rounds == 0 then true else more)
    else false

-- How the loop over the blocks ends: what is left to send, and whether a wait has timed out.
pub record Pumped : Type 0 where
  pub remaining : ℕ
  pub timed_out : Bool
  pub written : Bytes

abbrev pub block_size : ℕ → ℕ
block_size remaining = if ltb remaining chunk_size then remaining else chunk_size

-- `ifs.good()` fails behind a read that found too little. Every round takes a byte at least, so
-- that as many rounds as bytes are enough fuel.
unfoldable pub pump_blocks : ℕ → (ℕ → Weather) → ℕ → ℕ → Bool → Bytes → Bytes → Pumped
pump_blocks zero weather i remaining good unread written = record {
  remaining = remaining;
  timed_out = false;
  written = written;
}
pump_blocks (suc fuel) weather i remaining good unread written =
    let now = weather i in
    let stopped : Pumped = record { remaining = remaining; timed_out = false; written = written } in
    let size = block_size remaining in
    let chunk = take size unread in
    let handed : Pumped = record {
      remaining = remaining;
      timed_out = false;
      written = written ++ chunk;
    } in
    let more =
      pump_blocks fuel weather (suc i) (remaining - length chunk) (length chunk == size)
        (drop size unread) (written ++ chunk) in
    if remaining == 0 || not good
    then stopped
    else if times_out backpressure_rounds 0 now.looks
    then record stopped { timed_out = true }
    else if not now.is_open
    then stopped
    else if length chunk == 0
    then stopped
    else if not now.accepts || not now.stays_open
    then handed
    else more

-- The answer with no writer: the buffer has the size of the range, and what the file does not fill
-- stays 0. Where the file does not open or `seekg` fails, nothing fills it.
unfoldable pub fallback_body : Option Bytes → Bool → ℕ → ℕ → Bytes
fallback_body none seeks offset size = replicate size 0
fallback_body (some bytes) seeks offset size =
    let got = take size (drop offset bytes) in
    if seeks then got ++ replicate (size - length got) 0 else replicate size 0

module _ {H : Type 0} (put : Bytes → Bytes → H → H) (type_by_name : Bytes → Context H → Context H)
    (load : Bytes → Response H → Response H) where
  abbrev pub done : Bool → TransferStats → Context H → Sent H
  done success stats c = record {
    context = c;
    stats = record_end success stats;
    completions = success ∷ [];
    stream = none;
  }

  abbrev pub failed : TransferStats → Context H → Sent H
  failed stats c = done false stats (error put (pos 500) (codes "internal") none c)

  abbrev pub served : TransferParams → TransferStats → Context H → Sent H
  served p stats c =
      done true stats (type_by_name p.display_name (serve_file load p.physical_path c))

  unfoldable pub range_sent : Bytes → TransferParams → TransferStats → Context H → Sent H
  range_sent body p stats c = done true stats (
      set_body body
        (set_header put (codes "Content-Range") (content_range p) (set_status (pos 206) c)))

  -- A small range, with the bytes from the start of the range on.
  unfoldable pub read_range : ℕ → Bytes → TransferParams → TransferStats → Context H → Sent H
  read_range size unread p stats c =
      if length (take size unread) == size
      then range_sent (take size unread) p stats c
      else failed stats c

  -- `none` is the exception of a string of negative length.
  unfoldable pub send_small :
      Option Bytes → Bool → TransferParams → TransferStats → Context H → Option (Sent H)
  send_small file seeks p stats c =
      if not (is_range p) then some (served p stats c) else elim file [
        | none ↦ some (failed stats c)
        | some bytes ↦ if not seeks then some (failed stats c) else elim (send_len p) [
          | negsuc n ↦ none
          | pos size ↦ some (read_range size (drop (pos_part (send_start p)) bytes) p stats c)
        ]
      ]

  unfoldable pub send_fallback :
      Option Bytes → Bool → TransferParams → TransferStats → Context H → Sent H
  send_fallback file seeks p stats c =
      if is_range p
      then done true stats (
          set_status (pos 206) (
            set_body (fallback_body file seeks (pos_part (send_start p)) (pos_part (send_len p)))
              c))
      else served p stats c

  -- The status, the headers, the loop and `end`. The bytes that the loop's `writeBody` calls gave
  -- the writer stand beside the context.
  unfoldable pub send_blocks :
      ℤ → (ℕ → Weather) → Bytes → TransferParams → TransferStats → Context H → Sent H × Bytes
  send_blocks reply weather unread p stats c =
      let opened =
        (end_headers reply (codes "Content-Length") (send_len p)
          (transfer_status put type_by_name p c)).0 in
      let size = pos_part (send_len p) in
      let pumped = pump_blocks size weather 0 size true unread [] in
      (
        done (pumped.remaining == 0 && not pumped.timed_out) stats (end_response reply opened).0,
        pumped.written,
      )

  unfoldable pub send_large :
      ℤ
      → (ℕ → Weather)
      → Option Bytes
      → Bool
      → TransferParams
      → TransferStats
      → Context H
      → Sent H × Bytes
  send_large reply weather file seeks p stats c = elim file [
    | none ↦ (failed stats c, [])
    | some bytes ↦
        if is_range p && not seeks
        then (failed stats c, [])
        else send_blocks reply weather
            (if is_range p then drop (pos_part (send_start p)) bytes else bytes) p stats c
  ]

  -- `LegacyTransfer::send`, with the bytes that the writer got. The file opens to its bytes or, as
  -- `none`, does not open; `seeks` tells if `seekg` works.
  unfoldable pub legacy_send :
      ℤ
      → (ℕ → Weather)
      → Option Bytes
      → Bool
      → TransferParams
      → TransferStats
      → Context H
      → Option (Sent H × Bytes)
  legacy_send reply weather file seeks p stats c =
      let counted = record_start (send_len p) stats in
      let ready = transfer_headers put type_by_name p c in
      if ltb_ℤ (send_len p) (pos stream_threshold)
      then (send_small file seeks p counted ready >>= λ sent. some (sent, []))
      else if not (has_writer ready)
      then some (send_fallback file seeks p counted ready, [])
      else some (send_large reply weather file seeks p counted ready)
