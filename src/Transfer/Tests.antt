-- ===== src/Transfer/Tests.antt =====
-- Runs of the transfers.
use alkaidlab_fw.Base.{
  List, ℕ, ◌+◌, ◌≤◌, ◌≡◌, refl, arith, [], ◌∷◌, true, false, Bytes, codes, length, take, replicate,
  length-replicate,
}
use alkaidlab_fw.Base.Int.{pos, negsuc}
use alkaidlab_fw.Context.{Request, Response}
use alkaidlab_fw.Router.{run_task}
use alkaidlab_fw.Router.Requests.{Ends}
use alkaidlab_fw.Transfer.Route.{sending_task, run_task-sending}
use alkaidlab_fw.Transfer.{TransferParams, TransferStats, safe_filename}
use alkaidlab_fw.Transfer.Stream.{
  chunk_size, fired, returned, destroyed, run, start, step, pump_enter, pump_leave, write_chunk,
  finish,
}
use alkaidlab_fw.Transfer.Stream.Sound.{IsSound, start-run-IsSound}
use alkaidlab_fw.Transfer.Stream.Progress.{start-rounds, rounds}
use alkaidlab_fw.Transfer.Stream.Reentry.{nested, nested_ends_twice}
use alkaidlab_fw.Transfer.Legacy.{Weather, pump_blocks}
use alkaidlab_fw.Transfer.Legacy.Bounds.{pump_blocks_lem}

abbrev no_stats : TransferStats
no_stats = record { total_count = 0; total_bytes = pos 0; active_count = 0; error_count = 0 }

abbrev content : Bytes
content = 1 ∷ 2 ∷ 3 ∷ []

-- One byte more than a block.
abbrev large : Bytes
large = replicate (chunk_size + 1) 65

abbrev calm : ℕ → Weather
calm i = record { looks = λ round. (0, true); is_open = true; accepts = true; stays_open = true }

safe_filename_runs : safe_filename (codes "a\"b") ≡ codes "a_b"
unfolding safe_filename
safe_filename_runs = refl

-- The connection is lost behind the first event.
lost_runs :
    (run
      (fired true true ∷ returned false ∷ destroyed ∷ [])
      (start content (pos 3) no_stats)).completions
    ≡ false ∷ []
unfolding step pump_enter pump_leave write_chunk finish start
lost_runs = refl

start-run-IsSound_example :
    IsSound content 2
      (run (fired true true ∷ returned true ∷ destroyed ∷ []) (start content (pos 2) no_stats))
start-run-IsSound_example =
    start-run-IsSound content 2 no_stats (fired true true ∷ returned true ∷ destroyed ∷ [])

start-rounds_example :
    let s = run (rounds 1) (start content (pos 3) no_stats) in
    (s.completions ≡ true ∷ []) × (s.ends ≡ 1) × (s.written ≡ take 3 content)
start-rounds_example = start-rounds content 3 1 no_stats (omega arith) (omega arith) (omega arith)

nested_ends_twice_example :
    let s = run (nested 0) (start large (pos (chunk_size + 1)) no_stats) in
    (s.ends ≡ 2) × (s.completions ≡ true ∷ [])
nested_ends_twice_example =
    nested_ends_twice large 0 (chunk_size + 1) no_stats (omega arith) (omega arith)
      (omega (arith, length-replicate {A = ℕ} (chunk_size + 1) 65))

pump_blocks_lem_example :
    (pump_blocks (4 + 3) calm 0 3 true content [] ≡ pump_blocks 3 calm 0 3 true content [])
    × ((pump_blocks 3 calm 0 3 true content []).remaining ≡ 0
        → ((pump_blocks 3 calm 0 3 true content []).written ≡ take 3 content)
          × (3 ≤ length content))
pump_blocks_lem_example = pump_blocks_lem calm 3 content 4

abbrev Pairs : Type 0
Pairs = List (Bytes × Bytes)

abbrev add : Bytes → Bytes → Pairs → Pairs
add key val h = (key, val) ∷ h

abbrev typed : Bytes → Response Pairs → Response Pairs
typed name r = record r { content_type = 1 }

abbrev empty_file : TransferParams
empty_file = record {
  physical_path = codes "/srv/e";
  display_name = codes "e";
  file_size = pos 0;
  range_start = negsuc 0;
  range_end = negsuc 0;
}

abbrev asked : Request Pairs
asked = record {
  method = 1;
  path = codes "/e";
  query_params = [];
  headers = [];
  body = [];
  content_length = pos 0;
  client_ip = [];
  client_port = pos 0;
  http_major = 1;
  http_minor = 1;
}

abbrev blank : Response Pairs
blank = record { status_code = pos 200; headers = []; content_type = 0; body = []; cookies = [] }

run_task-sending_example : Ends 2 (
    run_task
      (sending_task add typed (pos 0) (fired true true ∷ []) [] [] empty_file no_stats asked blank))
run_task-sending_example =
    run_task-sending add typed (pos 0) (fired true true ∷ []) [] [] empty_file no_stats 0 asked
      blank refl
