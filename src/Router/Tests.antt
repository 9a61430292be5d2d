-- ===== src/Router/Tests.antt =====
-- Runs of a router with one handler.
use alkaidlab_fw.Base.{ℕ, List, [], ◌∷◌, ◌≡◌, refl, Bytes, codes, none, some, true, ◌⊎◌, ◌+◌}
use alkaidlab_fw.Base.Int.{ℤ, pos}
use alkaidlab_fw.Context.{Context, Request, Response, context, set_status}
use alkaidlab_fw.Middleware.{returned, Entry, execute, run}
use alkaidlab_fw.Router.{
  finished, failed, Handler, method_post, Service, Task, Server, innermost, run_task, status_or_ok,
  sync_request,
}
use alkaidlab_fw.Router.Binding.{Call, added, added_async, used, given_tracker}
use alkaidlab_fw.Router.Requests.{Ends, run_task_lem}
use alkaidlab_fw.Router.Tracking.{
  Event, requested, dispatched, run_events, count_requests, IsTracked, run_events-IsTracked,
}

abbrev put : Bytes → Bytes → ℕ → ℕ
put key val h = h + 1

abbrev asked : Request ℕ
asked = record {
  method = 1;
  path = codes "/list";
  query_params = [];
  headers = 0;
  body = [];
  content_length = pos 0;
  client_ip = [];
  client_port = pos 0;
  http_major = 1;
  http_minor = 1;
}

abbrev blank : Response ℕ
blank = record { status_code = pos 200; headers = 0; content_type = 0; body = []; cookies = [] }

abbrev fails : Handler (Context ℕ)
fails c = failed c

abbrev created : Handler (Context ℕ)
created c = finished (set_status (pos 201) c)

sync_request_runs :
    sync_request [] created asked blank
    ≡ returned (set_status (pos 201) (context asked blank none)) (pos 201)
unfolding sync_request execute run innermost status_or_ok set_status context
sync_request_runs = refl

abbrev passes : Entry (Context ℕ)
passes = record { name = []; fn = λ next. next }

abbrev task : Task ℕ
task = record { chain = passes ∷ []; handler = fails; req = asked; resp = blank; writer = some [] }

run_task_lem_example :
    Ends 1 (run_task task)
    ⊎ (Ends 0 (run_task task)
        × ((c : Context ℕ) × (code : ℤ) × (execute
                (passes ∷ [])
                (innermost fails)
                (context asked blank (some []))
              ≡ returned c code)
            × (c.streaming_handoff ≡ true)))
run_task_lem_example = run_task_lem task [] refl refl ((λ next kept. kept), tt) (λ c kept. kept)

abbrev idle : Server ℕ
idle = record { pending = []; in_flight = pos 0; ended = [] }

abbrev idle-IsTracked : IsTracked 0 idle
idle-IsTracked = record { waiting = refl; kept = refl }

abbrev events : List (Event ℕ)
events = requested task ∷ requested task ∷ dispatched 1 ∷ []

run_events-IsTracked_example :
    IsTracked (0 + count_requests events) (run_events put true events idle)
run_events-IsTracked_example = run_events-IsTracked put true events idle 0 idle-IsTracked

abbrev service : Service ℕ
service = record { registrations = []; postprocessor = none; error_handler = none }

abbrev calls : List (Call ℕ)
calls =
    added method_post (codes "/a") created
    ∷ used (codes "log") (λ next. next)
    ∷ added_async (codes "/b") fails
    ∷ given_tracker
    ∷ []
