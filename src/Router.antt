-- ===== src/Router.antt =====
-- The router of src/Router.cpp and include/fw/Router.hpp. The service of libhv is the list of the
-- handlers registered with it; handlers and middleware are functions of the context that return or
-- throw.
pub mod Binding
pub mod Requests
pub mod Tracking
mod Tests
use alkaidlab_fw.Base.{
  List, [], ◌∷◌, ◌++◌, Option, none, some, Bool, true, false, not, ◌&&◌, Bytes, codes,
  if◌then◌else◌, ◌==◌, map, length, ℕ, zero, suc,
}
use alkaidlab_fw.Base.Int.{ℤ, pos, negsuc, ◌+ℤ◌}
use alkaidlab_fw.Middleware.{
  Outcome, returned, threw, Action, MiddlewareFn, Entry, use_fn, use_named, execute,
}
use alkaidlab_fw.Context.{Context, Request, Response, WriterCall, response_ended, context, status}

-- What a handler, which returns nothing, comes to.
pub data Called (S : Type 0) : Type 0 where
  finished : S → Called S
  failed : S → Called S

abbrev pub Handler : Type 0 → Type 0
Handler S = S → Called S

pub data Method : Type 0 where
  method_get : Method
  method_post : Method
  method_put : Method
  method_del : Method
  method_patch : Method

pub record Route (H : Type 0) : Type 0 where
  pub method : Method
  pub path : Bytes
  pub handler : Handler (Context H)
  pub is_async : Bool

pub record Router (H : Type 0) : Type 0 where
  pub middlewares : List (Entry (Context H))
  pub routes : List (Route H)
  pub postprocessor : Option (Action (Context H))
  pub error_handler : Option (Action (Context H))
  pub has_dispatcher : Bool
  pub has_tracker : Bool

-- What is registered for a path: a bridge over the chain and the route's handler.
pub data Bridge (H : Type 0) : Type 0 where
  sync_bridge : List (Entry (Context H)) → Handler (Context H) → Bridge H
  async_bridge : List (Entry (Context H)) → Handler (Context H) → Bool → Bool → Bridge H

pub record Registration (H : Type 0) : Type 0 where
  pub method : Method
  pub path : Bytes
  pub bridge : Bridge H

pub record Service (H : Type 0) : Type 0 where
  pub registrations : List (Registration H)
  pub postprocessor : Option (Action (Context H))
  pub error_handler : Option (Action (Context H))

-- A request to an asynchronous route, as its task has captured it.
pub record Task (H : Type 0) : Type 0 where
  pub chain : List (Entry (Context H))
  pub handler : Handler (Context H)
  pub req : Request H
  pub resp : Response H
  pub writer : Option (List WriterCall)

abbrev pub is_zero : ℤ → Bool
is_zero (pos n) = n == 0
is_zero (negsuc n) = false

-- `c.status() ? c.status() : 200`
unfoldable pub status_or_ok : {H : Type 0} → Context H → ℤ
status_or_ok c = if is_zero (status c) then pos 200 else status c

module _ {H : Type 0} where
  unfoldable pub router : Router H
  router = record {
    middlewares = [];
    routes = [];
    postprocessor = none;
    error_handler = none;
    has_dispatcher = false;
    has_tracker = false;
  }

  -- `get`, `post`, `put`, `del` and `patch`, which differ in the method only.
  unfoldable pub add_route : Method → Bytes → Handler (Context H) → Router H → Router H
  add_route m path h r = record r {
    routes = r.routes ++ (record { method = m; path = path; handler = h; is_async = false } ∷ []);
  }

  unfoldable pub get_async : Bytes → Handler (Context H) → Router H → Router H
  get_async path h r = record r {
    routes =
        r.routes
        ++ (record { method = method_get; path = path; handler = h; is_async = true } ∷ []);
  }

  unfoldable pub use_middleware : Bytes → MiddlewareFn (Context H) → Router H → Router H
  use_middleware name fn r = record r { middlewares = use_named name fn r.middlewares }

  unfoldable pub set_async_dispatcher : Bool → Router H → Router H
  set_async_dispatcher given r = record r { has_dispatcher = given }

  unfoldable pub set_async_task_tracker : Bool → Router H → Router H
  set_async_task_tracker given r = record r { has_tracker = given }

  unfoldable pub set_postprocessor : Option (Action (Context H)) → Router H → Router H
  set_postprocessor fn r = record r { postprocessor = fn }

  unfoldable pub set_error_handler : Option (Action (Context H)) → Router H → Router H
  set_error_handler fn r = record r { error_handler = fn }

  unfoldable pub registration : Router H → Route H → Registration H
  registration r route =
      if route.is_async
      then record {
        method = method_get;
        path = route.path;
        bridge = async_bridge r.middlewares route.handler r.has_dispatcher r.has_tracker;
      }
      else record {
        method = route.method;
        path = route.path;
        bridge = sync_bridge r.middlewares route.handler;
      }

  abbrev pub given_or :
      Option (Action (Context H)) → Option (Action (Context H)) → Option (Action (Context H))
  given_or none old = old
  given_or (some fn) old = some fn

  unfoldable pub bind : Router H → Service H → Service H
  bind r s = record {
    registrations = s.registrations ++ map (registration r) r.routes;
    postprocessor = given_or r.postprocessor s.postprocessor;
    error_handler = given_or r.error_handler s.error_handler;
  }

  -- The innermost layer: the handler, and then the status that it has set.
  unfoldable pub innermost : Handler (Context H) → Action (Context H)
  innermost h c = elim (h c) [ finished c' ↦ returned c' (status_or_ok c') | failed c' ↦ threw c' ]

  -- A request to a synchronous route. What the chain returns is dropped.
  unfoldable pub sync_request :
      List (Entry (Context H)) → Handler (Context H) → Request H → Response H → Outcome (Context H)
  sync_request chain h req resp = elim (execute chain (innermost h) (context req resp none)) [
    | returned c code ↦ returned c (status_or_ok c)
    | threw c ↦ threw c
  ]

  -- `if (!streamingHandoff && writer) writer->End()`
  unfoldable pub end_unless : Bool → Context H → Context H
  end_unless handed_off c = if handed_off then c else elim c.writer [
    | none ↦ c
    | some calls ↦ record c { writer = some (calls ++ (response_ended ∷ [])) }
  ]

  -- The task between its two reports to the tracker. A throw is swallowed, and the flag that the
  -- handler may have set is then not read.
  unfoldable pub run_task : Task H → Context H
  run_task t = elim (execute t.chain (innermost t.handler) (context t.req t.resp t.writer)) [
    | returned c code ↦ end_unless c.streaming_handoff c
    | threw c ↦ end_unless false c
  ]

-- The tasks under way: those that the dispatcher has and has not run, the sum of what the tracker
-- was told, and the contexts of the tasks that have ended.
pub record Server (H : Type 0) : Type 0 where
  pub pending : List (Task H)
  pub in_flight : ℤ
  pub ended : List (Context H)

abbrev pub report : {H : Type 0} → Bool → ℤ → Server H → Server H
report has_tracker delta s =
    if has_tracker then record s { in_flight = s.in_flight +ℤ delta } else s

abbrev pub remove_at {ℓ} : {A : Type ℓ} → ℕ → List A → Option (A × List A)
remove_at i [] = none
remove_at zero (x ∷ xs) = some (x, xs)
remove_at (suc i) (x ∷ xs) = elim (remove_at i xs) [
  | none ↦ none
  | some (y, rest) ↦ some (y, x ∷ rest)
]

module _ {H : Type 0} where
  unfoldable pub finish : Bool → Task H → Server H → Server H
  finish has_tracker t s =
      report has_tracker (negsuc 0) (record s { ended = s.ended ++ (run_task t ∷ []) })

  -- `put` is libhv's `SetHeader` on the request's headers.
  abbrev pub marked_task : (Bytes → Bytes → H → H) → Task H → Task H
  marked_task put t = record t {
    req = record t.req { headers = put (codes "X-Internal-Async") (codes "1") t.req.headers };
  }

  unfoldable pub async_request :
      (Bytes → Bytes → H → H) → Bool → Bool → Task H → Server H → Server H
  async_request put has_dispatcher has_tracker t s =
      let told = report has_tracker (pos 1) s in
      if has_dispatcher
      then record told { pending = told.pending ++ (marked_task put t ∷ []) }
      else finish has_tracker (marked_task put t) told

  -- The dispatcher runs one of its tasks, in an order of its own.
  unfoldable pub dispatch : Bool → ℕ → Server H → Server H
  dispatch has_tracker i s = elim (remove_at i s.pending) [
    | none ↦ s
    | some (t, rest) ↦ finish has_tracker t (record s { pending = rest })
  ]
