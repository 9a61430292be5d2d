-- ===== src/Router/Tracking.antt =====
-- What the tracker is told of asynchronous tasks (src/Router.cpp, `makeAsyncHandler`).
use alkaidlab_fw.Base.{
  ℕ, zero, suc, ◌+◌, ◌≡◌, refl, subst, arith, ap, ◌∙◌, List, [], ◌∷◌, Option, none, some, Bool,
  true, false, length, length-append, Bytes,
}
use alkaidlab_fw.Base.Int.{pos, negsuc, ◌+ℤ◌}
use alkaidlab_fw.Router.{
  Task, Server, run_task, finish, report, marked_task, async_request, dispatch, remove_at,
}

-- What happens to the server: a request comes in, or the dispatcher runs the task at a position.
pub data Event (H : Type 0) : Type 0 where
  requested : Task H → Event H
  dispatched : ℕ → Event H

module _ {H : Type 0} (put : Bytes → Bytes → H → H) where
  abbrev pub step : Bool → Event H → Server H → Server H
  step has_dispatcher (requested t) s = async_request put has_dispatcher true t s
  step has_dispatcher (dispatched i) s = dispatch true i s

  abbrev pub run_events : Bool → List (Event H) → Server H → Server H
  run_events has_dispatcher [] s = s
  run_events has_dispatcher (e ∷ events) s =
      run_events has_dispatcher events (step has_dispatcher e s)

module _ {H : Type 0} where
  abbrev pub count_requests : List (Event H) → ℕ
  count_requests [] = 0
  count_requests (requested _ ∷ events) = suc (count_requests events)
  count_requests (dispatched _ ∷ events) = count_requests events

-- The tracker's sum is the number of tasks that wait, and no task is lost.
pub record IsTracked {H : Type 0} (total : ℕ) (s : Server H) : Type 0 where
  pub waiting : s.in_flight ≡ pos (length s.pending)
  pub kept : length s.pending + length s.ended ≡ total

pos_add_one : (n : ℕ) → pos n +ℤ pos 1 ≡ pos (suc n)
pos_add_one n = ground arith

pos_sub_one : (n : ℕ) → pos (suc n) +ℤ negsuc 0 ≡ pos n
pos_sub_one n = ground arith

-- Of a list of length `n`, one member less is left.
abbrev IsShorter : {A : Type 0} → ℕ → Option (A × List A) → Type 0
IsShorter n none = Unit
IsShorter n (some (x, rest)) = n ≡ suc (length rest)

remove_at-IsShorter : {A : Type 0} (i : ℕ) (xs : List A) → IsShorter (length xs) (remove_at i xs)
remove_at-IsShorter i [] = tt
remove_at-IsShorter zero (x ∷ xs) = refl
remove_at-IsShorter {A = A} (suc i) (x ∷ xs) = go (remove_at i xs) (remove_at-IsShorter i xs)
  where
    go :
        (o : Option (A × List A))
        → IsShorter (length xs) o
        → IsShorter (length (x ∷ xs)) (elim o [ none ↦ none | some (y, rest) ↦ some (y, x ∷ rest) ])
    go none h = tt
    go (some (y, rest)) h = ap suc h

module _ {H : Type 0} (put : Bytes → Bytes → H → H) where
  finish-IsTracked :
      (t : Task H) (s : Server H) {total : ℕ}
      → s.in_flight ≡ pos (suc (length s.pending))
      → suc (length s.pending + length s.ended) ≡ total
      → IsTracked total (finish true t s)
  unfolding finish
  finish-IsTracked t s w k = record {
    waiting = ap (λ z. z +ℤ negsuc 0) w ∙ pos_sub_one (length s.pending);
    kept = omega (arith, k, length-append s.ended (run_task t ∷ []));
  }

  dispatch-IsTracked :
      (i : ℕ) (s : Server H) {total : ℕ} → IsTracked total s → IsTracked total (dispatch true i s)
  unfolding dispatch
  dispatch-IsTracked i s {total = total} h =
      go (remove_at i s.pending) (remove_at-IsShorter i s.pending)
    where
      go :
          (o : Option (Task H × List (Task H)))
          → IsShorter (length s.pending) o
          → IsTracked total
              (elim o [ none ↦ s | some (t, rest) ↦ finish true t (record s { pending = rest }) ])
      go none shorter = h
      go (some (t, rest)) shorter =
          finish-IsTracked t (record s { pending = rest }) (h.waiting ∙ ap pos shorter)
            (omega (arith, h.kept, shorter))

  request-IsTracked :
      (has_dispatcher : Bool) (t : Task H) (s : Server H) {total : ℕ}
      → IsTracked total s
      → IsTracked (suc total) (async_request put has_dispatcher true t s)
  unfolding async_request
  request-IsTracked true t s h =
      let longer = length-append s.pending (marked_task put t ∷ []) in
      record {
        waiting =
            ap (λ z. z +ℤ pos 1) h.waiting
            ∙ pos_add_one (length s.pending)
            ∙ ap pos (omega (arith, longer));
        kept = omega (arith, longer, h.kept);
      }
  request-IsTracked false t s h =
      finish-IsTracked (marked_task put t) (report true (pos 1) s)
        (ap (λ z. z +ℤ pos 1) h.waiting ∙ pos_add_one (length s.pending)) (ap suc h.kept)

  -- From a server without tasks, whatever requests come in, whether or not there is a dispatcher,
  -- in whichever order it runs its tasks, and even if handlers throw: what the tracker was told
  -- sums up to the number of tasks that wait, and the waiting and the ended tasks together are as
  -- many as the requests, so that the sum is back at 0 once the dispatcher has run everything.
  pub run_events-IsTracked :
      (has_dispatcher : Bool) (events : List (Event H)) (s : Server H) (total : ℕ)
      → IsTracked total s
      → IsTracked (total + count_requests events) (run_events put has_dispatcher events s)
  run_events-IsTracked has_dispatcher [] s total h = subst (λ n. IsTracked n s) (omega arith) h
  run_events-IsTracked has_dispatcher (requested t ∷ events) s total h =
      subst (λ n. IsTracked n (run_events put has_dispatcher (requested t ∷ events) s))
        (omega arith)
        (run_events-IsTracked has_dispatcher events (step put has_dispatcher (requested t) s)
          (suc total) (request-IsTracked has_dispatcher t s h))
  run_events-IsTracked has_dispatcher (dispatched i ∷ events) s total h =
      run_events-IsTracked has_dispatcher events (step put has_dispatcher (dispatched i) s) total
        (dispatch-IsTracked i s h)
