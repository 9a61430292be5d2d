-- ===== src/ThreadPool/Stuck.antt =====
-- The supervisor of a pool that is started a second time (src/SupervisedThreadPool.cpp).
use alkaidlab_fw.Base.{
  ℕ, ◌<◌, ◌≡◌, ◌≢◌, refl, sym, arith, ap, ◌∙◌, [], some, Bool, true, leb, if_both, if_false, length,
  get_elem?, replicate, length-replicate,
}
use alkaidlab_fw.ThreadPool.{
  Worker, polling, exited, watching, joining, gone, Pool, pool, is_full, enqueue, start,
  request_stop, take_task, finish_task, push_finished, pop_finished, restart, supervisor_leaves,
  Step, submits, takes, finishes, leaves, pops, joins, gives_up, stops, starts, Reach, here, later,
}

joining_inj : {i j : ℕ} → joining i ≡ joining j → i ≡ j
joining_inj e = cc

some_inj : {A : Type 0} {x y : A} → some x ≡ some y → x ≡ y
some_inj e = cc

module _ {A : Type 0} where
  -- Worker `i` has not left its loop.
  abbrev pub IsAlive : ℕ → Pool A → Type 0
  IsAlive i p = (w : Worker A) × (get_elem? p.workers i ≡ some w) × (w ≢ exited)

  -- Steps in any number and order, up to the end of worker `i`.
  pub data ReachAlive (i : ℕ) (p : Pool A) : Pool A → Type 0 where
    at : ReachAlive i p p
    next : {q r : Pool A} → ReachAlive i p q → IsAlive i q → Step q r → ReachAlive i p r

  Step-joining :
      {p q : Pool A} (i : ℕ)
      → Step p q
      → IsAlive i p
      → p.supervisor ≡ joining i
      → q.supervisor ≡ joining i
  unfolding enqueue start request_stop take_task finish_task push_finished pop_finished restart
      supervisor_leaves
  Step-joining {p = p} i (submits task) live waits =
      if_both (λ (r : Pool A × Bool). r.0.supervisor ≡ joining i) (is_full p) (λ _. waits)
        (λ _. waits)
  Step-joining i (takes j task rest up idle queue) live waits = waits
  Step-joining i (finishes j task running) live waits = waits
  Step-joining i (leaves j idle) live waits = waits
  Step-joining i (pops j rest up watch ids) live waits = absurd (apart (sym watch ∙ waits))
    where
      apart : watching ≡ joining i → ⊥
      apart e = cc
  Step-joining {p = p} i (joins j other over) (w, there, alive) waits =
      absurd (alive (same_worker (joining_inj (sym waits ∙ other))))
    where
      same_worker : i ≡ j → w ≡ exited
      same_worker e = some_inj (sym there ∙ ap (get_elem? p.workers) e ∙ over)
  Step-joining i (gives_up down watch) live waits = absurd (apart (sym watch ∙ waits))
    where
      apart : watching ≡ joining i → ⊥
      apart e = cc
  Step-joining i (stops up) live waits = waits
  Step-joining i (starts n some_worker down over done) live waits =
      absurd (apart (sym over ∙ waits))
    where
      apart : gone ≡ joining i → ⊥
      apart e = cc

  ReachAlive-joining :
      (i : ℕ) {p q : Pool A}
      → ReachAlive i p q
      → p.supervisor ≡ joining i
      → q.supervisor ≡ joining i
  ReachAlive-joining i at waits = waits
  ReachAlive-joining i (next r live st) waits =
      Step-joining i st live (ReachAlive-joining i r waits)

  -- A pool that had one worker, was stopped and started again with `m` workers, after the
  -- supervisor's first step.
  abbrev pub second_life : ℕ → ℕ → Pool A
  second_life max m =
      pop_finished 0 []
        (start m (supervisor_leaves (push_finished 0 (request_stop (start 1 (pool max))))))

  second_life-Reach : (max m : ℕ) → 0 < m → Reach (pool max) (second_life max m)
  unfolding pool start request_stop push_finished supervisor_leaves pop_finished
  second_life-Reach max m some_worker =
      later
        (later
          (later
            (later (later (later here (starts 1 (omega arith) refl refl tt)) (stops refl))
              (leaves 0 refl))
            (gives_up refl refl))
          (starts m some_worker refl refl (refl, tt)))
        (pops 0 [] refl refl refl)

  -- The number that a worker left behind at the end of the first run makes the supervisor of the
  -- second run join a worker that is alive: it runs no check on the others until that worker ends,
  -- so that no worker that dies meanwhile is started again.
  pub second_life_stuck :
      (max m : ℕ)
      → 0 < m
      → Reach (pool max) (second_life max m)
        × ((second_life max m).is_running ≡ true)
        × ((second_life max m).workers ≡ replicate m polling)
        × ((q : Pool A) → ReachAlive 0 (second_life max m) q → q.supervisor ≡ joining 0)
  unfolding pool start request_stop push_finished supervisor_leaves pop_finished
  second_life_stuck max m some_worker = (
    second_life-Reach max m some_worker,
    refl,
    refl,
    λ q r. ReachAlive-joining 0 r (
        if_false {b = leb (length (replicate {A = Worker A} m polling)) 0} _ _
          (ground (arith, length-replicate {A = Worker A} m polling))),
  )
