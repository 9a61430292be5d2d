-- ===== src/ThreadPool.antt =====
-- The supervised thread pool of src/SupervisedThreadPool.cpp and its header. Its threads are
-- interleaved in any order: a step is what one thread does under a lock, or between two locks.
pub mod Fifo
pub mod Stuck
mod Tests
use alkaidlab_fw.Base.{
  ℕ, zero, suc, ◌≤◌, ◌<◌, ◌≡◌, ◌⊎◌, List, [], ◌∷◌, ◌++◌, Option, none, some, Bool, true, false, not,
  ◌&&◌, ◌||◌, ◌==◌, leb, ltb, if◌then◌else◌, length, get_elem?, set, replicate, All,
}

-- A thread that has left its loop has pushed its number, and can be joined without a wait.
pub data Worker (A : Type 0) : Type 0 where
  polling : Worker A
  busy : A → Worker A
  exited : Worker A

pub data Supervisor : Type 0 where
  watching : Supervisor
  joining : ℕ → Supervisor
  gone : Supervisor

-- The pool, with the tasks that were accepted and those that workers have taken, in order.
pub record Pool (A : Type 0) : Type 0 where
  pub max_queue_size : ℕ
  pub is_running : Bool
  pub workers : List (Worker A)
  pub supervisor : Supervisor
  pub tasks : List A
  pub finished_ids : List ℕ
  pub accepted : List A
  pub taken : List A

unfoldable pub pool : {A : Type 0} → ℕ → Pool A
pool max = record {
  max_queue_size = max;
  is_running = false;
  workers = [];
  supervisor = gone;
  tasks = [];
  finished_ids = [];
  accepted = [];
  taken = [];
}

module _ {A : Type 0} where
  unfoldable pub is_full : Pool A → Bool
  is_full p = ltb 0 p.max_queue_size && leb p.max_queue_size (length p.tasks)

  -- The part of `submit` under the lock.
  unfoldable pub enqueue : A → Pool A → Pool A × Bool
  enqueue task p =
      if is_full p
      then (p, false)
      else (record p { tasks = p.tasks ++ (task ∷ []); accepted = p.accepted ++ (task ∷ []) }, true)

  unfoldable pub submit : A → Pool A → Pool A × Bool
  submit task p = if not p.is_running then (p, false) else enqueue task p

  -- What `start` does behind its `stop`.
  unfoldable pub start : ℕ → Pool A → Pool A
  start num_workers p = record p {
    is_running = true;
    workers = replicate num_workers polling;
    supervisor = watching;
  }

  -- The flag that `stop` clears; its joins are waits.
  unfoldable pub request_stop : Pool A → Pool A
  request_stop p = record p { is_running = false }

  unfoldable pub take_task : ℕ → A → List A → Pool A → Pool A
  take_task i task rest p = record p {
    workers = set p.workers i (busy task);
    tasks = rest;
    taken = p.taken ++ (task ∷ []);
  }

  -- The end of a task, also of one that throws.
  unfoldable pub finish_task : ℕ → Pool A → Pool A
  finish_task i p = record p { workers = set p.workers i polling }

  -- A worker leaves its loop, and its guard pushes its number.
  unfoldable pub push_finished : ℕ → Pool A → Pool A
  push_finished i p = record p {
    workers = set p.workers i exited;
    finished_ids = p.finished_ids ++ (i ∷ []);
  }

  -- The supervisor pops a number, which it skips if it names no worker.
  unfoldable pub pop_finished : ℕ → List ℕ → Pool A → Pool A
  pop_finished i rest p = record p {
    supervisor = if leb (length p.workers) i then watching else joining i;
    finished_ids = rest;
  }

  -- Behind the join: a new thread for the worker, or the end.
  unfoldable pub restart : ℕ → Pool A → Pool A
  restart i p =
      if p.is_running
      then record p { workers = set p.workers i polling; supervisor = watching }
      else record p { supervisor = gone }

  unfoldable pub supervisor_leaves : Pool A → Pool A
  supervisor_leaves p = record p { supervisor = gone }

-- The flag is tested before the lock is taken, so a task may enter the queue of a pool that has been
-- stopped since. A worker may leave although the pool runs: its wait can throw.
pub data Step {A : Type 0} (p : Pool A) : Pool A → Type 0 where
  submits : (task : A) → Step p (enqueue task p).0
  takes :
      (i : ℕ) (task : A) (rest : List A)
      → p.is_running ≡ true
      → get_elem? p.workers i ≡ some polling
      → p.tasks ≡ task ∷ rest
      → Step p (take_task i task rest p)
  finishes :
      (i : ℕ) (task : A) → get_elem? p.workers i ≡ some (busy task) → Step p (finish_task i p)
  leaves : (i : ℕ) → get_elem? p.workers i ≡ some polling → Step p (push_finished i p)
  pops :
      (i : ℕ) (rest : List ℕ)
      → p.is_running ≡ true
      → p.supervisor ≡ watching
      → p.finished_ids ≡ i ∷ rest
      → Step p (pop_finished i rest p)
  joins :
      (i : ℕ)
      → p.supervisor ≡ joining i
      → get_elem? p.workers i ≡ some exited
      → Step p (restart i p)
  gives_up : p.is_running ≡ false → p.supervisor ≡ watching → Step p (supervisor_leaves p)
  stops : p.is_running ≡ true → Step p (request_stop p)
  starts :
      (num_workers : ℕ)
      → 0 < num_workers
      → p.is_running ≡ false
      → p.supervisor ≡ gone
      → All (λ w. w ≡ exited) p.workers
      → Step p (start num_workers p)

pub data Reach {A : Type 0} (p : Pool A) : Pool A → Type 0 where
  here : Reach p p
  later : {q r : Pool A} → Reach p q → Step q r → Reach p r
