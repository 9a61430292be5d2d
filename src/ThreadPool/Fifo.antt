-- ===== src/ThreadPool/Fifo.antt =====
-- The queue of tasks under every interleaving (src/SupervisedThreadPool.cpp).
use alkaidlab_fw.Base.{
  ℕ, ◌≤◌, ◌<◌, ◌≡◌, refl, sym, arith, ap, ◌∙◌, List, [], ◌∷◌, ◌++◌, Bool, if_both, length,
  length-append, append_assoc,
}
use alkaidlab_fw.ThreadPool.{
  Pool, pool, is_full, enqueue, start, request_stop, take_task, finish_task, push_finished,
  pop_finished, restart, supervisor_leaves, Step, submits, takes, finishes, leaves, pops, joins,
  gives_up, stops, starts, Reach, here, later,
}

-- The tasks taken and those waiting are the accepted ones in order, and no more wait than are
-- allowed, where there is a limit.
pub record IsFifo {A : Type 0} (max : ℕ) (p : Pool A) : Type 0 where
  pub limit : p.max_queue_size ≡ max
  pub order : p.accepted ≡ p.taken ++ p.tasks
  pub bounded : 0 < max → length p.tasks ≤ max

module _ {A : Type 0} (max : ℕ) where
  enqueue-IsFifo : (task : A) (p : Pool A) → IsFifo max p → IsFifo max (enqueue task p).0
  unfolding enqueue is_full
  enqueue-IsFifo task p h =
      if_both (λ (r : Pool A × Bool). IsFifo max r.0) (is_full p) (λ _. h)
        (λ room. record {
          limit = h.limit;
          order =
              ap (λ (l : List A). l ++ (task ∷ [])) h.order
              ∙ append_assoc p.taken p.tasks (task ∷ []);
          bounded = λ some_limit.
              ground (arith, length-append p.tasks (task ∷ []), room, h.limit, some_limit);
        })

  Step-IsFifo : {p q : Pool A} → Step p q → IsFifo max p → IsFifo max q
  unfolding start request_stop take_task finish_task push_finished pop_finished restart
      supervisor_leaves
  Step-IsFifo {p = p} (submits task) h = enqueue-IsFifo task p h
  Step-IsFifo {p = p} (takes i task rest up idle queue) h = record {
    limit = h.limit;
    order =
        h.order
        ∙ ap (λ (l : List A). p.taken ++ l) queue
        ∙ sym (append_assoc p.taken (task ∷ []) rest);
    bounded = λ some_limit.
        let before = h.bounded some_limit in
        omega (arith, before, ap (λ (l : List A). length l) queue);
  }
  Step-IsFifo (finishes i task running) h = record {
    limit = h.limit;
    order = h.order;
    bounded = h.bounded;
  }
  Step-IsFifo (leaves i idle) h = record { limit = h.limit; order = h.order; bounded = h.bounded }
  Step-IsFifo (pops i rest up watch ids) h = record {
    limit = h.limit;
    order = h.order;
    bounded = h.bounded;
  }
  Step-IsFifo {p = p} (joins i waits over) h =
      if_both (IsFifo max) p.is_running
        (λ _. record { limit = h.limit; order = h.order; bounded = h.bounded })
        (λ _. record { limit = h.limit; order = h.order; bounded = h.bounded })
  Step-IsFifo (gives_up down watch) h = record {
    limit = h.limit;
    order = h.order;
    bounded = h.bounded;
  }
  Step-IsFifo (stops up) h = record { limit = h.limit; order = h.order; bounded = h.bounded }
  Step-IsFifo (starts n some_worker down over done) h = record {
    limit = h.limit;
    order = h.order;
    bounded = h.bounded;
  }

-- In every state that the threads can reach from a new pool, workers have taken the accepted tasks
-- first in, first out, none lost and none twice: those taken and then those that wait are all that
-- were accepted, in order. And the queue never holds more than the limit, where there is one.
pub Reach-IsFifo : {A : Type 0} (max : ℕ) {p : Pool A} → Reach (pool max) p → IsFifo max p
unfolding pool
Reach-IsFifo max here = record { limit = refl; order = refl; bounded = λ _. omega arith }
Reach-IsFifo max (later r st) = Step-IsFifo max st (Reach-IsFifo max r)
