-- ===== src/SpscQueue/Threads/Tests.antt =====
-- Two threads on a ring of two cells.
use alkaidlab_fw.Base.{ℕ, ◌<◌, ◌≡◌, refl, arith, List, [], ◌∷◌, ◌++◌, length}
use alkaidlab_fw.SpscQueue.{Ring, size}
use alkaidlab_fw.SpscQueue.Valid.{IsValid}
use alkaidlab_fw.SpscQueue.Fifo.{contents}
use alkaidlab_fw.SpscQueue.Threads.{
  Producer, Threads, threads, fill, publish, Reach, here, later, begins_push, looks_at_read, fills,
  publishes, begins_pop, looks_at_write, takes, holds,
}
use alkaidlab_fw.SpscQueue.Threads.Safe.{IsApart, Reach_lem}

abbrev pair : Ring ℕ
pair = record {
  buffer = 0 ∷ 0 ∷ [];
  capacity = 2;
  mask = 1;
  write_pos = 0;
  read_pos = 0;
  push_count = 0;
  pop_count = 0;
  drop_count = 0;
}

pair-IsValid : IsValid pair
pair-IsValid = record {
  exponent = 1;
  power = refl;
  small = omega arith;
  mask_lem = refl;
  storage = refl;
  read_in = omega arith;
  write_in = omega arith;
}

pair_empty : contents 0 pair ≡ []
unfolding size
pair_empty = refl

-- A push has published 7, and a pop has taken it from its cell and not yet released the cell.
abbrev between : Threads ℕ
between = record {
  ring = record pair { buffer = 7 ∷ 0 ∷ []; write_pos = 1 };
  producer = Producer.published;
  consumer = holds 0 7;
  pushed = 7 ∷ [];
  popped = [];
}

between-Reach : Reach 0 (threads pair) between
unfolding threads fill publish
between-Reach =
    later
      (later
        (later
          (later
            (later (later (later here (begins_push 7 refl)) (begins_pop refl))
              (looks_at_read 7 0 refl))
            (fills 7 0 0 refl (λ e. omega (arith, e))))
          (publishes 7 0 refl))
        (looks_at_write 0 refl))
      (takes 0 1 refl (λ e. omega (arith, e)))

Reach_lem_example :
    (between.pushed ≡ between.popped ++ contents 0 between.ring)
    × (length (contents 0 between.ring) < between.ring.capacity)
    × ((rest : List ℕ) × (contents 0 between.ring ≡ 7 ∷ rest))
    × IsApart 0 between.ring between.producer between.consumer
Reach_lem_example = Reach_lem 0 pair pair-IsValid pair_empty between-Reach
