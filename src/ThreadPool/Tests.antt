-- ===== src/ThreadPool/Tests.antt =====
-- Runs of the pool.
use alkaidlab_fw.Base.{ℕ, ◌≡◌, refl, arith, true, false, replicate}
use alkaidlab_fw.ThreadPool.{
  polling, joining, Pool, pool, is_full, enqueue, submit, start, submits, starts, Reach, here,
  later,
}
use alkaidlab_fw.ThreadPool.Fifo.{IsFifo, Reach-IsFifo}
use alkaidlab_fw.ThreadPool.Stuck.{second_life, second_life_stuck, ReachAlive}

abbrev running : Pool ℕ
running = (enqueue 8 (enqueue 7 (start 2 (pool 2))).0).0

running-Reach : Reach (pool 2) running
unfolding pool
running-Reach =
    later (later (later here (starts 2 (omega arith) refl refl tt)) (submits 7)) (submits 8)

full_refuses : (submit 9 running).1 ≡ false
unfolding submit enqueue is_full start pool
full_refuses = refl

Reach-IsFifo_example : IsFifo 2 running
Reach-IsFifo_example = Reach-IsFifo 2 running-Reach

second_life_stuck_example :
    Reach (pool {A = ℕ} 2) (second_life 2 3)
    × ((second_life {A = ℕ} 2 3).is_running ≡ true)
    × ((second_life {A = ℕ} 2 3).workers ≡ replicate 3 polling)
    × ((q : Pool ℕ) → ReachAlive 0 (second_life 2 3) q → q.supervisor ≡ joining 0)
second_life_stuck_example = second_life_stuck 2 3 (omega arith)
