-- ===== src/LockfreeQueue/Tests.antt =====
-- Runs of the queue.
use alkaidlab_fw.Base.{ℕ, ◌≡◌, refl, [], ◌∷◌}
use alkaidlab_fw.LockfreeQueue.{LockfreeQueue, fresh, enter, count_push, leave, size, count_pop}

abbrev made : LockfreeQueue ℕ
made = fresh 8

-- Two pushes, of which the first is counted, and a pop that is not.
abbrev busy : LockfreeQueue ℕ
busy = leave (2 ∷ []) (enter 2 (count_push 0 (enter 1 made)))

-- Between the two loads the other item leaves as well, and one pop is counted.
abbrev emptied : LockfreeQueue ℕ
emptied = count_pop 1 (leave [] busy)

size_runs : size busy emptied ≡ 0
unfolding size leave enter count_push count_pop
size_runs = refl
