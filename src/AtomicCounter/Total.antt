-- ===== src/AtomicCounter/Total.antt =====
-- What the calls of several threads add up to (src/AtomicCounter.cpp).
use alkaidlab_fw.Base.{ℕ, ◌+◌, ◌%◌, ◌<◌, ◌≡◌, refl, arith, List, [], ◌∷◌}
use alkaidlab_fw.AtomicCounter.{word, minus, add, sub, increment_after, decrement_after}

pub data Op : Type 0 where
  adds : ℕ → Op
  subs : ℕ → Op

abbrev pub run : List Op → ℕ → ℕ
run [] v = v
run (adds delta ∷ ops) v = run ops (add delta v).0
run (subs delta ∷ ops) v = run ops (sub delta v).0

abbrev pub added : List Op → ℕ
added [] = 0
added (adds delta ∷ ops) = delta + added ops
added (subs delta ∷ ops) = added ops

abbrev pub taken : List Op → ℕ
taken [] = 0
taken (adds delta ∷ ops) = taken ops
taken (subs delta ∷ ops) = delta + taken ops

-- In whatever order the calls come, the counter is what it was, with what was added and less what
-- was taken, modulo 2^64.
pub run_lem : (ops : List Op) (v : ℕ) → (run ops v + taken ops) % word ≡ (v + added ops) % word
unfolding add sub
run_lem [] v = refl
run_lem (adds delta ∷ ops) v = omega (arith, run_lem ops ((v + delta) % word))
run_lem (subs delta ∷ ops) v = omega (arith, run_lem ops (minus v delta))

-- `counter++` and `counter--` return the counter before them.
pub increment_after_lem : (v : ℕ) → v < word → (increment_after v).1 ≡ v
unfolding increment_after add
increment_after_lem v low = omega (arith, low)

pub decrement_after_lem : (v : ℕ) → v < word → (decrement_after v).1 ≡ v
unfolding decrement_after sub
decrement_after_lem v low = omega (arith, low)
