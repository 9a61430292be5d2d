-- ===== src/SpscQueue/Tests.antt =====
-- Rings at concrete values.
use alkaidlab_fw.Base.{
  ℕ, ◌*◌, ◌^◌, ◌≤◌, ◌<◌, ◌≡◌, refl, arith, List, [], ◌∷◌, none, some, true, false, max,
}
use alkaidlab_fw.SpscQueue.{Ring, push, pop, size, is_power_of_two, next_power_of_two, double_until}
use alkaidlab_fw.SpscQueue.Capacity.{next_power_of_two_lem}
use alkaidlab_fw.SpscQueue.Valid.{IsValid}
use alkaidlab_fw.SpscQueue.Fifo.{contents}
use alkaidlab_fw.SpscQueue.Refine.{Call, puts, gets, done, got, run, run_queue, run_refines}

abbrev wrapped : Ring ℕ
wrapped = record {
  buffer = 9 ∷ 0 ∷ 0 ∷ 8 ∷ [];
  capacity = 4;
  mask = 3;
  write_pos = 1;
  read_pos = 3;
  push_count = 5;
  pop_count = 3;
  drop_count = 0;
}

wrapped-IsValid : IsValid wrapped
wrapped-IsValid = record {
  exponent = 2;
  power = refl;
  small = omega arith;
  mask_lem = refl;
  storage = refl;
  read_in = omega arith;
  write_in = omega arith;
}

contents-wrapped : contents 0 wrapped ≡ 8 ∷ 9 ∷ []
unfolding size
contents-wrapped = refl

abbrev script : List (Call {A = ℕ} 0)
script = puts 1 ∷ puts 2 ∷ gets ∷ gets ∷ gets ∷ gets ∷ []

-- Three items fill a ring of capacity 4.
run-wrapped :
    run 0 script wrapped
    ≡ done true ∷ done false ∷ got (some 8) ∷ got (some 9) ∷ got (some 1) ∷ got none ∷ []
unfolding run push pop
run-wrapped = refl

run_refines_example : run 0 script wrapped ≡ run_queue 0 4 script (contents 0 wrapped)
run_refines_example = run_refines 0 script wrapped-IsValid

next_power_of_two_runs : next_power_of_two 65 100 ≡ some 128
unfolding next_power_of_two is_power_of_two double_until
next_power_of_two_runs = refl

next_power_of_two_lem_example :
    (k : ℕ) × (next_power_of_two 65 100 ≡ some (2 ^ k)) × (100 ≤ 2 ^ k) × (2 ^ k < max 2 (2 * 100))
next_power_of_two_lem_example = next_power_of_two_lem 100 (omega arith)
