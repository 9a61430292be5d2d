-- ===== src/Middleware/Tests.antt =====
-- Runs of a chain that notes marks in a list.
use alkaidlab_fw.Base.{ℕ, List, [], ◌∷◌, ◌++◌, ◌≡◌}
use alkaidlab_fw.Base.Int.{pos}
use alkaidlab_fw.Middleware.{returned, Action, Entry, execute}
use alkaidlab_fw.Middleware.Onion.{marked, execute-append, execute_marks}

abbrev note : ℕ → Action (List ℕ)
note n log = returned (log ++ (n ∷ [])) (pos 200)

abbrev deny : Entry (List ℕ)
deny = record { name = []; fn = λ next. note 9 }

execute-append_example :
    execute ((marked (1, 2) ∷ []) ++ (deny ∷ [])) (note 5)
    ≡ execute (marked (1, 2) ∷ []) (execute (deny ∷ []) (note 5))
execute-append_example = execute-append (marked (1, 2) ∷ []) (deny ∷ []) (note 5)

execute_marks_example :
    execute (marked (1, 2) ∷ marked (3, 4) ∷ []) (λ log. returned (log ++ (5 ∷ [])) (pos 200)) []
    ≡ returned (1 ∷ 3 ∷ 5 ∷ 4 ∷ 2 ∷ []) (pos 200)
execute_marks_example = execute_marks ((1, 2) ∷ (3, 4) ∷ []) (5 ∷ []) [] (pos 200)

abbrev passes : Entry (List ℕ)
passes = record { name = []; fn = λ next. next }
