-- ===== src/Middleware/Onion.antt =====
-- The nesting of the chain (src/Middleware.cpp, `execute` and `run`).
use alkaidlab_fw.Base.{
  ℕ, suc, ◌+◌, ◌≡◌, refl, sym, arith, ap, ◌∙◌, List, [], ◌∷◌, ◌++◌, some, length, get_elem?,
  append_assoc, append-nil, map,
}
use alkaidlab_fw.Base.Int.{ℤ}
use alkaidlab_fw.Middleware.{returned, threw, Action, MiddlewareFn, Entry, run, execute}

module _ {S : Type 0} where
  -- The first entry around the second, and so on inwards to the handler.
  abbrev pub nested : List (Entry S) → Action S → Action S
  nested [] final = final
  nested (e ∷ chain) final = e.fn (nested chain final)

  -- The loop over indices, from the index at which `rest` stands in the chain.
  run-nested :
      (rest chain : List (Entry S)) (idx : ℕ) (final : Action S)
      → ((i : ℕ) → get_elem? chain (idx + i) ≡ get_elem? rest i)
      → run (length rest) chain idx final ≡ nested rest final
  unfolding run
  run-nested [] chain idx final at = refl
  run-nested (e ∷ rest) chain idx final at =
      let here : get_elem? chain idx ≡ some e = ap (get_elem? chain) (omega arith) ∙ at 0 in
      let inner =
        run-nested rest chain (suc idx) final
          (λ i. ap (get_elem? chain) (omega arith) ∙ at (suc i)) in
      rw (run, here) (ap e.fn inner)

  pub execute-nested :
      (chain : List (Entry S)) (final : Action S) → execute chain final ≡ nested chain final
  unfolding execute
  execute-nested chain final =
      run-nested chain chain 0 final (λ i. ap (get_elem? chain) (omega arith))

  nested-append :
      (outer inner : List (Entry S)) (final : Action S)
      → nested (outer ++ inner) final ≡ nested outer (nested inner final)
  nested-append [] inner final = refl
  nested-append (e ∷ outer) inner final = ap e.fn (nested-append outer inner final)

  -- The entries of a chain run from the first inwards: a chain in two parts is the first part
  -- around the execution of the second, whatever the entries do with the state, however often
  -- they call on, and whether or not they throw.
  pub execute-append :
      (outer inner : List (Entry S)) (final : Action S)
      → execute (outer ++ inner) final ≡ execute outer (execute inner final)
  execute-append outer inner final =
      execute-nested (outer ++ inner) final
      ∙ nested-append outer inner final
      ∙ ap (nested outer) (sym (execute-nested inner final))
      ∙ sym (execute-nested outer (execute inner final))

  -- An entry that never calls on hides all that stands behind it: whatever stands there, and
  -- whatever the handler is, the chain acts as if it ended with that entry.
  pub execute_stops :
      (outer behind : List (Entry S)) (e : Entry S) (stop final final' : Action S)
      → ((next : Action S) → e.fn next ≡ stop)
      → execute (outer ++ (e ∷ behind)) final ≡ execute (outer ++ (e ∷ [])) final'
  execute_stops outer behind e stop final final' ends =
      execute-nested (outer ++ (e ∷ behind)) final
      ∙ nested-append outer (e ∷ behind) final
      ∙ ap (nested outer) (ends (nested behind final) ∙ sym (ends final'))
      ∙ sym (nested-append outer (e ∷ []) final')
      ∙ sym (execute-nested (outer ++ (e ∷ [])) final')

-- What an entry of the usual form does: a step before `next()`, a step on what comes back, and a
-- throw of what is inside passes through.
abbrev pub around : {S : Type 0} → (S → S) → (S → S) → MiddlewareFn S
around enter leave next s = elim (next (enter s)) [
  | returned s' code ↦ returned (leave s') code
  | threw s' ↦ threw s'
]

abbrev pub marked : ℕ × ℕ → Entry (List ℕ)
marked (enter, leave) = record {
  name = [];
  fn = around (λ log. log ++ (enter ∷ [])) (λ log. log ++ (leave ∷ []));
}

abbrev pub leaving : List (ℕ × ℕ) → List ℕ
leaving [] = []
leaving ((enter, leave) ∷ marks) = leaving marks ++ (leave ∷ [])

nested_marks :
    (marks : List (ℕ × ℕ)) (middle log : List ℕ) (code : ℤ)
    → nested (map marked marks) (λ l. returned (l ++ middle) code) log
      ≡ returned (log ++ (map (λ m. m.0) marks ++ (middle ++ leaving marks))) code
nested_marks [] middle log code =
    ap (λ (t : List ℕ). returned (log ++ t) code) (sym (append-nil middle))
nested_marks ((enter, leave) ∷ marks) middle log code =
    let inner = nested_marks marks middle (log ++ (enter ∷ [])) code in
    rw (around, inner) (ap (λ (t : List ℕ). returned t code) same)
  where
    entered : List ℕ
    entered = map (λ m. m.0) marks

    same :
        ((log ++ (enter ∷ [])) ++ (entered ++ (middle ++ leaving marks))) ++ (leave ∷ [])
        ≡ log ++ (enter ∷ (entered ++ (middle ++ (leaving marks ++ (leave ∷ [])))))
    same =
        append_assoc (log ++ (enter ∷ [])) (entered ++ (middle ++ leaving marks)) (leave ∷ [])
        ∙ ap (λ (t : List ℕ). (log ++ (enter ∷ [])) ++ t)
            (append_assoc entered (middle ++ leaving marks) (leave ∷ [])
              ∙ ap (λ (t : List ℕ). entered ++ t)
                  (append_assoc middle (leaving marks) (leave ∷ [])))
        ∙ append_assoc log (enter ∷ []) (entered ++ (middle ++ (leaving marks ++ (leave ∷ []))))

-- The onion: entries that each note a mark, call on and note another mark leave the first marks
-- in the chain's order, then what the handler notes, then the second marks in reverse.
pub execute_marks :
    (marks : List (ℕ × ℕ)) (middle log : List ℕ) (code : ℤ)
    → execute (map marked marks) (λ l. returned (l ++ middle) code) log
      ≡ returned (log ++ (map (λ m. m.0) marks ++ (middle ++ leaving marks))) code
execute_marks marks middle log code =
    ap (λ (f : Action (List ℕ)). f log)
      (execute-nested (map marked marks) (λ l. returned (l ++ middle) code))
    ∙ nested_marks marks middle log code
