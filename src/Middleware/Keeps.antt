-- ===== src/Middleware/Keeps.antt =====
-- What every layer of a chain keeps, the chain keeps (src/Middleware.cpp).
use alkaidlab_fw.Base.{List, [], ◌∷◌, sym, subst, All}
use alkaidlab_fw.Middleware.{Outcome, returned, threw, Action, Entry, execute}
use alkaidlab_fw.Middleware.Onion.{nested, execute-nested}

module _ {S : Type 0} (P : S → Type 0) where
  abbrev pub Holds : Outcome S → Type 0
  Holds (returned s code) = P s
  Holds (threw s) = P s

  -- From a state with the property the action ends in one, also where it throws.
  abbrev pub IsKept : Action S → Type 0
  IsKept action = (s : S) → P s → Holds (action s)

  -- So does the entry, if what it calls on does.
  abbrev pub IsKeptBy : Entry S → Type 0
  IsKeptBy e = (next : Action S) → IsKept next → IsKept (e.fn next)

  nested-IsKept :
      (chain : List (Entry S)) (final : Action S)
      → All IsKeptBy chain
      → IsKept final
      → IsKept (nested chain final)
  nested-IsKept [] final layers inner = inner
  nested-IsKept (e ∷ chain) final layers inner =
      layers.0 (nested chain final) (nested-IsKept chain final layers.1 inner)

  -- A property of the state that each entry keeps whenever what it calls on keeps it, and that
  -- the handler keeps, holds when the chain is through, returned or thrown.
  pub execute-IsKept :
      (chain : List (Entry S)) (final : Action S)
      → All IsKeptBy chain
      → IsKept final
      → IsKept (execute chain final)
  execute-IsKept chain final layers inner =
      subst IsKept (sym (execute-nested chain final)) (nested-IsKept chain final layers inner)
