-- ===== src/Middleware.antt =====
-- The chain of middleware of src/Middleware.cpp and include/fw/Middleware.hpp. A callee is a
-- function of the state that it mutates; it returns a status or throws.
pub mod Onion
pub mod Keeps
mod Tests
use alkaidlab_fw.Base.{
  ℕ, zero, suc, ◌-◌, List, [], ◌∷◌, ◌++◌, Option, none, some, Bytes, leb, if◌then◌else◌, length,
  get_elem?,
}
use alkaidlab_fw.Base.Int.{ℤ}

pub data Outcome (S : Type 0) : Type 0 where
  returned : S → ℤ → Outcome S
  threw : S → Outcome S

abbrev pub Action : Type 0 → Type 0
Action S = S → Outcome S

-- `int(Context&, Next)`; calling the argument is calling `next()`.
abbrev pub MiddlewareFn : Type 0 → Type 0
MiddlewareFn S = Action S → Action S

pub record Entry (S : Type 0) : Type 0 where
  pub name : Bytes
  pub fn : MiddlewareFn S

module _ {S : Type 0} where
  unfoldable pub use_named : Bytes → MiddlewareFn S → List (Entry S) → List (Entry S)
  use_named name fn chain = chain ++ (record { name = name; fn = fn } ∷ [])

  unfoldable pub use_fn : MiddlewareFn S → List (Entry S) → List (Entry S)
  use_fn fn chain = chain ++ (record { name = []; fn = fn } ∷ [])

  -- The calls nest `fuel` deep at most; `none` at an index means that it is past the end.
  unfoldable pub run : ℕ → List (Entry S) → ℕ → Action S → Action S
  run zero chain idx final_handler = final_handler
  run (suc fuel) chain idx final_handler = elim (get_elem? chain idx) [
    | none ↦ final_handler
    | some e ↦ e.fn (run fuel chain (suc idx) final_handler)
  ]

  -- One nested call per entry.
  unfoldable pub execute : List (Entry S) → Action S → Action S
  execute chain final_handler = run (length chain) chain 0 final_handler

  unfoldable pub clear_chain : List (Entry S) → List (Entry S)
  clear_chain chain = []
