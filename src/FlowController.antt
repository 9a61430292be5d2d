-- ===== src/FlowController.antt =====
-- The flow controller of src/FlowController.cpp and include/fw/FlowController.hpp, one call at a
-- time. The counters have 64 bits and wrap.
pub mod Counts
use alkaidlab_fw.Base.{ℕ, ◌+◌, ◌%◌, ◌^◌, Bool, true, false, ltb, if◌then◌else◌}

pub record FlowController : Type 0 where
  pub max_queue_size : ℕ
  pub drop_on_full : Bool
  pub drop_count : ℕ
  pub total_push_attempts : ℕ
  pub total_drops : ℕ

abbrev pub word : ℕ
word = 2 ^ 64

-- `fetch_add(1)`
abbrev pub bump : ℕ → ℕ
bump n = (n + 1) % word

unfoldable pub flow_controller : ℕ → Bool → FlowController
flow_controller max drop = record {
  max_queue_size = max;
  drop_on_full = drop;
  drop_count = 0;
  total_push_attempts = 0;
  total_drops = 0;
}

unfoldable pub can_push : ℕ → FlowController → Bool
can_push current_size f = ltb current_size f.max_queue_size

unfoldable pub record_drop : FlowController → FlowController
record_drop f = record f { drop_count = bump f.drop_count; total_drops = bump f.total_drops }

unfoldable pub try_push : ℕ → FlowController → FlowController × Bool
try_push current_size f =
    let tried = record f { total_push_attempts = bump f.total_push_attempts } in
    if can_push current_size tried
    then (tried, true)
    else if tried.drop_on_full
    then (record_drop tried, false)
    else (tried, false)

unfoldable pub reset_drop_count : FlowController → FlowController
reset_drop_count f = record f { drop_count = 0 }

unfoldable pub set_max_queue_size : ℕ → FlowController → FlowController
set_max_queue_size max f = record f { max_queue_size = max }

unfoldable pub set_drop_on_full : Bool → FlowController → FlowController
set_drop_on_full drop f = record f { drop_on_full = drop }
