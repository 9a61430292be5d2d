-- ===== src/PathGuard/Tests.antt =====
-- Runs of the guard.
use alkaidlab_fw.Base.{◌++◌, ◌≡◌, refl, Bytes, codes, Option, none, some}
use alkaidlab_fw.PathGuard.{
  trim, strip_slashes, is_blocked, judge, depth, count_slashes, is_safe, safe, system_path,
}

abbrev unknown : Bytes → Option Bytes
unknown path = none

abbrev join : Bytes → Bytes → Bytes
join dir path = dir ++ (codes "/" ++ path)

is_safe_runs : is_safe unknown (some (codes "/srv")) join (codes "data/") ≡ safe
unfolding is_safe trim strip_slashes judge is_blocked depth count_slashes
is_safe_runs = refl

system_runs : is_safe unknown none join (codes "/etc//") ≡ system_path
unfolding is_safe trim strip_slashes judge is_blocked
system_runs = refl
