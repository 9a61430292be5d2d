-- ===== src/SafeId/Tests.antt =====
-- Runs of the test of identifiers.
use alkaidlab_fw.Base.{◌≡◌, refl, false, codes}
use alkaidlab_fw.SafeId.{is_safe_id, all_safe}

-- An underscore is refused.
underscore_runs : is_safe_id (codes "a_b") ≡ false
unfolding is_safe_id all_safe
underscore_runs = refl
