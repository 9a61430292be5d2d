-- ===== src/Logger/Tests.antt =====
-- Runs of the logger.
use alkaidlab_fw.Base.{◌≡◌, refl, List, [], ◌∷◌, true, false, All, map, codes}
use alkaidlab_fw.Logger.{
  warn, error, info, spd_err, logger, recreate_logger, set_level, set_console_enabled, log,
}
use alkaidlab_fw.Logger.Filter.{
  Op, sets_console, sets_level, logs, run, given, wanted, IsHeard, run_lem,
}

-- The console cannot be opened, and the old logger stays.
abbrev ops : List Op
ops =
    sets_level warn ∷ sets_console false true ∷ logs info (codes "a") ∷ logs error (codes "b") ∷ []

run_runs : map given (run ops (logger true)).calls ≡ (spd_err, codes "b") ∷ []
unfolding logger recreate_logger set_level set_console_enabled log
run_runs = refl

run_lem_example :
    (map given (run ops (logger true)).calls ≡ wanted info ops)
    × All IsHeard (run ops (logger true)).calls
run_lem_example = run_lem ops
