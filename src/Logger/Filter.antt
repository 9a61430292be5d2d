-- ===== src/Logger/Filter.antt =====
-- Which messages reach spdlog (src/Logger.cpp).
use alkaidlab_fw.Base.{
  ℕ, ◌≤◌, ◌≡◌, refl, sym, subst, ap, ◌∙◌, arith, List, [], ◌∷◌, ◌++◌, Option, none, some, Bool,
  true, false, ltb, if◌then◌else◌, if_true, if_false, Bool-cases, inl, inr, Bytes, codes, length,
  take, ◌==◌, append_assoc, append-nil, map, All, All-append, if_both,
}
use alkaidlab_fw.Logger.{
  LogLevel, trace, debug, info, warn, error, rank, SpdLevel, spd_rank, to_spdlog_level, SpdLogger,
  Call, Logger, recreate_logger, logger, set_console_enabled, set_level, set_log_file, log, logf,
}

-- The calls of a logger; the first flags say that a new one of spdlog's can be made.
pub data Op : Type 0 where
  sets_console : Bool → Bool → Op
  sets_level : LogLevel → Op
  sets_file : Bool → Bytes → ℕ → ℕ → Op
  logs : LogLevel → Bytes → Op
  formats : LogLevel → Bytes → Op

abbrev pub apply : Op → Logger → Logger
apply (sets_console works enabled) s = set_console_enabled works enabled s
apply (sets_level level) s = set_level level s
apply (sets_file works dir size files) s = set_log_file works dir size files s
apply (logs level message) s = log level message s
apply (formats level message) s = logf level message s

abbrev pub run : List Op → Logger → Logger
run [] s = s
run (op ∷ ops) s = run ops (apply op s)

-- What is to be logged, with nothing known but the level that was set last.
abbrev pub passed : LogLevel → LogLevel → Bytes → List (SpdLevel × Bytes)
passed at level message =
    if ltb (rank level) (rank at) then [] else (to_spdlog_level level, message) ∷ []

abbrev pub spoken : LogLevel → Op → List (SpdLevel × Bytes)
spoken at (sets_console works enabled) = []
spoken at (sets_level level) = []
spoken at (sets_file works dir size files) = []
spoken at (logs level message) = passed at level message
spoken at (formats level message) = passed at level (take 4095 message)

abbrev pub level_behind : Op → LogLevel → LogLevel
level_behind (sets_console works enabled) at = at
level_behind (sets_level level) at = level
level_behind (sets_file works dir size files) at = at
level_behind (logs level message) at = at
level_behind (formats level message) at = at

abbrev pub wanted : LogLevel → List Op → List (SpdLevel × Bytes)
wanted at [] = []
wanted at (op ∷ ops) = spoken at op ++ wanted (level_behind op at) ops

abbrev pub given : Call → SpdLevel × Bytes
given c = (c.level, c.message)

-- A call that spdlog's logger does not drop for its level.
abbrev pub IsHeard : Call → Type 0
IsHeard c = spd_rank c.logger.level ≤ spd_rank c.level

-- The logger of spdlog is there, with the level that was set last.
abbrev Tuned : Logger → Type 0
Tuned s = (l : SpdLogger) × (s.logger ≡ some l) × (l.level ≡ to_spdlog_level s.level)

recreate-Tuned : (works : Bool) (s : Logger) → Tuned s → Tuned (recreate_logger works s)
unfolding recreate_logger
recreate-Tuned true s h = (_, refl, refl)
recreate-Tuned false s h = h

set_level-Tuned : (level : LogLevel) (s : Logger) → Tuned s → Tuned (set_level level s)
unfolding set_level
set_level-Tuned level s (l, there, same) = (
  record l { level = to_spdlog_level level },
  ap (λ o. elim o [ none ↦ none | some l ↦ some (record l { level = to_spdlog_level level }) ])
      there,
  refl,
)

abbrev Said : Logger → List (SpdLevel × Bytes) → Logger → Type 0
Said s out t =
    (map given t.calls ≡ map given s.calls ++ out) × (All IsHeard s.calls → All IsHeard t.calls)

silent : (s t : Logger) → t.calls ≡ s.calls → Said s [] t
silent s t same = (
  ap (map given) same ∙ sym (append-nil (map given s.calls)),
  λ h. subst (All IsHeard) (sym same) h,
)

recreate_calls : (works : Bool) (s : Logger) → (recreate_logger works s).calls ≡ s.calls
unfolding recreate_logger
recreate_calls true s = refl
recreate_calls false s = refl

recreate_level : (works : Bool) (s : Logger) → (recreate_logger works s).level ≡ s.level
unfolding recreate_logger
recreate_level true s = refl
recreate_level false s = refl

map-append : {A B : Type 0} (f : A → B) (xs ys : List A) → map f (xs ++ ys) ≡ map f xs ++ map f ys
map-append f [] ys = refl
map-append f (x ∷ xs) ys = ap (λ (t : List _). f x ∷ t) (map-append f xs ys)

rank_heard :
    (level at : LogLevel)
    → ltb (rank level) (rank at) ≡ false
    → spd_rank (to_spdlog_level at) ≤ spd_rank (to_spdlog_level level)
rank_heard level at loud =
    subst (λ n. n ≤ spd_rank (to_spdlog_level level)) (sym (ranks at))
      (subst (λ n. rank at ≤ n) (sym (ranks level)) (above (rank at) (rank level) loud))
  where
    ranks : (l : LogLevel) → spd_rank (to_spdlog_level l) ≡ rank l
    ranks trace = refl
    ranks debug = refl
    ranks info = refl
    ranks warn = refl
    ranks error = refl

    above : (a b : ℕ) → ltb b a ≡ false → a ≤ b
    above a b h = ground (arith, h)

-- What a call of `log` leaves.
abbrev Logged : LogLevel → Bytes → Logger → Logger → Type 0
Logged level message s t = Tuned t × (t.level ≡ s.level) × Said s (passed s.level level message) t

log-Logged :
    (level : LogLevel) (message : Bytes) (s : Logger)
    → Tuned s
    → Logged level message s (log level message s)
unfolding log
log-Logged level message s (l, there, same) =
    subst (Logged level message s) (sym (ap after there)) (elim (Bool-cases quiet) [
      | inl low ↦ subst (Logged level message s) (sym (if_true s spoken low)) (
        (l, there, same),
        refl,
        subst (λ out. Said s out s) (sym (if_true _ _ low)) (silent s s refl),
      )
      | inr loud ↦ subst (Logged level message s) (sym (if_false s spoken loud)) (
        (l, there, same),
        refl,
        subst (λ out. Said s out spoken) (sym (if_false _ _ loud))
            (
              map-append given s.calls (call ∷ []),
              λ h. All-append IsHeard s.calls (call ∷ []) h (
                subst (λ v. spd_rank v ≤ spd_rank (to_spdlog_level level)) (sym same)
                    (rank_heard level s.level loud),
                tt,
              ),
            ),
      )
    ])
  where
    quiet : Bool
    quiet = ltb (rank level) (rank s.level)

    call : Call
    call = record { logger = l; level = to_spdlog_level level; message = message }

    spoken : Logger
    spoken = record s { calls = s.calls ++ (call ∷ []) }

    after : Option SpdLogger → Logger
    after o = elim o [
      | none ↦ s
      | some l ↦ if ltb (rank level) (rank s.level) then s else record s {
        calls =
            s.calls
            ++ (record { logger = l; level = to_spdlog_level level; message = message } ∷ []);
      }
    ]

logf-Logged :
    (level : LogLevel) (message : Bytes) (s : Logger)
    → Tuned s
    → Logged level (take 4095 message) s (logf level message s)
unfolding logf
logf-Logged level message s (l, there, same) =
    subst (Logged level (take 4095 message) s) (sym (ap after there))
      (elim (Bool-cases (ltb (rank level) (rank s.level))) [
        | inl low ↦
            subst (Logged level (take 4095 message) s)
              (sym (if_true s (log level (take 4095 message) s) low))
              (
                (l, there, same),
                refl,
                subst (λ out. Said s out s) (sym (if_true _ _ low)) (silent s s refl),
              )
        | inr loud ↦
            subst (Logged level (take 4095 message) s)
              (sym (if_false s (log level (take 4095 message) s) loud))
              (log-Logged level (take 4095 message) s (l, there, same))
      ])
  where
    after : Option SpdLogger → Logger
    after o = elim o [
      | none ↦ s
      | some l ↦ if ltb (rank level) (rank s.level) then s else log level (take 4095 message) s
    ]

joins :
    (s t u : Logger) (a b : List (SpdLevel × Bytes)) → Said s a t → Said t b u → Said s (a ++ b) u
joins s t u a b first second = (
  second.0
      ∙ ap (λ (xs : List (SpdLevel × Bytes)). xs ++ b) first.0
      ∙ append_assoc (map given s.calls) a b,
  λ h. second.1 (first.1 h),
)

abbrev Applied : Op → Logger → Logger → Type 0
Applied op s t = Tuned t × (t.level ≡ level_behind op s.level) × Said s (spoken s.level op) t

recreate_lem :
    (works : Bool) (s t : Logger)
    → t.calls ≡ s.calls
    → t.level ≡ s.level
    → Tuned t
    → let u = recreate_logger works t in Tuned u × (u.level ≡ s.level) × Said s [] u
recreate_lem works s t calls level h = (
  recreate-Tuned works t h,
  recreate_level works t ∙ level,
  silent s (recreate_logger works t) (recreate_calls works t ∙ calls),
)

apply-Applied : (op : Op) (s : Logger) → Tuned s → Applied op s (apply op s)
unfolding set_console_enabled set_level set_log_file
apply-Applied (sets_console works enabled) s h =
    recreate_lem works s (record s { console_enabled = enabled }) refl refl h
apply-Applied (sets_level level) s h =
    (set_level-Tuned level s h, refl, silent s (set_level level s) refl)
apply-Applied (sets_file works dir size files) s h =
    if_both (λ t. Tuned t × (t.level ≡ s.level) × Said s [] t) (length dir == 0)
      (λ _. recreate_lem works s (record s { log_file = [] }) refl refl h)
      (λ _.
        recreate_lem works s
          (record s {
            max_file_size = size;
            max_files = files;
            log_file = dir ++ codes "/error.log";
          })
          refl refl h)
apply-Applied (logs level message) s h = log-Logged level message s h
apply-Applied (formats level message) s h = logf-Logged level message s h

run-Said : (ops : List Op) (s : Logger) → Tuned s → Said s (wanted s.level ops) (run ops s)
run-Said [] s h = silent s s refl
run-Said (op ∷ ops) s h =
    let (tuned, level, said) = apply-Applied op s h in
    joins s (apply op s) (run ops (apply op s)) _ _ said (
      subst (λ at. Said (apply op s) (wanted at ops) (run ops (apply op s))) level
        (run-Said ops (apply op s) tuned))

-- Behind any calls of a logger whose constructor could make one of spdlog's, whatever later
-- attempts to make a new one fail: spdlog was given the messages at or above the level that was set
-- last before each, in their order, formatted ones cut to 4095 bytes; and every call went to a
-- logger of spdlog whose own level lets it through.
pub run_lem :
    (ops : List Op)
    → (map given (run ops (logger true)).calls ≡ wanted info ops)
      × All IsHeard (run ops (logger true)).calls
unfolding logger recreate_logger
run_lem ops = let (said, heard) = run-Said ops (logger true) (_, refl, refl) in (said, heard tt)
