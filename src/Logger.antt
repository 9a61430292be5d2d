-- ===== src/Logger.antt =====
-- The logger of src/Logger.cpp and include/fw/Logger.hpp over spdlog, and the configuration of
-- libhv's log of src/LogConfig.cpp. Of spdlog's logger its level and its sinks are kept, and the
-- calls of its `log`; whether a new logger can be made is an argument.
pub mod Filter
mod Tests
use alkaidlab_fw.Base.{
  ℕ, zero, suc, ◌*◌, List, [], ◌∷◌, ◌++◌, Option, none, some, Bool, true, false, not, ◌&&◌, ◌||◌,
  leb, ltb, ◌==◌, if◌then◌else◌, Bytes, codes, length, take,
}
use alkaidlab_fw.Base.Int.{ℤ, pos}

pub data LogLevel : Type 0 where
  trace : LogLevel
  debug : LogLevel
  info : LogLevel
  warn : LogLevel
  error : LogLevel

abbrev pub rank : LogLevel → ℕ
rank trace = 0
rank debug = 1
rank info = 2
rank warn = 3
rank error = 4

-- `spdlog::level::level_enum`, in its order.
pub data SpdLevel : Type 0 where
  spd_trace : SpdLevel
  spd_debug : SpdLevel
  spd_info : SpdLevel
  spd_warn : SpdLevel
  spd_err : SpdLevel
  spd_critical : SpdLevel
  spd_off : SpdLevel

abbrev pub spd_rank : SpdLevel → ℕ
spd_rank spd_trace = 0
spd_rank spd_debug = 1
spd_rank spd_info = 2
spd_rank spd_warn = 3
spd_rank spd_err = 4
spd_rank spd_critical = 5
spd_rank spd_off = 6

abbrev pub to_spdlog_level : LogLevel → SpdLevel
to_spdlog_level trace = spd_trace
to_spdlog_level debug = spd_debug
to_spdlog_level info = spd_info
to_spdlog_level warn = spd_warn
to_spdlog_level error = spd_err

abbrev pub from_spdlog_level : SpdLevel → LogLevel
from_spdlog_level spd_trace = trace
from_spdlog_level spd_debug = debug
from_spdlog_level spd_info = info
from_spdlog_level spd_warn = warn
from_spdlog_level spd_err = error
from_spdlog_level spd_critical = error
from_spdlog_level spd_off = error

pub data Sink : Type 0 where
  console : Sink
  rotating_file : Bytes → ℕ → ℕ → Sink

pub record SpdLogger : Type 0 where
  pub level : SpdLevel
  pub sinks : List Sink

-- A call of spdlog's `log`: the logger that it was made to, and what it was given.
pub record Call : Type 0 where
  pub logger : SpdLogger
  pub level : SpdLevel
  pub message : Bytes

pub record Logger : Type 0 where
  pub logger : Option SpdLogger
  pub level : LogLevel
  pub log_file : Bytes
  pub console_enabled : Bool
  pub max_file_size : ℕ
  pub max_files : ℕ
  pub calls : List Call

abbrev pub console_sinks : Logger → List Sink
console_sinks s = if s.console_enabled then console ∷ [] else []

abbrev pub file_sinks : Logger → List Sink
file_sinks s =
    if length s.log_file == 0 then [] else rotating_file s.log_file s.max_file_size s.max_files ∷ []

-- The flag says that nothing is thrown; else the old logger stays.
unfoldable pub recreate_logger : Bool → Logger → Logger
recreate_logger works s =
    if works
    then record s {
      logger =
          some
            (record { level = to_spdlog_level s.level; sinks = console_sinks s ++ file_sinks s });
    }
    else s

-- The constructor.
unfoldable pub logger : Bool → Logger
logger works = recreate_logger works (record {
  logger = none;
  level = info;
  log_file = [];
  console_enabled = false;
  max_file_size = 104857600;
  max_files = 5;
  calls = [];
})

unfoldable pub set_console_enabled : Bool → Bool → Logger → Logger
set_console_enabled works enabled s = recreate_logger works (record s { console_enabled = enabled })

unfoldable pub set_level : LogLevel → Logger → Logger
set_level level s = record s {
  level = level;
  logger = elim s.logger [
    | none ↦ none
    | some l ↦ some (record l { level = to_spdlog_level level })
  ];
}

unfoldable pub set_log_file : Bool → Bytes → ℕ → ℕ → Logger → Logger
set_log_file works log_dir max_file_size max_files s =
    if length log_dir == 0
    then recreate_logger works (record s { log_file = [] })
    else recreate_logger works (record s {
      max_file_size = max_file_size;
      max_files = max_files;
      log_file = log_dir ++ codes "/error.log";
    })

unfoldable pub log : LogLevel → Bytes → Logger → Logger
log level message s = elim s.logger [
  | none ↦ s
  | some l ↦ if ltb (rank level) (rank s.level) then s else record s {
    calls =
        s.calls ++ (record { logger = l; level = to_spdlog_level level; message = message } ∷ []);
  }
]

-- `tracef` to `errorf`; the buffer of 4096 bytes keeps the first 4095 of the formatted text.
unfoldable pub logf : LogLevel → Bytes → Logger → Logger
logf level formatted s = elim s.logger [
  | none ↦ s
  | some l ↦ if ltb (rank level) (rank s.level) then s else log level (take 4095 formatted) s
]

-- libhv's log, as `LogConfig` sets it; the level is that of libhv's constants.
pub data HvLevel : Type 0 where
  hv_debug : HvLevel
  hv_info : HvLevel
  hv_warn : HvLevel
  hv_error : HvLevel

unfoldable pub hv_level : ℤ → HvLevel
hv_level (pos zero) = hv_debug
hv_level (pos (suc zero)) = hv_info
hv_level (pos (suc (suc zero))) = hv_warn
hv_level (pos (suc (suc (suc zero)))) = hv_error
hv_level _ = hv_info

pub record LogConfig : Type 0 where
  pub initialized : Bool
  pub file : Bytes
  pub max_file_size : ℕ
  pub remain_days : ℕ
  pub level : HvLevel

-- What the file system answers of a directory: whether it exists and is a directory, and whether it
-- can be made and then is one.
pub record Directory : Type 0 where
  pub exists : Bool
  pub is_directory : Bool
  pub creates : Bool
  pub is_directory_then : Bool

abbrev pub set_hv_level : ℤ → LogConfig → LogConfig
set_hv_level level c = record c { level = hv_level level }

unfoldable pub ensure_directory : Directory → Bytes → Bool
ensure_directory at dir =
    if length dir == 0
    then false
    else if at.exists
    then at.is_directory
    else at.creates && at.is_directory_then

unfoldable pub initialize : Directory → Bytes → ℕ → ℕ → LogConfig → LogConfig × Bool
initialize at log_dir max_file_size remain_days c =
    if c.initialized then (c, true) else if not (ensure_directory at log_dir) then (c, false) else (
      record {
        initialized = true;
        file = log_dir ++ codes "/fw.log";
        max_file_size = max_file_size;
        remain_days = remain_days;
        level = hv_info;
      },
      true,
    )
