-- ===== src/Logging/Lines.antt =====
-- The logger of src/logging.rs: its lines, and where they go. Opening a file to append to it, and the
-- encoding of text as UTF-8, are parameters.
pub mod Stamps
use web_davs_zk.Common.{
  ℕ, zero, suc, ◌-◌, ◌/◌, ◌%◌, Bool, true, false, Option, none, some, List, [], ◌∷◌, ◌++◌, length,
  leb, ◌==◌, nat_eq, list_eq, if◌then◌else◌,
}
use web_davs_zk.Common.Int.{ℤ, pos, negsuc}
use web_davs_zk.Common.Text.{Text, text, show_padded}
use web_davs_zk.Common.Text.Trim.{trim, to_ascii_lowercase}
use web_davs_zk.Io.{Os, Result, ok, err}
use web_davs_zk.Config.{Config}
use web_davs_zk.Logging.{civil_from_days}

-- `{z:0w}` of an i64
abbrev pub show_int_padded : ℕ → ℤ → Text
show_int_padded w (pos n) = show_padded w n
show_int_padded w (negsuc n) = b'-' ∷ show_padded (w - 1) (suc n)

abbrev pub date_text : ℤ × ℕ × ℕ → Text
date_text (y, m, d) = show_int_padded 4 y ++ (b'-' ∷ (show_padded 2 m ++ (b'-' ∷ show_padded 2 d)))

abbrev pub time_text : ℕ → Text
time_text rem =
    show_padded 2 (rem / 3600)
    ++ (b':' ∷ (show_padded 2 (rem % 3600 / 60) ++ (b':' ∷ show_padded 2 (rem % 60))))

-- `secs / 86_400` is below 2^63, so `as i64` keeps it.
unfoldable pub utc_timestamp : ℕ → Text
unfolding civil_from_days
utc_timestamp secs =
    date_text (civil_from_days (pos (secs / 86400))) ++ (b' ' ∷ time_text (secs % 86400))

-- `log::Level`, and with `off` its `LevelFilter`, in the order of the crate.
pub data Level : Type 0 where
  off error warn info debug trace : Level

abbrev rank : Level → ℕ
rank off = 0
rank error = 1
rank warn = 2
rank info = 3
rank debug = 4
rank trace = 5

abbrev level_name : Level → Text
level_name off = text "OFF"
level_name error = text "ERROR"
level_name warn = text "WARN"
level_name info = text "INFO"
level_name debug = text "DEBUG"
level_name trace = text "TRACE"

unfoldable pub level_from_str : Text → Level
level_from_str s =
    let t = to_ascii_lowercase (trim s) in
    if t == text "off"
    then off
    else if t == text "error"
    then error
    else if t == text "warn"
    then warn
    else if t == text "warning"
    then warn
    else if t == text "info"
    then info
    else if t == text "debug"
    then debug
    else if t == text "trace"
    then trace
    else info

-- `{t:<w}`
abbrev pad_right : ℕ → Text → Text
pad_right zero t = t
pad_right (suc w) [] = b' ' ∷ pad_right w []
pad_right (suc w) (c ∷ t) = c ∷ pad_right w t

pub record Record : Type 0 where
  pub level : Level
  pub target : Text
  pub args : Text

-- The struct `NzkLogger`.
pub record NzkLogger : Type 0 where
  pub level : Level
  pub file : Option ℕ

-- The clock gives the seconds since 1970, or nothing where it is before that.
unfoldable pub format : Option ℕ → Record → Text
unfolding utc_timestamp
format now record_ =
    let secs : ℕ = elim now [ none ↦ 0 | some s ↦ s ] in
    utc_timestamp secs
    ++ (text " ["
        ++ (pad_right 5 (level_name record_.level)
            ++ (text "] " ++ (record_.target ++ (text ": " ++ (record_.args ++ (10 ∷ [])))))))

unfoldable pub enabled : NzkLogger → Level → Bool
enabled logger level = leb (rank level) (rank logger.level)

-- What is logged to: stderr, the files, the logger that is installed, and the maximal level.
pub record Output (State : Type 0) : Type 0 where
  pub stderr : Text
  pub fs : State
  pub logger : Option NzkLogger
  pub max_level : Level

module _ (os : Os) (as_bytes : Text → List ℕ)
    (open_append : Text → os.State → Result ℕ × os.State) where
  -- `write_all` and `flush` with their results dropped.
  abbrev write_line : Option ℕ → Text → os.State → os.State
  write_line none line s = s
  write_line (some handle) line s =
      let (_, s') = os.write_all handle (as_bytes line) s in (os.flush handle s').1

  unfoldable pub log : NzkLogger → Option ℕ → Record → Output os.State → Output os.State
  unfolding format enabled
  log logger now record_ out =
      let line = format now record_ in
      if enabled logger record_.level
      then record out { stderr = out.stderr ++ line; fs = write_line logger.file line out.fs }
      else out

  unfoldable pub flush : NzkLogger → Output os.State → Output os.State
  flush logger out = elim logger.file [
    | none ↦ out
    | some handle ↦ record out { fs = (os.flush handle out.fs).1 }
  ]

  abbrev default_level : Bool → Level
  default_level verbose = if verbose then debug else info

  abbrev level_of : Option Text → Bool → Level
  level_of none verbose = default_level verbose
  level_of (some s) verbose = if s == [] then default_level verbose else level_from_str s

  abbrev opened : Level → Text → Result ℕ × os.State → Output os.State → NzkLogger × Output os.State
  opened level path (ok handle, s) out =
      (record { level = level; file = some handle }, record out { fs = s })
  opened level path (err e, s) out = (
    record { level = level; file = none },
    record out {
      stderr =
          out.stderr
          ++ (text "warning: cannot open log file "
              ++ (path ++ (text ": " ++ (e.message ++ (10 ∷ [])))));
      fs = s;
    },
  )

  abbrev open_log : Level → Option Text → Output os.State → NzkLogger × Output os.State
  open_log level none out = (record { level = level; file = none }, out)
  open_log level (some path) out = opened level path (open_append path out.fs) out

  -- `set_boxed_logger` does nothing if there is a logger already; then the maximal level is set.
  abbrev install : Level → NzkLogger × Output os.State → Output os.State
  install level (logger, out) = record out {
    logger = some (elim out.logger [ none ↦ logger | some known ↦ known ]);
    max_level = level;
  }

  unfoldable pub init : Option Text → Bool → Option Text → Output os.State → Output os.State
  unfolding level_from_str
  init rust_log verbose log_file out =
      let level = level_of rust_log verbose in install level (open_log level log_file out)

  -- In src/main.rs.
  abbrev init_logging : Option Text → Config → Output os.State → Output os.State
  init_logging rust_log cfg out = init rust_log cfg.verbose cfg.log_file out
