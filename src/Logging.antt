-- ===== src/Logging.antt =====
-- internal/logging/logger.go. `to_lower` stands for `strings.ToLower`; a handler of package slog is
-- a record of what a `slog.Logger` calls. The key/value pairs of a call are its attributes.
pub mod Names
pub mod Yaml
pub mod Lines
pub mod Levels
use scuffinger.Prelude.{
  ℕ, String, string_eq, Bool, not, ◌||◌, Option, none, some, List, [], ◌∷◌, ◌++◌, ◌==◌,
  if◌then◌else◌,
}
use scuffinger.Prelude.Int.{ℤ, pos, negsuc}
use scuffinger.Config.Load.{LogConfig}
use scuffinger.Metrics.Counters.{LogMessages, inc_log_message}
use scuffinger.Logging.Names.{short_func_name, short_file_path}

-- slog.LevelDebug and its fellows
abbrev pub level_debug : ℤ
level_debug = negsuc 3

abbrev pub level_info : ℤ
level_info = pos 0

abbrev pub level_warn : ℤ
level_warn = pos 4

abbrev pub level_error : ℤ
level_error = pos 8

-- what a `slog.Logger` asks of its handler: `A` is the type of attributes
pub record Handler (A W : Type 0) : Type 0 where
  pub enabled : ℤ → Bool
  pub handle : ℤ → String → List A → W → W

-- slog.HandlerOptions: the least level
pub record Handlers (A W : Type 0) : Type 0 where
  pub json : ℤ → Handler A W
  pub text : ℤ → Handler A W
  pub yaml : ℤ → Handler A W

level_named : String → ℤ
level_named s =
    if s == "debug"
    then level_debug
    else if s == "warn" || s == "warning"
    then level_warn
    else if s == "error"
    then level_error
    else level_info

module _ (to_lower : String → String) where
  unfoldable pub parse_level : String → ℤ
  unfolding level_named
  parse_level s = level_named (to_lower s)

  -- the handler that the configuration chooses
  unfoldable pub new_logger : {A W : Type 0} → Handlers A W → LogConfig → Handler A W
  unfolding parse_level
  new_logger handlers cfg =
      let format = to_lower cfg.format in
      let level = parse_level cfg.level in
      if format == "yaml"
      then handlers.yaml level
      else if format == "plain"
      then handlers.text level
      else handlers.json level

-- what `runtime.Caller` and `runtime.FuncForPC` know of the caller
pub record Frame : Type 0 where
  pub function : Option String
  pub file : String
  pub line : ℕ

or_unknown : Option String → String
or_unknown none = "unknown"
or_unknown (some name) = short_func_name name

module _ {A : Type 0} (text_attr : String → String → A) (line_attr : String → ℕ → A) where
  unfoldable pub caller_fields : Option Frame → List A
  unfolding or_unknown
  caller_fields none = []
  caller_fields (some f) =
      text_attr "caller.function" (or_unknown f.function)
      ∷ text_attr "caller.file" (short_file_path f.file)
      ∷ line_attr "caller.line" f.line
      ∷ []

module _ {A W : Type 0} (handler : Handler A W) where
  -- the methods of slog.Logger: nothing is handled below the level of the handler
  unfoldable pub log_at : ℤ → String → List A → W → W
  log_at level msg attrs w = if handler.enabled level then handler.handle level msg attrs w else w

  -- The methods of Logger, on the counter of messages and the world.
  unfoldable pub debug : List A → String → List A → LogMessages × W → LogMessages × W
  unfolding log_at
  debug caller msg attrs (m, w) = (
    inc_log_message "debug" m,
    if not (handler.enabled level_debug) then w else log_at level_debug msg (caller ++ attrs) w,
  )

  unfoldable pub info : String → List A → LogMessages × W → LogMessages × W
  unfolding log_at
  info msg attrs (m, w) = (inc_log_message "info" m, log_at level_info msg attrs w)

  unfoldable pub warn : String → List A → LogMessages × W → LogMessages × W
  unfolding log_at
  warn msg attrs (m, w) = (inc_log_message "warn" m, log_at level_warn msg attrs w)

  unfoldable pub error : String → List A → LogMessages × W → LogMessages × W
  unfolding log_at
  error msg attrs (m, w) = (inc_log_message "error" m, log_at level_error msg attrs w)
