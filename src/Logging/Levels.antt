-- ===== src/Logging/Levels.antt =====
-- Which messages the logger of internal/logging/logger.go writes under which configuration.
use scuffinger.Prelude.{
  ◌≡◌, refl, ap, ◌∙◌, not, String, string_eq, Bool, true, false, ◌||◌, List, ◌++◌, ◌==◌, arith,
  eq_iff, Bool-cases, inl, inr, if◌then◌else◌,
}
use scuffinger.Prelude.Int.{ℤ, leb_ℤ}
use scuffinger.Metrics.Counters.{LogMessages, inc_log_message}
use scuffinger.Config.Load.{LogConfig}
use scuffinger.Logging.Yaml
use scuffinger.Logging.Yaml.{YamlHandler, new_yaml_handler}
use scuffinger.Logging.{
  Handler, Handlers, level_debug, level_info, level_warn, level_error, level_named, parse_level,
  new_logger, log_at, debug, info, warn, error,
}
use mathlib.Core.Option.{some}

-- Each handler is enabled at the levels from its least one, as package slog documents of its own.
pub record HandlersLaws {A W : Type 0} (handlers : Handlers A W) : Type 0 where
  pub json_enabled : (least level : ℤ) → (handlers.json least).enabled level ≡ leb_ℤ least level
  pub text_enabled : (least level : ℤ) → (handlers.text least).enabled level ≡ leb_ℤ least level
  pub yaml_enabled : (least level : ℤ) → (handlers.yaml least).enabled level ≡ leb_ℤ least level

-- The YAML handler of the program keeps that law.
enabled-leb :
    (F : Type 0) (least level : ℤ)
    → Yaml.enabled {F = F} (new_yaml_handler (some least)) level ≡ leb_ℤ least level
unfolding Yaml.enabled new_yaml_handler
enabled-leb F least level = refl

named_debug : (s : String) → leb_ℤ (level_named s) level_debug ≡ (s == "debug")
unfolding level_named
named_debug s = ground arith

named_info :
    (s : String)
    → leb_ℤ (level_named s) level_info ≡ not (s == "warn" || s == "warning" || s == "error")
unfolding level_named
named_info s = elim (Bool-cases (s == "debug")) [
  | inl q ↦ rw ((eq_iff s "debug").0 q) refl
  | inr q ↦ rw q (ground arith)
]

named_warn : (s : String) → leb_ℤ (level_named s) level_warn ≡ not (s == "error")
unfolding level_named
named_warn s = elim (Bool-cases (s == "error")) [
  | inl q ↦ rw ((eq_iff s "error").0 q) refl
  | inr q ↦ rw q (ground arith)
]

named_error : (s : String) → leb_ℤ (level_named s) level_error ≡ true
unfolding level_named
named_error s = ground arith

if_twice :
    {A : Type 0} (b : Bool) (x y : A)
    → (if not b then y else if b then x else y) ≡ (if b then x else y)
if_twice true x y = refl
if_twice false x y = refl

if_not : {A : Type 0} (b : Bool) (x y : A) → (if not b then x else y) ≡ (if b then y else x)
if_not true x y = refl
if_not false x y = refl

module _ {A W : Type 0} (to_lower : String → String) (handlers : Handlers A W)
    (laws : HandlersLaws handlers) (cfg : LogConfig) where
  abbrev logger : Handler A W
  logger = new_logger to_lower handlers cfg

  new_logger-enabled :
      (level : ℤ) → logger.enabled level ≡ leb_ℤ (parse_level to_lower cfg.level) level
  unfolding new_logger parse_level
  new_logger-enabled level = ground (
    arith,
    laws.yaml_enabled (level_named (to_lower cfg.level)) level,
    laws.text_enabled (level_named (to_lower cfg.level)) level,
    laws.json_enabled (level_named (to_lower cfg.level)) level,
  )

  abbrev level_text : String
  level_text = to_lower cfg.level

  debug-enabled : logger.enabled level_debug ≡ (level_text == "debug")
  unfolding parse_level
  debug-enabled = new_logger-enabled level_debug ∙ named_debug level_text

  info-enabled :
      logger.enabled level_info
      ≡ not (level_text == "warn" || level_text == "warning" || level_text == "error")
  unfolding parse_level
  info-enabled = new_logger-enabled level_info ∙ named_info level_text

  warn-enabled : logger.enabled level_warn ≡ not (level_text == "error")
  unfolding parse_level
  warn-enabled = new_logger-enabled level_warn ∙ named_warn level_text

  error-enabled : logger.enabled level_error ≡ true
  unfolding parse_level
  error-enabled = new_logger-enabled level_error ∙ named_error level_text

  -- Over handlers that are enabled from their least level: `Error` always writes, `Warn` unless
  -- the configured level lower-cases to error, `Info` unless it does to error, warn or warning,
  -- and `Debug` only if it does to debug, with the caller in front of its attributes; each call
  -- counts its level.
  pub new_logger-Writes :
      (caller : List A) (msg : String) (attrs : List A) (m : LogMessages) (w : W)
      → (debug logger caller msg attrs (m, w) ≡ (
        inc_log_message "debug" m,
        if level_text == "debug" then logger.handle level_debug msg (caller ++ attrs) w else w,
      ))
        × (info logger msg attrs (m, w) ≡ (
          inc_log_message "info" m,
          if level_text == "warn" || level_text == "warning" || level_text == "error"
              then w
              else logger.handle level_info msg attrs w,
        ))
        × (warn logger msg attrs (m, w) ≡ (
          inc_log_message "warn" m,
          if level_text == "error" then w else logger.handle level_warn msg attrs w,
        ))
        × (error logger msg attrs (m, w)
            ≡ (inc_log_message "error" m, logger.handle level_error msg attrs w))
  unfolding debug info warn error log_at
  new_logger-Writes caller msg attrs m w = (
    ap (λ x. (inc_log_message "debug" m, x))
        (rw debug-enabled (if_twice (level_text == "debug") _ w)),
    ap (λ x. (inc_log_message "info" m, x))
        (rw info-enabled
          (if_not (level_text == "warn" || level_text == "warning" || level_text == "error") _ w)),
    ap (λ x. (inc_log_message "warn" m, x)) (rw warn-enabled (if_not (level_text == "error") _ w)),
    ap (λ x. (inc_log_message "error" m, x)) (rw error-enabled refl),
  )
