-- ===== src/Settings.antt =====
-- pkg/config/flags.go and pkg/logging/logging.go: the flags that the commands share, and the logger
-- that they set up.
use sandbox_mommy.Base.{
  ◌≡◌, refl, String, Bool, ◌||◌, Option, none, some, [], ◌∷◌, ◌==◌, string_eq, if◌then◌else◌,
}
use sandbox_mommy.Text.{codes, equal_codes, lower_codes}
use sandbox_mommy.Exec.{message, Result, ok, err}

pub record BaseOpts : Type 0 where
  pub metrics_bind_address : String
  pub pprof_bind_address : String
  pub log_format : String
  pub log_level : String
  pub log_output : String
  pub namespace : String

-- `os.LookupEnv` is the environment; `os.Getenv` gives the empty string for none.
abbrev pub get_env_with_default : (String → Option String) → String → String → String
get_env_with_default env key default_value = elim (env key) [
  | some value ↦ value
  | none ↦ default_value
]

abbrev pub get_env : (String → Option String) → String → String
get_env env key = elim (env key) [ some value ↦ value | none ↦ "" ]

-- The values of the flags where the command line gives none.
abbrev pub add_flags : (String → Option String) → BaseOpts
add_flags env = record {
  metrics_bind_address = get_env_with_default env "METRICS_BIND_ADDRESS" "";
  pprof_bind_address = get_env env "PPROF_BIND_ADDRESS";
  log_format = get_env_with_default env "LOG_FORMAT" "text";
  log_level = get_env_with_default env "LOG_LEVEL" "";
  log_output = get_env_with_default env "LOG_OUTPUT" "stdout";
  namespace = get_env env "NAMESPACE";
}

pub data Level : Type 0 where
  level_error level_warn level_info level_debug : Level

-- `Output` and `Format`, strings that have these names.
pub data Output : Type 0 where
  stdout stderr : Output

pub data Format : Type 0 where
  json text : Format

-- The default logger: one that discards, or a handler of a format on an output from a level on.
pub data Logger : Type 0 where
  discarding : Logger
  handling : Format → Output → Level → Logger

abbrev pub names_level : String → String → Bool
names_level level name = equal_codes (lower_codes level) (codes name)

abbrev pub detect_level : String → Level
detect_level level =
    if names_level level "error"
    then level_error
    else if names_level level "warn"
    then level_warn
    else if names_level level "info"
    then level_info
    else if names_level level "debug"
    then level_debug
    else level_info

abbrev pub logger_on : Output → String → Level → Result Logger
logger_on output log_format level =
    if log_format == "json"
    then ok (handling json output level)
    else if log_format == "text" || log_format == ""
    then ok (handling text output level)
    else err (message "unknown LogFormat: %s" (log_format ∷ []))

-- `SetupSlogLogger`: the logger that it makes the default one, or an error.
abbrev pub setup_slog_logger : String → String → String → Result Logger
setup_slog_logger output log_format level =
    if output == "stdout"
    then logger_on stdout log_format (detect_level level)
    else if output == "stderr"
    then logger_on stderr log_format (detect_level level)
    else if output == "discard"
    then ok discarding
    else err (message "unknown LogOutput: %s" (output ∷ []))

-- The flags that the commands have by default give a logger.
defaults_test :
    setup_slog_logger
      (add_flags (λ k. none)).log_output
      (add_flags (λ k. none)).log_format
      (add_flags (λ k. none)).log_level
    ≡ ok (handling text stdout level_info)
unfolding string_eq
defaults_test = refl
