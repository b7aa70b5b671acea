-- ===== src/Logger.antt =====
-- internal/logger/logger.go: the handler and the level that slog is given.
pub mod Format
use experiment_go.Prelude.{String, if◌then◌else◌, ◌||◌}
use experiment_go.Prelude.Text.{lower_is, equal_fold, trim_space}
use experiment_go.HttpApi.Middleware.{Level, debug, info, warn, error}

pub data Handler : Type 0 where
  text_handler json_handler : Handler

-- parseLevel
unfoldable pub parse_level : String → Level
unfolding lower_is trim_space
parse_level level =
    let word = trim_space level in
    if lower_is word "debug"
    then debug
    else if lower_is word "warn" || lower_is word "warning"
    then warn
    else if lower_is word "error"
    then error
    else info

-- New
unfoldable pub new_logger : String → String → Handler × Level
unfolding parse_level equal_fold
new_logger level format =
    (if equal_fold format "text" then text_handler else json_handler, parse_level level)
