-- ===== src/Muduo/Logger.antt =====
-- project/MyMuduo/Logger.h and Logger.cc: what a log macro writes. The time stamp and the formatted message are arguments.
use alexproject.Common.{◌≡◌, refl, Bool, true, false, [], ◌∷◌, ◌++◌}
use alexproject.Common.Decimal.{Text, truncated}
use alexproject.Common.Literal.{codes}

pub data LogLevel : Type 0 where
  info error fatal debug : LogLevel

abbrev pub tag : LogLevel → Text
tag info = codes "[INFO]"
tag error = codes "[ERROR]"
tag fatal = codes "[FATAL]"
tag debug = codes "[DEBUG]"

-- The one logger, with the level that was set last.
pub record Logger : Type 0 where
  pub loglevel : LogLevel

unfoldable pub set_log_level : LogLevel → Logger → Logger
set_log_level level l = record l { loglevel = level }

unfoldable pub log : Text → Text → Logger → Text
log time msg l = tag l.loglevel ++ (time ++ 58 ∷ (msg ++ 10 ∷ []))

-- LOG_INFO, LOG_ERROR, LOG_FATAL and LOG_DEBUG without MUDEBUG: what is written, the logger afterwards, and whether the process
-- goes on.
unfoldable pub log_macro : LogLevel → Text → Text → Logger → Text × Logger × Bool
unfolding set_log_level log
log_macro debug time msg l = ([], l, true)
log_macro fatal time msg l =
    (log time (truncated 1024 msg) (set_log_level fatal l), set_log_level fatal l, false)
log_macro level time msg l =
    (log time (truncated 1024 msg) (set_log_level level l), set_log_level level l, true)

-- Two threads share the logger: a line is tagged with the level that another thread set in between.
mistagged :
    (time msg : Text) (l : Logger)
    → log time msg (set_log_level error (set_log_level info l))
      ≡ codes "[ERROR]" ++ (time ++ 58 ∷ (msg ++ 10 ∷ []))
unfolding log set_log_level
mistagged time msg l = refl
