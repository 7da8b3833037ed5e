-- ===== src/Geo/Logger.antt =====
-- paas-geo-monitor/logger/logger.go: the level of the log, which the environment sets. `os.LookupEnv`,
-- `strconv.ParseBool` and the construction of a logger by zap are parameters; a panic is an error.
use drnavigator.Common.{String, Bool, true, false, Option, none, some, Result, ok, err, GoError}

pub data Level : Type 0 where
  debug : Level
  info : Level

module _ (lookup : String → Option String) (parse_bool : String → Result String Bool) where
  -- `GetZapLogLevel`
  unfoldable pub get_zap_log_level : Result String Level
  get_zap_log_level = elim (lookup "PAAS_DEBUG") [
    | none ↦ ok info
    | some text ↦ elim (parse_bool text) [
      | err e ↦ err e
      | ok enabled ↦ elim enabled [ true ↦ ok debug | false ↦ ok info ]
    ]
  ]

  -- `SimpleLogger`, up to a panic. Its configuration is a constant that decodes.
  unfoldable pub simple_logger : (Level → GoError) → Result String Level
  simple_logger build = elim get_zap_log_level [
    | err e ↦ err e
    | ok level ↦ elim (build level) [ some e ↦ err e | none ↦ ok level ]
  ]
