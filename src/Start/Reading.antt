-- ===== src/Start/Reading.antt =====
-- site-manager/cmd/main.go: the flags of the command line and the configuration file, which
-- `ServeApp` reads before it sets anything up. An exit with the code 1 is an error, with the text
-- that is reported.
use drnavigator.Common.{
  String, Bool, false, not, none, some, [], ◌∷◌, Result, ok, err, GoError, ◌==◌, ◌||◌,
  if◌then◌else◌,
}
use drnavigator.Common.Action.{Action, ◌>>=◌, ◌>>◌, pure, raise}
use drnavigator.Common.Dict.{Dict}
use drnavigator.Config.{Config}
use drnavigator.Model.{SmConfig}
use drnavigator.Utils.{Files, check_file, parse_yaml_file}

-- An exit with the code 1: what is reported, and the error beside it.
pub record Exit : Type 0 where
  pub message : String
  pub cause : String

-- The command line: `GetString` and `GetBool`, and the environment.
pub record CommandLine : Type 0 where
  pub get_string : String → Result String String
  pub get_bool : String → Result String Bool
  pub getenv : String → String
  pub join : String → String → String

-- The flags that `init` declares, with their defaults.
abbrev pub string_flags : Dict String
string_flags =
    ("bind", ":8443")
    ∷ ("bind-webhook", "")
    ∷ ("bind-metrics", "")
    ∷ ("bind-probe", "")
    ∷ ("certdir", "")
    ∷ ("certfile", "")
    ∷ ("keyfile", "")
    ∷ ("tokenfile", "")
    ∷ []

abbrev pub bool_flags : Dict Bool
bool_flags = ("dev-mode", false) ∷ []

-- What `ServeApp` reads before it sets anything up.
pub record Flags : Type 0 where
  pub bind_address : String
  pub bind_webhook_address : String
  pub bind_metrics_address : String
  pub cert_dir : String
  pub cert_file : String
  pub key_file : String
  pub token_path : String
  pub dev_mode : Bool

module _ {W : Type 0} where
  abbrev pub or_exit : {A : Type 0} → String → Result String A → Action W Exit A
  or_exit message (ok a) = pure a
  or_exit message (err e) = raise (record { message = message; cause = e })

  -- A step that is taken on the outside and may fail.
  abbrev pub try_step : {A : Type 0} → String → (W → Result String A × W) → Action W Exit A
  try_step message step w = let (r, w1) = step w in or_exit message r w1

  abbrev pub or_fail : String → (W → GoError × W) → Action W Exit (Unit {0})
  or_fail message step w =
      let (e, w1) = step w in
      elim e [ none ↦ pure tt w1 | some c ↦ raise (record { message = message; cause = c }) w1 ]

  abbrev pub skip_unless : Bool → Action W Exit (Unit {0}) → Action W Exit (Unit {0})
  skip_unless needed step w = if needed then step w else pure tt w

  -- The check of a file.
  abbrev checked : Files → String → String → Action W Exit (Unit {0})
  checked files message path = or_fail message (λ w. (check_file files path, w))

  -- The first part of `ServeApp`.
  unfoldable pub read_flags : CommandLine → Files → Config → Action W Exit Flags
  read_flags cmd files env = do
    bind ← or_exit "error getting bind address for main app" (cmd.get_string "bind")
    webhook ← or_exit "error getting bind address" (cmd.get_string "bind-webhook")
    metrics ← or_exit "error getting bind address" (cmd.get_string "bind-metrics")
    dir ← or_exit "error getting cert dir" (cmd.get_string "certdir")
    cert ← or_exit "error getting cert file" (cmd.get_string "certfile")
    skip_unless (not (webhook == "") || env.https_enabled)
        (checked files "error getting cert file" (cmd.join dir cert))
    key ← or_exit "error getting key file" (cmd.get_string "keyfile")
    skip_unless (not (webhook == "") || env.https_enabled)
        (checked files "error getting key file" (cmd.join dir key))
    token ← or_exit "error getting token file" (cmd.get_string "tokenfile")
    skip_unless env.back_http_auth (checked files "error getting token file" token)
    dev ← or_exit "error getting dev-mode" (cmd.get_bool "dev-mode")
    pure (record {
      bind_address = bind;
      bind_webhook_address = webhook;
      bind_metrics_address = metrics;
      cert_dir = dir;
      cert_file = cert;
      key_file = key;
      token_path = token;
      dev_mode = dev;
    })

-- The configuration before a file is read.
abbrev pub empty_sm_config : SmConfig
empty_sm_config = record {
  testing = record { enabled = false; token = ""; sm_dict = record { services = [] } };
}

unfoldable pub load_sm_config :
    {W : Type 0} → Files → (String → Result String SmConfig) → Config → Action W Exit SmConfig
load_sm_config files decode env =
    if env.sm_config_file == ""
    then pure empty_sm_config
    else or_exit "error parsing sm config file" (parse_yaml_file files decode env.sm_config_file)
