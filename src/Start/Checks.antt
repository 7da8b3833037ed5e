-- ===== src/Start/Checks.antt =====
-- The files that the program wants to be there before it starts.
use drnavigator.Common.{String, Bool, true, ◌≡◌, ◌≢◌, ◌⊎◌, ◌↔◌, none, ok, arith, eq_iff}
use drnavigator.Common.Dict.{get}
use drnavigator.Config.{Config}
use drnavigator.Utils.{Files, check_file}
use drnavigator.Start.{CommandLine, Flags, string_flags, bool_flags, read_flags}

module _ (cmd : CommandLine) (files : Files) (env : Config) (value : String → String)
    (on : String → Bool) where
  -- The command line answers for the flags that `init` declares.
  abbrev pub Answers : Type 0
  Answers =
      ((name : String) → get string_flags name ≢ none → cmd.get_string name ≡ ok (value name))
      × ((name : String) → get bool_flags name ≢ none → cmd.get_bool name ≡ ok (on name))

  -- A server with TLS is wanted.
  abbrev pub WantsTls : Type 0
  WantsTls = (value "bind-webhook" ≢ "") ⊎ (env.https_enabled ≡ true)

  abbrev pub HasFiles : Type 0
  HasFiles =
      (WantsTls
        → (check_file files (cmd.join (value "certdir") (value "certfile")) ≡ none)
          × (check_file files (cmd.join (value "certdir") (value "keyfile")) ≡ none))
      × (env.back_http_auth ≡ true → check_file files (value "tokenfile") ≡ none)

  abbrev pub the_flags : Flags
  the_flags = record {
    bind_address = value "bind";
    bind_webhook_address = value "bind-webhook";
    bind_metrics_address = value "bind-metrics";
    cert_dir = value "certdir";
    cert_file = value "certfile";
    key_file = value "keyfile";
    token_path = value "tokenfile";
    dev_mode = on "dev-mode";
  }

  -- The flags are read exactly when the files are there.
  pub read_flags-HasFiles :
      {W : Type 0} (w : W) → Answers → (read_flags cmd files env w ≡ (ok the_flags, w)) ↔ HasFiles
  unfolding read_flags get
  read_flags-HasFiles w (strings, bools) =
      let q1 = strings "bind" (ground arith) in
      let q2 = strings "bind-webhook" (ground arith) in
      let q3 = strings "bind-metrics" (ground arith) in
      let q4 = strings "certdir" (ground arith) in
      let q5 = strings "certfile" (ground arith) in
      let q6 = strings "keyfile" (ground arith) in
      let q7 = strings "tokenfile" (ground arith) in
      let q8 = bools "dev-mode" (ground arith) in
      (
        λ made. ground (arith, eq_iff (value "bind-webhook") ""),
        λ there. ground (arith, eq_iff (value "bind-webhook") ""),
      )
