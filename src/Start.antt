-- ===== src/Start.antt =====
-- site-manager/cmd/main.go and site-manager/config/kube_config/kube_config.go: the start of
-- Site-Manager. The command line, the environment, controller-runtime and what `Token` and `Manager`
-- take are parameters.
pub mod Reading
pub mod Ready
pub mod Checks
pub mod Modes
pub mod Serving
pub mod Threads
pub mod Schemes
pub mod Setup
use drnavigator.Common.{
  ℕ, String, Bool, true, false, not, Option, none, some, List, [], ◌∷◌, ◌++◌, Result, ok, err,
  GoError, ◌==◌, ◌&&◌, ◌||◌, ◌+++◌, if◌then◌else◌,
}
use drnavigator.Common.Num.{ℤ}
use drnavigator.Common.Action.{Action, ◌>>=◌, ◌>>◌, pure, raise}
use drnavigator.Common.Dict.{Dict}
use drnavigator.Config.{Config}
use drnavigator.Model.{SmConfig, SmConfigTesting, SmDictionary}
use drnavigator.Utils.{Files, check_file, parse_yaml_file}
use drnavigator.Http.{HttpClient}
use drnavigator.Cluster.{KubeClient, CrClient, new_cr_client}
use drnavigator.Token.{Outside, TokenWatcher, get_token}
use drnavigator.Manager.{CrManager}
pub use drnavigator.Start.Reading.{
  Exit, CommandLine, string_flags, bool_flags, Flags, or_exit, try_step, or_fail, skip_unless,
  empty_sm_config,
}
unfoldable pub use drnavigator.Start.Reading.{read_flags, load_sm_config}
use drnavigator.Manager.Setup.{TlsConfig, Codecs, new_cr_manager}

-- The options of the webhook server and of the manager of controller-runtime.
pub record WebhookServer : Type 0 where
  pub host : String
  pub port : ℤ
  pub cert_dir : String
  pub key_name : String
  pub cert_name : String

pub record RuntimeOptions : Type 0 where
  pub metrics_address : String
  pub webhook_server : Option WebhookServer
  pub leader_election : Bool
  pub leader_election_id : String
  pub leader_election_namespace : String

-- What is registered with the manager of controller-runtime.
pub data Registration : Type 0 where
  legacy_reconciler : Registration
  site_manager_reconciler : Registration
  site_manager_webhook : Registration
  webhook_v1 : Registration
  webhook_v2 : Registration
  webhook_v3 : Registration

-- The calls of the Kubernetes libraries, over kube configurations of type `R`, and of fsnotify:
-- `new_watcher` makes a watcher that has no path yet.
pub record Platform (W R : Type 0) : Type 0 where
  pub in_cluster_config : W → Result String R × W
  pub build_config : String → W → Result String R × W
  pub split_host_port : String → Result String (String × String)
  pub atoi : String → Result String ℤ
  pub new_manager : R → RuntimeOptions → W → Result String (KubeClient W) × W
  pub register : Registration → W → GoError × W
  pub new_watcher : W → GoError × W

-- What runs beside the program's main goroutine.
pub data Task : Type 0 where
  token_watcher : Task
  main_server : Task
  runtime_manager : Task

-- The program once it is set up.
pub record Program (W : Type 0) : Type 0 where
  pub flags : Flags
  pub sm_config : SmConfig
  pub manager : CrManager W
  pub tasks : List Task

module _ {W R : Type 0} (platform : Platform W R) (files : Files) (env : Config) where
  -- `GetKubeConfig`
  unfoldable pub get_kube_config : W → Result String R × W
  get_kube_config w =
      if not (env.kubeconfig_file == "")
      then elim (check_file files env.kubeconfig_file) [
        | some e ↦ (err ("error getting kubeconfig file: " +++ e), w)
        | none ↦
            let (r, w1) = platform.build_config env.kubeconfig_file w in
            elim r [
              | err e ↦ (err ("error config for kubernetes client: " +++ e), w1)
              | ok config ↦ (ok config, w1)
            ]
      ]
      else let (r, w1) = platform.in_cluster_config w in
        elim r [
          | err e ↦ (err ("error config for kubernetes client: " +++ e), w1)
          | ok config ↦ (ok config, w1)
        ]

module _ {W R : Type 0} (platform : Platform W R) where
  -- The server of the webhooks, if an address is given for it.
  unfoldable pub webhook_server : Flags → Action W Exit (Option WebhookServer)
  webhook_server flags = if flags.bind_webhook_address == "" then pure none else do
    (host, sport) ←
        or_exit "error parsing bind address \"%s\""
          (platform.split_host_port flags.bind_webhook_address)
    port ← or_exit "error parsing bind address \"%s\"" (platform.atoi sport)
    pure (
        some (record {
          host = host;
          port = port;
          cert_dir = flags.cert_dir;
          key_name = flags.key_file;
          cert_name = flags.cert_file;
        }))

unfoldable pub runtime_options : Config → Flags → Option WebhookServer → RuntimeOptions
runtime_options env flags server = record {
  metrics_address = if flags.bind_metrics_address == "" then "0" else flags.bind_metrics_address;
  webhook_server = server;
  leader_election = not flags.dev_mode;
  leader_election_id = "sitemanagers.legacy.qubership.org";
  leader_election_namespace = env.pod_namespace;
}

-- What the parts of the program are made of: the clients of `NewCRManager`, the outside of the token
-- watcher, and the token that it holds in a state.
pub record Parts (W : Type 0) : Type 0 where
  pub make_client : TlsConfig → ℤ → HttpClient W
  pub codecs : Codecs
  pub outside : Outside W
  pub current_token : W → String

module _ {W R : Type 0} (platform : Platform W R) (parts : Parts W) (cmd : CommandLine)
    (files : Files) (env : Config) where
  unfoldable pub token_of : SmConfig → Flags → W → String
  token_of sm_config flags w =
      get_token parts.outside env sm_config flags.token_path
        (record { current_token = parts.current_token w; world = w })

  -- `NewTokenWatcher` and `NewCRManager`, in both modes.
  unfoldable pub make_manager : SmConfig → Flags → Option (CrClient W) → Action W Exit (CrManager W)
  unfolding token_of
  make_manager sm_config flags client = do
    or_fail "unable to initialize token watcher" platform.new_watcher
    or_exit "unable to initialize cr manager service" (
        new_cr_manager files parts.make_client parts.codecs env sm_config client
          (token_of sm_config flags))

  -- The reconcilers, and the webhook of the resources of qubership.org.
  unfoldable pub register_controllers : Action W Exit (Unit {0})
  register_controllers = do
    or_fail "unable to create controller" (platform.register legacy_reconciler)
    or_fail "unable to create controller" (platform.register site_manager_reconciler)
    skip_unless (not (cmd.getenv "ENABLE_WEBHOOKS" == "false"))
        (or_fail "unable to create webhook" (platform.register site_manager_webhook))

  -- The webhooks of the legacy versions.
  unfoldable pub register_webhooks : Action W Exit (Unit {0})
  register_webhooks = do
    or_fail "unable to initialize validator" (platform.register webhook_v1)
    or_fail "unable to initialize validator" (platform.register webhook_v2)
    or_fail "unable to initialize validator" (platform.register webhook_v3)

  -- What is set up outside of the testing mode.
  unfoldable pub set_up_live : SmConfig → Flags → Action W Exit (CrManager W)
  set_up_live sm_config flags = do
    config ← try_step "error creating kube client" (get_kube_config platform files env)
    server ← webhook_server platform flags
    kube ←
        try_step "unable to start manager"
          (platform.new_manager config (runtime_options env flags server))
    register_controllers
    manager ← make_manager sm_config flags (some (new_cr_client kube))
    register_webhooks
    pure manager

  -- The goroutines, in the order in which they are started.
  unfoldable pub tasks_of : SmConfig → List Task
  tasks_of sm_config =
      (if not sm_config.testing.enabled && env.back_http_auth then token_watcher ∷ [] else [])
      ++ (main_server ∷ (if sm_config.testing.enabled then [] else runtime_manager ∷ []))

  -- `ServeApp` up to the start of the goroutines.
  unfoldable pub serve_app : (String → Result String SmConfig) → Action W Exit (Program W)
  serve_app decode = do
    flags ← read_flags cmd files env
    sm_config ← load_sm_config files decode env
    manager ←
        if sm_config.testing.enabled
        then make_manager sm_config flags none
        else set_up_live sm_config flags
    pure (record {
      flags = flags;
      sm_config = sm_config;
      manager = manager;
      tasks = tasks_of sm_config;
    })

-- The end of `ServeApp`: the first value on the channel of errors decides, and the exit has the code
-- 0 if it is nil. While none arrives the program goes on.
unfoldable pub exit_code : List GoError → Option ℕ
exit_code [] = none
exit_code (none ∷ later) = some 0
exit_code (some e ∷ later) = some 1
