-- ===== src/Tests/StartRuns.antt =====
-- The start of Site-Manager, in the testing mode and with a cluster.
use drnavigator.Common.{
  ℕ, suc, String, true, false, ◌≡◌, ◌⊎◌, ◌↔◌, refl, Option, none, some, List, [], ◌∷◌, Result, ok,
  GoError, Memᴰ, ◌==◌, ◌+++◌, if◌then◌else◌,
}
use drnavigator.Common.Num.{pos}
use drnavigator.Config.{Config, default_config}
use drnavigator.Model.{SmConfig, SmRequest}
use drnavigator.Utils.{Files, check_file}
use drnavigator.Cluster.{KubeClient, CrClient, new_cr_client}
use drnavigator.Token.{validate_token}
use drnavigator.Manager.{CrManager, get_all_services}
use drnavigator.Manager.Setup.{Codecs}
use drnavigator.Manager.Collect.{Stop}
use drnavigator.App.{Response, root_get}
use drnavigator.App.Server.{process, Call, Listening, plain, with_tls, handle, serve_main_server}
use drnavigator.App.Server.Answers.{Replies}
use drnavigator.Start.{
  Exit, CommandLine, Flags, empty_sm_config, token_of, string_flags, bool_flags, Platform, Parts,
  Program, Task, main_server, token_watcher, runtime_manager, read_flags, serve_app, exit_code,
}
use drnavigator.Start.Checks.{HasFiles, the_flags, read_flags-HasFiles}
use drnavigator.Start.Modes.{serve_app-Memᴰ, serve_app-testing}
use drnavigator.Start.Serving.{serve_app-handle, serve_app-serve_main_server}
use drnavigator.Tests.ResourceRuns.{cr_v3, sm}
use drnavigator.Tests.Fixtures.{
  network, decode_status, decode_healthz, decode_process, encode_process, testing, outside,
  key_auth, key_auth-IsKeyAuth,
}

-- Every flag of a text has its default, but for three.
abbrev value : String → String
value name =
    if name == "certfile"
    then "tls.crt"
    else if name == "keyfile"
    then "tls.key"
    else if name == "tokenfile"
    then "/token"
    else ""

abbrev pub cmd : CommandLine
cmd = record {
  get_string = λ name. ok (value name);
  get_bool = λ name. ok false;
  getenv = λ name. "";
  join = λ dir file. dir +++ "/" +++ file;
}

abbrev pub files : Files
files = record { is_dir = λ path. ok false; read_file = λ path. ok "" }

-- TLS, and a token for the requests to services.
abbrev secure : Config
secure = record default_config { https_enabled = true; back_http_auth = true }

read_flags-HasFiles_example :
    (read_flags {W = ℕ} cmd files secure 0
      ≡ (ok (the_flags cmd files secure value (λ name. false)), 0))
    ↔ HasFiles cmd files secure value (λ name. false)
read_flags-HasFiles_example =
    read_flags-HasFiles cmd files secure value (λ name. false) 0
      (λ name known. refl, λ name known. refl)

abbrev kube : KubeClient ℕ
kube = record {
  list_legacy = λ w. (record { found = []; error = none }, suc w);
  get_legacy = λ namespace name w. (record { object = cr_v3 none; error = none }, suc w);
  update_legacy_status = λ x w. (none, suc w);
  list_site_managers = λ w. (record { found = []; error = none }, suc w);
  get_site_manager = λ namespace name w. (record { object = sm "pg" "u"; error = none }, suc w);
  update_site_manager_status = λ x w. (none, suc w);
}

-- A platform on which everything works.
abbrev platform : Platform ℕ (Unit {0})
platform = record {
  in_cluster_config = λ w. (ok tt, suc w);
  build_config = λ path w. (ok tt, suc w);
  split_host_port = λ address. ok ("", "443");
  atoi = λ s. ok (pos 443);
  new_manager = λ config options w. (ok kube, suc w);
  register = λ r w. (none, suc w);
  new_watcher = λ w. (none, suc w);
}

abbrev pub codecs : Codecs
codecs = record {
  decode_status = decode_status;
  decode_healthz = decode_healthz;
  decode_process = decode_process;
  encode_process = encode_process;
}

abbrev parts : Parts ℕ
parts = record {
  make_client = λ tls timeout. network;
  codecs = codecs;
  outside = outside;
  current_token = λ w. "secret";
}

abbrev decode : String → Result String SmConfig
decode text = ok testing

-- With a file for its configuration, Site-Manager runs in the testing mode here.
abbrev tested : Config
tested = record secure { sm_config_file = "/config" }

-- The program that a start returns, if it does.
abbrev end_of : Config → Result Exit (Program ℕ) × ℕ
end_of env = serve_app platform parts cmd files env decode 0

abbrev program : Config → SmConfig → Option (CrClient ℕ) → List Task → Program ℕ
program env sm_config client tasks = record {
  flags = the_flags cmd files env value (λ name. false);
  sm_config = sm_config;
  manager = record {
    env = env;
    sm_config = some sm_config;
    cr_client = client;
    get_token =
        token_of platform parts cmd files env sm_config
          (the_flags cmd files env value (λ name. false));
    get_http_client = network;
    post_http_client = network;
    decode_status = decode_status;
    decode_healthz = decode_healthz;
    decode_process = decode_process;
    encode_process = encode_process;
  };
  tasks = tasks;
}

abbrev live_program : Program ℕ
live_program =
    program secure empty_sm_config (some (new_cr_client kube))
      (token_watcher ∷ main_server ∷ runtime_manager ∷ [])

abbrev tested_program : Program ℕ
tested_program = program tested testing none (main_server ∷ [])

starts : end_of secure ≡ (ok live_program, 9)
unfolding serve_app read_flags check_file drnavigator.Start.load_sm_config
    drnavigator.Start.set_up_live drnavigator.Start.get_kube_config drnavigator.Start.webhook_server
    drnavigator.Start.register_controllers drnavigator.Start.make_manager
    drnavigator.Manager.Setup.new_cr_manager drnavigator.Manager.Setup.tls_config
    drnavigator.Utils.parse_bool drnavigator.Start.register_webhooks drnavigator.Start.tasks_of
starts = refl

starts_tested : end_of tested ≡ (ok tested_program, 1)
unfolding serve_app read_flags check_file drnavigator.Start.load_sm_config
    drnavigator.Utils.parse_yaml_file drnavigator.Start.make_manager
    drnavigator.Manager.Setup.new_cr_manager drnavigator.Manager.Setup.tls_config
    drnavigator.Utils.parse_bool drnavigator.Start.tasks_of
starts_tested = refl

serve_app-Memᴰ_example :
    Memᴰ main_server live_program.tasks
    × (Memᴰ token_watcher live_program.tasks
        ↔ ((live_program.sm_config.testing.enabled ≡ false) × (secure.back_http_auth ≡ true)))
    × (Memᴰ runtime_manager live_program.tasks ↔ (live_program.sm_config.testing.enabled ≡ false))
serve_app-Memᴰ_example =
    serve_app-Memᴰ platform parts cmd files secure decode 0 9 live_program starts

serve_app-testing_example :
    (◌≡◌ {A = ℕ} 1 (platform.new_watcher 0).1)
    × (tested_program.tasks ≡ main_server ∷ [])
    × (tested_program.manager.cr_client ≡ none)
    × ((u : ℕ)
        → get_all_services tested_program.manager u
          ≡ (ok tested_program.sm_config.testing.sm_dict, u))
serve_app-testing_example =
    serve_app-testing platform parts cmd files tested decode 0 1 tested_program starts_tested refl

abbrev to_request : String → Result String SmRequest
to_request s =
    ok (record { procedure = "list"; service = none; with_deps = false; no_wait = false })

abbrev page : ℕ → Result Stop Response × ℕ
page w = (ok root_get, w)

abbrev call : Call
call = record { key = none; body = ok "{}" }

serve_app-handle_example : Replies (
    handle key_auth secure
      (validate_token parts.outside secure live_program.sm_config live_program.flags.token_path)
      to_request
      page
      live_program.manager
      process
      call)
serve_app-handle_example =
    serve_app-handle platform parts cmd files secure decode 0 9 live_program starts key_auth
      key_auth-IsKeyAuth to_request page (λ w. (root_get, refl)) process call

abbrev new_cert_watcher : String → String → ℕ → GoError × ℕ
new_cert_watcher cert key w = (none, suc w)

abbrev listening : Listening
listening = with_tls "" "/tls.crt" "/tls.key"

listens :
    serve_main_server new_cert_watcher cmd.join secure live_program.flags.bind_address
      live_program.flags.cert_dir live_program.flags.cert_file live_program.flags.key_file 9
    ≡ (ok listening, 10)
unfolding serve_main_server
listens = refl

serve_app-serve_main_server_example :
    ((secure.https_enabled ≡ false)
      × (listening ≡ plain live_program.flags.bind_address)
      × (◌≡◌ {A = ℕ} 10 9))
    ⊎ ((secure.https_enabled ≡ true)
        × (cert key : String) × (listening ≡ with_tls live_program.flags.bind_address cert key)
        × (check_file files cert ≡ none)
        × (check_file files key ≡ none))
serve_app-serve_main_server_example =
    serve_app-serve_main_server platform parts cmd files secure decode 0 9 live_program starts
      new_cert_watcher 9 10 listening listens

-- The first end decides: the main API ends without an error, or the token cannot be read.
test_exit_code_0 : exit_code (none ∷ some "later" ∷ []) ≡ some 0
unfolding exit_code
test_exit_code_0 = refl

test_exit_code_1 : exit_code (some "error re-reading file" ∷ []) ≡ some 1
unfolding exit_code
test_exit_code_1 = refl
