-- ===== src/Tests/ThreadRuns.antt =====
-- The main API beside the watcher of the token.
use drnavigator.Common.{
  ℕ, suc, String, true, false, ◌≡◌, refl, Option, none, some, List, [], ◌∷◌, Result, ok, All, map,
}
use drnavigator.Config.{Config, default_config}
use drnavigator.Model.{SmRequest}
use drnavigator.Utils.{Files}
use drnavigator.Cluster.{KubeClient}
use drnavigator.Http.{Request}
use drnavigator.Token.{event}
use drnavigator.Manager.{CrManager}
use drnavigator.Manager.Collect.{Stop}
use drnavigator.Manager.Setup.{Codecs, TlsConfig, build}
use drnavigator.Cluster.{new_cr_client}
use drnavigator.App.{Response, root_get}
use drnavigator.App.Server.{Endpoint, process, services, Call}
use drnavigator.Start.{empty_sm_config}
use drnavigator.Start.Threads.{
  Turn, goes_on, receives, Machine, reads, shared_client, shared_kube, shared_manager, held_token,
  serve_calls,
}
use drnavigator.Start.Threads.Tokens.{IsHonest, serve_calls-IsHonest}
use drnavigator.Tests.ResourceRuns.{cr_v3, sm}
use drnavigator.Tests.Fixtures.{
  network, decode_status, decode_healthz, decode_process, encode_process, outside, key_auth,
  key_auth-IsKeyAuth,
}

-- The program authenticates itself to services, and does not verify them.
abbrev env : Config
env = record default_config { back_http_auth = true; front_http_auth = false; sm_ca_cert = "false" }

abbrev files : Files
files = record { is_dir = λ path. ok false; read_file = λ path. ok "" }

abbrev kube : KubeClient ℕ
kube = record {
  list_legacy = λ w. (record { found = []; error = none }, suc w);
  get_legacy = λ namespace name w. (record { object = cr_v3 none; error = none }, suc w);
  update_legacy_status = λ x w. (none, suc w);
  list_site_managers = λ w. (record { found = sm "pg" "u" ∷ []; error = none }, suc w);
  get_site_manager = λ namespace name w. (record { object = sm "pg" "u"; error = none }, suc w);
  update_site_manager_status = λ x w. (none, suc w);
}

abbrev codecs : Codecs
codecs = record {
  decode_status = decode_status;
  decode_healthz = decode_healthz;
  decode_process = decode_process;
  encode_process = encode_process;
}

abbrev tls : TlsConfig
tls = record { insecure_skip_verify = true; root_cas = none }

abbrev manager : CrManager (Machine ℕ)
manager =
    build files (λ tls timeout. shared_client outside env empty_sm_config "/token" network) codecs
      env empty_sm_config
      (some (new_cr_client (shared_kube outside env empty_sm_config "/token" kube)))
      (held_token outside env empty_sm_config "/token") tls

made :
    shared_manager outside env empty_sm_config "/token" files (λ tls timeout. network) codecs kube
    ≡ ok manager
unfolding drnavigator.Manager.Setup.new_cr_manager drnavigator.Manager.Setup.tls_config
    drnavigator.Utils.parse_bool
made = refl

abbrev to_request : String → Result String SmRequest
to_request s =
    ok (record { procedure = "status"; service = some "pg.ns"; with_deps = true; no_wait = false })

abbrev page : ℕ → Result Stop Response × ℕ
page w = (ok root_get, w)

-- The watcher reads the token while the API sends its first request; the file is written later.
abbrev begun : Machine ℕ
begun = record {
  watcher = record { current_token = ""; world = 0 };
  phase = reads;
  schedule =
      []
      ∷ []
      ∷ (goes_on ∷ goes_on ∷ [])
      ∷ (receives (
            event (record {
              name = "/token";
              has_remove = false;
              has_create = false;
              has_write = true;
            }))
          ∷ [])
      ∷ [];
  sent = [];
}

abbrev calls : List (Endpoint × Call)
calls = (process, record { key = none; body = ok "{}" }) ∷ []

serve_calls-IsHonest_example :
    All
      (IsHonest outside env empty_sm_config "/token" "")
      (serve_calls outside env empty_sm_config "/token" key_auth to_request page manager calls
        begun).sent
serve_calls-IsHonest_example =
    serve_calls-IsHonest outside env empty_sm_config "/token" "" files (λ tls timeout. network)
      codecs kube manager made key_auth key_auth-IsKeyAuth to_request page calls begun refl refl

-- The first request, to the service endpoint, bears the empty token.
test_sent :
    map
      (λ (r : Request). r.authorization)
      (serve_calls outside env empty_sm_config "/token" key_auth to_request page manager calls
        begun).sent
    ≡ some "Bearer secret" ∷ some "Bearer " ∷ []
unfolding serve_calls drnavigator.App.Server.handle drnavigator.App.guarded
    drnavigator.App.process_request drnavigator.App.dispatch drnavigator.Manager.get_service_status
    drnavigator.Manager.get_all_services drnavigator.Start.Threads.shared
    drnavigator.Manager.Collect.get_service_object drnavigator.Common.Dict.get
    drnavigator.Manager.Convert.convert_to_dict drnavigator.Common.Dict.insert
    drnavigator.Api.Qubership.get_service_name drnavigator.Manager.Collect.collect_services_statuses
    drnavigator.Manager.request_status drnavigator.Http.do_get_request shared_client
    drnavigator.Api.V3.get_service_name drnavigator.Http.attempts drnavigator.Http.conclude
    drnavigator.Http.send drnavigator.Manager.Convert.apply_defaults
    drnavigator.Manager.Convert.apply_http_scheme drnavigator.Manager.Convert.legacy_object
    drnavigator.Manager.Convert.site_manager_object drnavigator.Start.Threads.hear
    drnavigator.Start.Threads.interrupted drnavigator.Start.Threads.take_turn
    drnavigator.Start.Threads.take_turns drnavigator.Token.handle_event drnavigator.Token.read_token
    drnavigator.Token.watch drnavigator.Token.get_token
test_sent = refl
