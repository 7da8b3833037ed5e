-- ===== src/Manager/Setup.antt =====
-- site-manager/pkg/service/cr_manager.go: `NewCRManager`. The client that `net/http` makes from a TLS
-- configuration and a timeout is a parameter.
use drnavigator.Common.{
  String, Bool, true, false, not, ◌≡◌, ◌≢◌, ◌↔◌, ◌⊎◌, Option, none, some, Result, ok, err, ◌+++◌,
  arith, if◌then◌else◌, Result-cases, inl, inr,
}
use drnavigator.Common.Num.{ℤ}
use drnavigator.Config.{Config}
use drnavigator.Model.{
  SmConfig, ServiceSiteManagerResponse, ServiceHealthzResponse, ServiceProcessRequest,
  ServiceProcessResponse,
}
use drnavigator.Http.{HttpClient, Decoder}
use drnavigator.Cluster.{CrClient}
use drnavigator.Utils.{Files, check_file, parse_bool}
use drnavigator.Manager.{CrManager}
use drnavigator.Manager.Status.{IsReady}

pub record TlsConfig : Type 0 where
  pub insecure_skip_verify : Bool
  pub root_cas : Option String

-- The JSON codecs of the requests to services.
pub record Codecs : Type 0 where
  pub decode_status : Decoder ServiceSiteManagerResponse
  pub decode_healthz : Decoder ServiceHealthzResponse
  pub decode_process : Decoder ServiceProcessResponse
  pub encode_process : ServiceProcessRequest → Result String String

abbrev setup_error : String → String
setup_error e = "can't initialize http clients: " +++ e

unfoldable pub tls_config : Files → String → Result String TlsConfig
tls_config files ca_cert = elim (parse_bool ca_cert) [
  | some enabled ↦ ok (record { insecure_skip_verify = not enabled; root_cas = none })
  | none ↦ elim (check_file files ca_cert) [
    | some e ↦ err (setup_error e)
    | none ↦ elim (files.read_file ca_cert) [
      | err e ↦ err (setup_error e)
      | ok pem ↦ ok (record { insecure_skip_verify = false; root_cas = some pem })
    ]
  ]
]

module _ {W : Type 0} (files : Files) (make_client : TlsConfig → ℤ → HttpClient W) (codecs : Codecs)
    (env : Config) where
  abbrev pub build : SmConfig → Option (CrClient W) → (W → String) → TlsConfig → CrManager W
  build sm_config client get_token tls = record {
    env = env;
    sm_config = some sm_config;
    cr_client = if sm_config.testing.enabled then none else client;
    get_token = get_token;
    get_http_client = make_client tls env.get_request_timeout;
    post_http_client = make_client tls env.post_request_timeout;
    decode_status = codecs.decode_status;
    decode_healthz = codecs.decode_healthz;
    decode_process = codecs.decode_process;
    encode_process = codecs.encode_process;
  }

  unfoldable pub new_cr_manager :
      SmConfig → Option (CrClient W) → (W → String) → Result String (CrManager W)
  new_cr_manager sm_config client get_token = elim (tls_config files env.sm_ca_cert) [
    | err e ↦ err e
    | ok tls ↦ ok (build sm_config client get_token tls)
  ]

  -- A manager that was made in testing mode, or with a client for the resources, can list the
  -- services without a dereference of nil.
  pub new_cr_manager-IsReady :
      (sm_config : SmConfig) (client : Option (CrClient W)) (get_token : W → String)
      (m : CrManager W)
      → (sm_config.testing.enabled ≡ true) ⊎ (client ≢ none)
      → new_cr_manager sm_config client get_token ≡ ok m
      → IsReady m
  unfolding new_cr_manager
  new_cr_manager-IsReady sm_config client get_token m given made = ground arith

  pub new_cr_manager-build :
      (sm_config : SmConfig) (client : Option (CrClient W)) (get_token : W → String)
      (m : CrManager W)
      → new_cr_manager sm_config client get_token ≡ ok m
      → (tls : TlsConfig) × (m ≡ build sm_config client get_token tls)
  unfolding new_cr_manager
  new_cr_manager-build sm_config client get_token m made =
      elim (Result-cases (tls_config files env.sm_ca_cert)) [
        | inl (e, fails) ↦ absurd (ground arith)
        | inr (tls, works) ↦ (tls, ground arith)
      ]

  -- A manager has the settings of the program.
  pub new_cr_manager_env :
      (sm_config : SmConfig) (client : Option (CrClient W)) (get_token : W → String)
      (m : CrManager W)
      → new_cr_manager sm_config client get_token ≡ ok m
      → m.env ≡ env
  unfolding new_cr_manager
  new_cr_manager_env sm_config client get_token m made = ground arith

-- The certificates of services are not verified exactly when SM_CACERT is a text for false. Roots of
-- the program's own are trusted exactly when it is no text for a truth value; then it names a file that
-- passes the check, and the roots are what is read from that file.
pub tls_config-insecure :
    (files : Files) (ca_cert : String) (c : TlsConfig)
    → tls_config files ca_cert ≡ ok c
    → ((c.insecure_skip_verify ≡ true) ↔ (parse_bool ca_cert ≡ some false))
      × ((c.root_cas ≢ none) ↔ (parse_bool ca_cert ≡ none))
      × ((pem : String)
          → (c.root_cas ≡ some pem) ↔ (
              (parse_bool ca_cert ≡ none)
              × (check_file files ca_cert ≡ none)
              × (files.read_file ca_cert ≡ ok pem)))
unfolding tls_config
tls_config-insecure files ca_cert c made = (ground arith, ground arith, λ pem. ground arith)
