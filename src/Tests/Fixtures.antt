-- ===== src/Tests/Fixtures.antt =====
-- A manager in testing mode, with two services of which the first depends on the second, and a
-- network that answers every request.
use drnavigator.Common.{
  ℕ, suc, String, Bool, true, false, Option, none, some, List, [], ◌∷◌, Result, ok, err, refl,
}
use drnavigator.App.{Response, KeyAuth, KeyError, missing, other}
use drnavigator.App.Auth.{IsKeyAuth}
use drnavigator.Token.{Outside}
use drnavigator.Manager.Collect.{Stop}
use drnavigator.Config.{default_config}
use drnavigator.Model.{
  SmObject, SmDictionary, SmConfig, ServiceSiteManagerResponse, ServiceHealthzResponse,
  ServiceProcessRequest, ServiceProcessResponse,
}
use drnavigator.Http.{HttpClient, Decoder}
use drnavigator.Manager.{CrManager}

abbrev pub service : String → List String → SmObject
service name after = record {
  cr_name = name;
  name = name;
  namespace = "ns";
  uid = name;
  module_name = "stateful";
  after = some after;
  before = some [];
  sequence = some ("standby" ∷ "active" ∷ []);
  allowed_standby_state_list = some ("up" ∷ []);
  parameters = record { service_endpoint = "http://x/sm"; healthz_endpoint = "http://x/healthz" };
  timeout = none;
  alias = none;
}

abbrev pub two_services : SmDictionary
two_services = record { services = ("a", service "a" ("b" ∷ [])) ∷ ("b", service "b" []) ∷ [] }

abbrev pub testing : SmConfig
testing = record { testing = record { enabled = true; token = "t"; sm_dict = two_services } }

-- The state counts the requests.
abbrev pub network : HttpClient ℕ
network = record {
  check_url = λ url. none;
  do_request = λ req w. (
    record { response = some (record { status_code = 200; body = ok "{}" }); error = none },
    suc w,
  );
}

abbrev pub decode_status : Decoder ServiceSiteManagerResponse
decode_status text old = record {
  object = record { mode = "active"; status = "done"; message = "" };
  error = none;
}

abbrev pub decode_healthz : Decoder ServiceHealthzResponse
decode_healthz text old = record { object = record { status = "up" }; error = none }

abbrev pub decode_process : Decoder ServiceProcessResponse
decode_process text old = record {
  object = record { mode = "active"; status = "running" };
  error = none;
}

abbrev pub encode_process : ServiceProcessRequest → Result String String
encode_process r = ok "{}"

abbrev pub manager : CrManager ℕ
manager = record {
  env = default_config;
  sm_config = some testing;
  cr_client = none;
  get_token = λ w. "t";
  get_http_client = network;
  post_http_client = network;
  decode_status = decode_status;
  decode_healthz = decode_healthz;
  decode_process = decode_process;
  encode_process = encode_process;
}

abbrev pub one_service : SmDictionary
one_service = record { services = ("a", service "a" ("b" ∷ [])) ∷ [] }

abbrev pub broken_manager : CrManager ℕ
broken_manager = record manager {
  sm_config =
      some (record { testing = record { enabled = true; token = "t"; sm_dict = one_service } });
}

-- A file that always holds one text, and reviews that know one token.
abbrev pub outside : Outside ℕ
outside = record {
  read_file = λ path w. (ok "secret", suc w);
  add_watch = λ path w. (none, suc w);
  close = λ w. w;
  review = λ token w. (
    ok (record {
      authenticated = true;
      username = "system:serviceaccount:site-manager:sm-auth-sa";
    }),
    suc w,
  );
}

-- The authorisation as Echo documents it.
unfoldable pub run :
    {W : Type 0}
    → (String → W → Result String Bool × W)
    → (KeyError → Response)
    → (W → Result Stop Response × W)
    → Option String
    → W
    → Result Stop Response × W
run validate refuse handler none w = (ok (refuse missing), w)
run validate refuse handler (some key) w =
    let (answer, w1) = validate key w in
    elim answer [
      | err e ↦ (ok (refuse (other e)), w1)
      | ok good ↦ elim good [ true ↦ handler w1 | false ↦ (ok (refuse (other "invalid key")), w1) ]
    ]

abbrev pub key_auth : {W : Type 0} → KeyAuth W
key_auth = record { run = run }

pub key_auth-IsKeyAuth : {W : Type 0} → IsKeyAuth (key_auth {W = W})
unfolding run
key_auth-IsKeyAuth = record {
  without = λ validate refuse handler w. refl;
  with_key = λ validate refuse handler key w. refl;
}
