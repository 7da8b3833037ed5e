-- ===== src/App/Server.antt =====
-- site-manager/pkg/app/main_app.go, `ServeMainServer`: the routes of the main API, the group that is
-- authorised, and how the server listens. The router and the listener of Echo and `net/http`, the
-- watcher of certificates of controller-runtime, and the pages of Swagger are parameters.
pub mod Answers
use drnavigator.Common.{
  String, Bool, true, false, Option, none, some, List, [], ◌∷◌, Result, ok, err, GoError, ◌+++◌,
  if◌then◌else◌, ◌==◌, ◌&&◌,
}
use drnavigator.Config.{Config}
use drnavigator.Model.{SmRequest}
use drnavigator.Manager.{CrManager}
use drnavigator.Manager.Collect.{Stop}
use drnavigator.App.{Response, KeyAuth, root_get, health, get_services, process_request, guarded}

pub data Endpoint : Type 0 where
  root : Endpoint
  swagger : Endpoint
  health_check : Endpoint
  services : Endpoint
  process : Endpoint

pub record Route : Type 0 where
  pub method : String
  pub path : String
  pub endpoint : Endpoint

abbrev route : String → String → Endpoint → Route
route method path endpoint = record { method = method; path = path; endpoint = endpoint }

-- What is registered with Echo; the last two are the group "/sitemanager".
unfoldable pub routes : List Route
routes =
    route "GET" "/" root
    ∷ route "GET" "/swagger/*" swagger
    ∷ route "GET" "/health" health_check
    ∷ route "GET" "/sitemanager" services
    ∷ route "POST" "/sitemanager" process
    ∷ []

-- A request: the key that it bears, and its body as it can be read.
pub record Call : Type 0 where
  pub key : Option String
  pub body : Result String String

module _ {W : Type 0} (key_auth : KeyAuth W) (env : Config)
    (validate : String → W → Result String Bool × W) (decode : String → Result String SmRequest)
    (swagger_page : W → Result Stop Response × W) (m : CrManager W) where
  -- The handler of an endpoint.
  unfoldable pub handle : Endpoint → Call → W → Result Stop Response × W
  handle root call w = (ok root_get, w)
  handle swagger call w = swagger_page w
  handle health_check call w = (ok health, w)
  handle services call w = guarded key_auth env validate (get_services m) call.key w
  handle process call w =
      guarded key_auth env validate (process_request m decode call.body) call.key w

-- How the server listens.
pub data Listening : Type 0 where
  plain : String → Listening
  with_tls : String → String → String → Listening

-- How the server starts: it listens, which sends on the channel of errors when it ends, or it sends
-- an error at once. A watcher of certificates runs beside a server with TLS.
unfoldable pub serve_main_server :
    {W : Type 0}
    → (String → String → W → GoError × W)
    → (String → String → String)
    → Config
    → String
    → String
    → String
    → String
    → W
    → Result String Listening × W
serve_main_server new_cert_watcher join env bind_address cert_dir cert_file key_file w =
    if env.https_enabled
    then (let (e, w1) = new_cert_watcher (join cert_dir cert_file) (join cert_dir key_file) w in
        elim e [
          | some c ↦ (err ("error initializing cert watcher for main API: " +++ c), w1)
          | none ↦
              (ok (with_tls bind_address (join cert_dir cert_file) (join cert_dir key_file)), w1)
        ])
    else (ok (plain bind_address), w)
