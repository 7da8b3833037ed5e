-- ===== src/App.antt =====
-- site-manager/pkg/app/main_app.go: the main API, as its handlers. The web framework Echo, which
-- routes, extracts the bearer and writes responses, and the JSON decoder are parameters. The
-- manager's `Stop` says what a handler of the framework never sees return: a dereference of nil.
pub mod Codes
pub mod Auth
pub mod Server
pub mod Statuses
pub mod Keeps
pub mod Procedures
use drnavigator.Common.{
  ℕ, String, Bool, true, false, Option, none, some, Result, ok, err, GoError, ◌==◌, ◌+++◌,
  if◌then◌else◌,
}
use drnavigator.Common.Action.{Action}
use drnavigator.Config.{Config}
use drnavigator.Model.{
  SmError, SmDictionary, SmRequest, SmListResponse, SmStatusResponse, SmProcedureResponse,
  error_status_code, procedure_status_code, procedure_list, procedure_status, procedure_active,
  procedure_standby, procedure_disable,
}
use drnavigator.Manager.{
  CrManager, get_all_services, get_services_list, get_service_status, process_service,
}
use drnavigator.Manager.Collect.{Stop, failed}

-- What `c.JSON` is given.
pub data Body : Type 0 where
  dictionary : SmDictionary → Body
  listed : SmListResponse → Body
  statuses : SmStatusResponse → Body
  procedure : SmProcedureResponse → Body
  error_body : SmError → Body

-- `c.String`, `c.JSON`, and the error `echo.HTTPError`, whose message may be absent.
pub data Response : Type 0 where
  text : ℕ → String → Response
  json : ℕ → Body → Response
  http_error : ℕ → Option String → Response

unfoldable pub response_code : Response → ℕ
response_code (text code t) = code
response_code (json code body) = code
response_code (http_error code message) = code

-- What the authorisation hands to its error handler: no bearer, an error of the validator, or a bearer
-- that the validator refused, whose message is "invalid key".
pub data KeyError : Type 0 where
  missing : KeyError
  other : String → KeyError

unfoldable pub root_get : Response
root_get = text 200 "Under construction"

unfoldable pub health : Response
health = text 204 ""

unfoldable pub all_procedures : String
all_procedures =
    "[" +++ procedure_list +++ " " +++ procedure_status +++ " " +++ procedure_active +++ " "
    +++ procedure_standby +++ " " +++ procedure_disable +++ "]"

-- The error handler of the authorisation.
unfoldable pub auth_error : KeyError → Response
auth_error missing = http_error 401 (some "You should use Bearer for authorization")
auth_error (other message) =
    if message == "invalid key"
    then http_error 403 (some "Bearer is empty or wrong")
    else http_error 500 none

pub procedure_answer : SmProcedureResponse → Response
procedure_answer r = json (procedure_status_code r) (procedure r)

module _ {W : Type 0} (m : CrManager W) where
  -- The response of a manager's call: its error with the error's code, or its result.
  pub respond : {A : Type 0} → (A → Response) → Result Stop A → Result Stop Response
  respond good (ok a) = ok (good a)
  respond good (err (failed e)) = ok (json (error_status_code e) (error_body e))
  respond good (err stop) = err stop

  pub answer : {A : Type 0} → (A → Response) → Action W Stop A → W → Result Stop Response × W
  answer good call w = let (r, w1) = call w in (respond good r, w1)

  unfoldable pub get_services : W → Result Stop Response × W
  unfolding answer respond
  get_services = answer (λ d. json 200 (dictionary d)) (get_all_services m)

  -- The switch over the procedure of a request.
  unfoldable pub dispatch : SmRequest → W → Result Stop Response × W
  unfolding answer respond procedure_answer
  dispatch req w =
      if req.procedure == procedure_list
      then answer (λ r. json 200 (listed r)) (get_services_list m) w
      else if req.procedure == procedure_status
      then answer (λ r. json 200 (statuses r)) (get_service_status m req.service req.with_deps) w
      else if req.procedure == procedure_active
      then answer procedure_answer (process_service m req.service req.procedure req.no_wait) w
      else if req.procedure == procedure_standby
      then answer procedure_answer (process_service m req.service req.procedure req.no_wait) w
      else if req.procedure == procedure_disable
      then answer procedure_answer (process_service m req.service req.procedure req.no_wait) w
      else (
        ok (http_error 400 (some ("You should define procedure from list: " +++ all_procedures))),
        w,
      )

  -- `body` is the body of the request, as it can be read.
  unfoldable pub process_request :
      (String → Result String SmRequest) → Result String String → W → Result Stop Response × W
  process_request decode body w = elim body [
    | err e ↦ (ok (http_error 500 (some ("Some problem occurred: " +++ e))), w)
    | ok bytes ↦ elim (decode bytes) [
      | err e ↦ (ok (http_error 400 (some "No valid JSON data was received")), w)
      | ok req ↦ dispatch req w
    ]
  ]

-- The authorisation of Echo: it finds the key of a request or not, asks the validator, and hands what
-- is wrong to the error handler. Without `front_http_auth` it is not installed.
pub record KeyAuth (W : Type 0) : Type 0 where
  pub run :
      (String → W → Result String Bool × W)
      → (KeyError → Response)
      → (W → Result Stop Response × W)
      → Option String
      → W
      → Result Stop Response × W

unfoldable pub guarded :
    {W : Type 0}
    → KeyAuth W
    → Config
    → (String → W → Result String Bool × W)
    → (W → Result Stop Response × W)
    → Option String
    → W
    → Result Stop Response × W
guarded key_auth env validate handler key w =
    if env.front_http_auth then key_auth.run validate auth_error handler key w else handler w
