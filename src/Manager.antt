-- ===== src/Manager.antt =====
-- site-manager/pkg/service/cr_manager.go: the manager of the custom resources. Its configuration and
-- clients are the fields of a record; the state `W` is that of the network, the cluster and the
-- token watcher.
pub mod Convert
pub mod Collect
pub mod Listing
pub mod Setup
pub mod Status
pub mod Process
pub mod Keeps
use drnavigator.Common.{
  ℕ, suc, String, Bool, true, false, Option, none, some, List, [], ◌∷◌, Result, ok, err, GoError,
  ◌+++◌, length, if◌then◌else◌,
}
use drnavigator.Common.Num.{◌==◌}
use drnavigator.Common.Action.{Action, ◌>>=◌, pure, raise}
use drnavigator.Common.Dict.{keys}
use drnavigator.Config.{Config}
use drnavigator.Model.{
  SmError, SmObject, SmDictionary, SmStatus, SmStatusResponse, SmListResponse, SmProcedureResponse,
  SmConfig, ServiceSiteManagerResponse, ServiceHealthzResponse, ServiceProcessRequest,
  ServiceProcessResponse,
}
use drnavigator.Http.{HttpClient, Decoder, Reply, do_get_request, do_post_request}
use drnavigator.Cluster.{CrClient}
use drnavigator.Manager.Convert.{convert_to_dict}
use drnavigator.Manager.Collect.{
  Stop, failed, nil_dereference, Progress, Fetch, get_service_object, collect_services_statuses,
}

-- `CRManagerImpl`, with the settings and the codecs that its methods use. In testing mode there is
-- no client for the resources.
pub record CrManager (W : Type 0) : Type 0 where
  pub env : Config
  pub sm_config : Option SmConfig
  pub cr_client : Option (CrClient W)
  pub get_token : W → String
  pub get_http_client : HttpClient W
  pub post_http_client : HttpClient W
  pub decode_status : Decoder ServiceSiteManagerResponse
  pub decode_healthz : Decoder ServiceHealthzResponse
  pub decode_process : Decoder ServiceProcessResponse
  pub encode_process : ServiceProcessRequest → Result String String

abbrev pub internal_error : String → SmError
internal_error message = record {
  message = message;
  service = none;
  problem_cr = none;
  is_internal_server_error = true;
}

-- The dictionary of the testing mode, if that is on.
abbrev pub testing_dict : Option SmConfig → Option SmDictionary
testing_dict none = none
testing_dict (some c) = if c.testing.enabled then some c.testing.sm_dict else none

abbrev pub failed_status : SmStatus
failed_status = record { mode = "--"; status = "--"; health = "--"; message = ""; deps = none }

module _ {W : Type 0} (m : CrManager W) where
  list_all : CrClient W → Action W Stop SmDictionary
  list_all client w =
      let (legacy, w1) = client.list_legacy w in
      elim legacy.error [
        | some e ↦ raise (failed (internal_error e)) w1
        | none ↦
            let (crs, w2) = client.list w1 in
            elim crs.error [
              | some e ↦ raise (failed (internal_error e)) w2
              | none ↦ pure (convert_to_dict m.env legacy.found crs.found) w2
            ]
      ]

  unfoldable pub get_all_services : Action W Stop SmDictionary
  unfolding list_all
  get_all_services w = elim (testing_dict m.sm_config) [
    | some dict ↦ pure dict w
    | none ↦ elim m.cr_client [ none ↦ raise nil_dereference w | some client ↦ list_all client w ]
  ]

  unfoldable pub get_services_list : Action W Stop SmListResponse
  get_services_list = do dict ← get_all_services; pure (record { services = keys dict.services })

  request_error : String → SmObject → Fetch
  request_error e obj = record {
    status = failed_status;
    error = some (record {
      message = "Service request failed, error: " +++ e;
      service = some obj.name;
      problem_cr = none;
      is_internal_server_error = false;
    });
  }

  -- `getServiceStatus`: the status of one service, without its dependencies.
  unfoldable pub request_status : SmObject → W → Fetch × W
  unfolding request_error
  request_status obj w =
      let (first, w1) =
        do_get_request m.get_http_client m.decode_status obj.parameters.service_endpoint
          (m.get_token w) m.env.back_http_auth 3
          (record { message = ""; mode = "--"; status = "--" }) w in
      elim first.error [
        | some e ↦ (request_error e obj, w1)
        | none ↦
            let (second, w2) =
              do_get_request m.get_http_client m.decode_healthz obj.parameters.healthz_endpoint
                (m.get_token w1) m.env.back_http_auth 3 (record { status = "--" }) w1 in
            elim second.error [
              | some e ↦ (request_error e obj, w2)
              | none ↦ (
                record {
                  status = record {
                    mode = first.object.mode;
                    status = first.object.status;
                    message = first.object.message;
                    health = second.object.status;
                    deps = none;
                  };
                  error = none;
                },
                w2,
              )
            ]
      ]

  -- The result of `getServiceObject` as an action that changes nothing.
  abbrev find : Option String → SmDictionary → Action W Stop SmObject
  find name dict w = elim (get_service_object name dict) [
    | ok obj ↦ pure obj w
    | err e ↦ raise (failed e) w
  ]

  -- The fuel is the number of services and one more.
  pub collect : SmDictionary → Bool → String → Action W Stop SmStatusResponse
  collect dict with_deps name w =
      let (r, p) =
        collect_services_statuses request_status dict with_deps (suc (length dict.services))
          (name ∷ []) none (record { result = []; world = w }) in
      elim r [ ok _ ↦ pure (record { services = p.result }) p.world | err e ↦ raise e p.world ]

  -- `GetServiceStatus`.
  unfoldable pub get_service_status : Option String → Bool → Action W Stop SmStatusResponse
  unfolding collect
  get_service_status service with_deps = do
    dict ← get_all_services
    obj ← find service dict
    elim service [ none ↦ raise nil_dereference | some name ↦ collect dict with_deps name ]

  unfoldable pub procedure_response : String → String → ℕ → SmProcedureResponse
  procedure_response procedure service code =
      if code == 200
      then record {
        message = "Procedure " +++ procedure +++ " is started";
        service = service;
        procedure = procedure;
        is_failed = false;
      }
      else record {
        message = "Procedure " +++ procedure +++ " failed";
        service = service;
        procedure = procedure;
        is_failed = true;
      }

  unfoldable pub start_procedure :
      SmObject → String → String → Bool → Action W Stop SmProcedureResponse
  unfolding procedure_response
  start_procedure obj service procedure no_wait w =
      let (reply, w1) =
        do_post_request m.post_http_client m.decode_process m.encode_process
          obj.parameters.service_endpoint (record { mode = procedure; no_wait = no_wait })
          (m.get_token w) m.env.back_http_auth 3 (record { mode = ""; status = "" }) w in
      elim reply.error [
        | some e ↦
            raise
              (failed (record {
                message = "Processing service error: " +++ e;
                service = some service;
                problem_cr = none;
                is_internal_server_error = false;
              }))
              w1
        | none ↦ pure (procedure_response procedure service reply.code) w1
      ]

  unfoldable pub process_service : Option String → String → Bool → Action W Stop SmProcedureResponse
  unfolding start_procedure
  process_service service procedure no_wait = do
    dict ← get_all_services
    obj ← find service dict
    elim service [
      | none ↦ raise nil_dereference
      | some name ↦ start_procedure obj name procedure no_wait
    ]
