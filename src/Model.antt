-- ===== src/Model.antt =====
-- site-manager/pkg/model: the objects, errors, requests and responses of Site-Manager.
use drnavigator.Common.{ℕ, String, Bool, Option, List, Slice, if◌then◌else◌}
use drnavigator.Common.Num.{ℤ}
use drnavigator.Common.Dict.{Dict}

pub record SmError : Type 0 where
  pub message : String
  pub service : Option String
  pub problem_cr : Option String
  pub is_internal_server_error : Bool

unfoldable pub error_status_code : SmError → ℕ
error_status_code e = if e.is_internal_server_error then 500 else 400

pub record SmObjectParameters : Type 0 where
  pub service_endpoint : String
  pub healthz_endpoint : String

pub record SmObject : Type 0 where
  pub cr_name : String
  pub name : String
  pub namespace : String
  pub uid : String
  pub module_name : String
  pub after : Slice String
  pub before : Slice String
  pub sequence : Slice String
  pub allowed_standby_state_list : Slice String
  pub parameters : SmObjectParameters
  pub timeout : Option ℤ
  pub alias : Option String

pub record SmDictionary : Type 0 where
  pub services : Dict SmObject

-- `ProcedureType` is a string; the five constants are `procedure_*`.
abbrev pub procedure_list : String
procedure_list = "list"

abbrev pub procedure_status : String
procedure_status = "status"

abbrev pub procedure_active : String
procedure_active = "active"

abbrev pub procedure_standby : String
procedure_standby = "standby"

abbrev pub procedure_disable : String
procedure_disable = "disable"

pub record SmRequest : Type 0 where
  pub procedure : String
  pub service : Option String
  pub with_deps : Bool
  pub no_wait : Bool

pub record SmListResponse : Type 0 where
  pub services : List String

pub record SmStatusDeps : Type 0 where
  pub after : Slice String
  pub before : Slice String

pub record SmStatus : Type 0 where
  pub mode : String
  pub status : String
  pub health : String
  pub message : String
  pub deps : Option SmStatusDeps

pub record SmStatusResponse : Type 0 where
  pub services : Dict SmStatus

pub record SmProcedureResponse : Type 0 where
  pub message : String
  pub service : String
  pub procedure : String
  pub is_failed : Bool

unfoldable pub procedure_status_code : SmProcedureResponse → ℕ
procedure_status_code r = if r.is_failed then 400 else 200

-- service_request.go: what a managed service answers and is sent.
pub record ServiceSiteManagerResponse : Type 0 where
  pub mode : String
  pub status : String
  pub message : String

pub record ServiceHealthzResponse : Type 0 where
  pub status : String

pub record ServiceProcessRequest : Type 0 where
  pub mode : String
  pub no_wait : Bool

pub record ServiceProcessResponse : Type 0 where
  pub mode : String
  pub status : String

-- sm_testing.go: the debug configuration.
pub record SmConfigTesting : Type 0 where
  pub enabled : Bool
  pub token : String
  pub sm_dict : SmDictionary

pub record SmConfig : Type 0 where
  pub testing : SmConfigTesting
