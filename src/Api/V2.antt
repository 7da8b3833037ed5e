-- ===== src/Api/V2.antt =====
-- site-manager/api/legacy/v2: the second version of the legacy resource, and its conversions.
use drnavigator.Common.{
  String, Option, none, some, Slice, Result, ok, err, ◌+++◌, ◌==◌, if◌then◌else◌,
}
use drnavigator.Common.Num.{ℤ}
use drnavigator.Api.Meta.{TypeMeta, ObjectMeta}
use drnavigator.Api.V3
use drnavigator.Api.V3.{Hub, v3, other}

pub record CrSpecParameters : Type 0 where
  pub service_endpoint : String
  pub healthz_endpoint : String
  pub ingress_endpoint : String

pub record CrSpecSiteManager : Type 0 where
  pub module_name : String
  pub after : Slice String
  pub before : Slice String
  pub sequence : Slice String
  pub allowed_standby_state_list : Slice String
  pub timeout : Option ℤ
  pub parameters : CrSpecParameters

pub record CrStatus : Type 0 where
  pub summary : String
  pub service_name : String

pub record Cr : Type 0 where
  pub type_meta : TypeMeta
  pub meta : ObjectMeta
  pub spec : CrSpecSiteManager
  pub status : CrStatus

unfoldable pub get_service_name : Cr → String
get_service_name cr = cr.meta.name +++ "." +++ cr.meta.namespace

unsupported : String → String
unsupported version = "desired API version " +++ version +++ " is not supported"

-- The destination keeps its type meta; all else is overwritten. A module other than "stateful"
-- makes the name of the resource its alias.
unfoldable pub convert_to : Cr → Hub → Result String V3.Cr
unfolding unsupported
convert_to cr (v3 dst) = ok (record dst {
  meta = cr.meta;
  spec = record {
    alias = if cr.spec.module_name == "stateful" then none else some cr.meta.name;
    module_name = cr.spec.module_name;
    after = cr.spec.after;
    before = cr.spec.before;
    sequence = cr.spec.sequence;
    allowed_standby_state_list = cr.spec.allowed_standby_state_list;
    timeout = cr.spec.timeout;
    parameters = record {
      healthz_endpoint = cr.spec.parameters.healthz_endpoint;
      service_endpoint = cr.spec.parameters.service_endpoint;
    };
  };
  status = record { summary = cr.status.summary; service_name = cr.status.service_name };
})
convert_to cr (other version) = err (unsupported version)

unfoldable pub convert_from : Cr → Hub → Result String Cr
unfolding unsupported
convert_from cr (v3 src) = ok (record cr {
  meta = src.meta;
  spec = record {
    module_name = src.spec.module_name;
    after = src.spec.after;
    before = src.spec.before;
    sequence = src.spec.sequence;
    allowed_standby_state_list = src.spec.allowed_standby_state_list;
    timeout = src.spec.timeout;
    parameters = record {
      healthz_endpoint = src.spec.parameters.healthz_endpoint;
      service_endpoint = src.spec.parameters.service_endpoint;
      ingress_endpoint = "";
    };
  };
  status = record { summary = src.status.summary; service_name = src.status.service_name };
})
convert_from cr (other version) = err (unsupported version)
