-- ===== src/Manager/Convert.antt =====
-- site-manager/pkg/service/cr_manager.go: from custom resources to the dictionary of services.
pub mod Defaults
pub mod Lookup
pub mod Order
use drnavigator.Common.{
  String, Bool, true, false, none, some, List, [], ◌∷◌, Slice, items, ◌==◌, ◌||◌, ◌+++◌,
  starts_with, if◌then◌else◌,
}
use drnavigator.Common.Dict.{Dict, insert}
use drnavigator.Config.{Config}
use drnavigator.Model.{SmObject, SmDictionary}
use drnavigator.Api.V3
use drnavigator.Api.Qubership

abbrev is_empty : List String → Bool
is_empty [] = true
is_empty (x ∷ xs) = false

abbrev not_nil : Slice String → Slice String
not_nil none = some []
not_nil (some xs) = some xs

-- For the tests `len(slice) == 0`, which hold of nil and of the empty slice.
abbrev or_default : Slice String → List String → Slice String
or_default s d = if is_empty (items s) then some d else s

module _ (env : Config) where
  unfoldable pub apply_http_scheme : String → String
  apply_http_scheme endpoint =
      if endpoint == "" || starts_with endpoint "http://" || starts_with endpoint "https://"
      then endpoint
      else env.http_scheme +++ endpoint

  unfoldable pub apply_defaults : SmObject → SmObject
  apply_defaults obj = record obj {
    after = not_nil obj.after;
    before = not_nil obj.before;
    module_name = if obj.module_name == "" then "stateful" else obj.module_name;
    sequence = or_default obj.sequence ("standby" ∷ "active" ∷ []);
    allowed_standby_state_list = or_default obj.allowed_standby_state_list ("up" ∷ []);
    parameters = record {
      service_endpoint = apply_http_scheme obj.parameters.service_endpoint;
      healthz_endpoint = apply_http_scheme obj.parameters.healthz_endpoint;
    };
  }

  -- The object of a legacy resource, in the body of the first loop.
  unfoldable pub legacy_object : V3.Cr → SmObject
  legacy_object cr = apply_defaults (record {
    cr_name = cr.meta.name;
    namespace = cr.meta.namespace;
    uid = cr.meta.uid;
    name = V3.get_service_name cr;
    module_name = cr.spec.module_name;
    after = cr.spec.after;
    before = cr.spec.before;
    sequence = cr.spec.sequence;
    allowed_standby_state_list = cr.spec.allowed_standby_state_list;
    parameters = record {
      service_endpoint = cr.spec.parameters.service_endpoint;
      healthz_endpoint = cr.spec.parameters.healthz_endpoint;
    };
    timeout = cr.spec.timeout;
    alias = cr.spec.alias;
  })

  -- The object of a new resource, in the body of the second loop.
  unfoldable pub site_manager_object : Qubership.SiteManager → SmObject
  site_manager_object sm = apply_defaults (record {
    cr_name = sm.meta.name;
    namespace = sm.meta.namespace;
    uid = sm.meta.uid;
    name = Qubership.get_service_name sm;
    module_name = sm.spec.module_name;
    after = sm.spec.after;
    before = sm.spec.before;
    sequence = sm.spec.sequence;
    allowed_standby_state_list = sm.spec.allowed_standby_state_list;
    parameters = record {
      service_endpoint = sm.spec.parameters.service_endpoint;
      healthz_endpoint = sm.spec.parameters.healthz_endpoint;
    };
    timeout = sm.spec.timeout;
    alias = sm.spec.alias;
  })

  -- The loop over the legacy resources.
  add_legacy : Dict SmObject → List V3.Cr → Dict SmObject
  add_legacy result [] = result
  add_legacy result (cr ∷ crs) =
      add_legacy (insert result (V3.get_service_name cr) (legacy_object cr)) crs

  -- The loop over the new resources, which overwrites what the first loop put in.
  add_site_managers : Dict SmObject → List Qubership.SiteManager → Dict SmObject
  add_site_managers result [] = result
  add_site_managers result (sm ∷ sms) =
      add_site_managers (insert result (Qubership.get_service_name sm) (site_manager_object sm)) sms

  unfoldable pub convert_to_dict : List V3.Cr → List Qubership.SiteManager → SmDictionary
  unfolding add_legacy add_site_managers
  convert_to_dict legacy list = record { services = add_site_managers (add_legacy [] legacy) list }
