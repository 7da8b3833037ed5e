-- ===== src/Api/Qubership.antt =====
-- site-manager/api/v3/sitemanager_types.go: the resource of the group qubership.org.
use drnavigator.Common.{String, Option, none, some, Slice, ◌+++◌}
use drnavigator.Common.Num.{ℤ}
use drnavigator.Api.Meta.{TypeMeta, ObjectMeta}

pub record Parameters : Type 0 where
  pub service_endpoint : String
  pub healthz_endpoint : String

pub record SiteManagerOptions : Type 0 where
  pub module_name : String
  pub alias : Option String
  pub after : Slice String
  pub before : Slice String
  pub sequence : Slice String
  pub allowed_standby_state_list : Slice String
  pub timeout : Option ℤ
  pub parameters : Parameters

pub record SiteManagerStatus : Type 0 where
  pub summary : String
  pub service_name : String

pub record SiteManager : Type 0 where
  pub type_meta : TypeMeta
  pub meta : ObjectMeta
  pub spec : SiteManagerOptions
  pub status : SiteManagerStatus

abbrev name_or_alias : Option String → ObjectMeta → String
name_or_alias (some alias) meta = alias
name_or_alias none meta = meta.name +++ "." +++ meta.namespace

unfoldable pub get_service_name : SiteManager → String
get_service_name sm = name_or_alias sm.spec.alias sm.meta
