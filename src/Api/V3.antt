-- ===== src/Api/V3.antt =====
-- site-manager/api/legacy/v3: the hub version of the legacy resource.
use drnavigator.Common.{String, Option, none, some, Slice, ◌+++◌}
use drnavigator.Common.Num.{ℤ}
use drnavigator.Api.Meta.{TypeMeta, ObjectMeta}

pub record CrSpecParameters : Type 0 where
  pub service_endpoint : String
  pub healthz_endpoint : String

pub record CrSpecSiteManager : Type 0 where
  pub module_name : String
  pub alias : Option String
  pub after : Slice String
  pub before : Slice String
  pub sequence : Slice String
  pub allowed_standby_state_list : Slice String
  pub timeout : Option ℤ
  pub parameters : CrSpecParameters

pub record CrStatus : Type 0 where
  pub summary : String
  pub service_name : String

pub record Cr : Type 0 where
  pub type_meta : TypeMeta
  pub meta : ObjectMeta
  pub spec : CrSpecSiteManager
  pub status : CrStatus

-- What a conversion finds behind `conversion.Hub`: this version, or another type with its version.
pub data Hub : Type 0 where
  v3 : Cr → Hub
  other : String → Hub

abbrev name_or_alias : Option String → ObjectMeta → String
name_or_alias (some alias) meta = alias
name_or_alias none meta = meta.name +++ "." +++ meta.namespace

unfoldable pub get_service_name : Cr → String
get_service_name cr = name_or_alias cr.spec.alias cr.meta
