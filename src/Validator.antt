-- ===== src/Validator.antt =====
-- site-manager/internal/controller/legacy/validator.go: the admission of legacy resources.
pub mod Accepts
pub mod Unique
use drnavigator.Common.{
  String, Bool, true, false, Option, none, some, ok, err, ◌==◌, ◌+++◌, is_some, not, if◌then◌else◌,
  ◌&&◌,
}
use drnavigator.Common.Action.{Action, pure, raise}
use drnavigator.Common.Dict.{get}
use drnavigator.Model.{SmObject}
use drnavigator.Api.V1
use drnavigator.Api.V2
use drnavigator.Api.V3
use drnavigator.Manager.{CrManager, get_all_services}
use drnavigator.Manager.Collect.{Stop}

-- The errors of the validator: that of the manager, or a message of its own.
pub data Refusal : Type 0 where
  from_manager : Stop → Refusal
  refused : String → Refusal

abbrev pub service_name_exists_message : String → Bool → String
service_name_exists_message name is_alias =
    "Can't use service "
    +++ (if is_alias then "alias" else "with calculated name")
    +++ " "
    +++ name
    +++ ", this name is used for another service, make sure to also check for preferred "
    +++ "sitemanagers.qubership.org resources"

-- The dynamic type of a `runtime.Object`.
pub data Payload : Type 0 where
  crv1 : V1.Cr → Payload
  crv2 : V2.Cr → Payload
  crv3 : V3.Cr → Payload
  unrelated : Payload

-- A `runtime.Object` with its group, version and kind.
pub record RuntimeObject : Type 0 where
  pub group : String
  pub version : String
  pub kind : String
  pub payload : Payload

-- The test `found && value.UID != uid`.
abbrev taken_by_other : Option SmObject → String → Bool
taken_by_other none uid = false
taken_by_other (some value) uid = not (value.uid == uid)

module _ {W : Type 0} (m : CrManager W) where
  unfoldable pub validate_service_name : String → String → Bool → Action W Refusal (Unit {0})
  validate_service_name name uid is_alias w =
      let (listed, w1) = get_all_services m w in
      elim listed [
        | err e ↦ raise (from_manager e) w1
        | ok dict ↦
            if taken_by_other (get dict.services name) uid
            then raise (refused (service_name_exists_message name is_alias)) w1
            else pure tt w1
      ]

  unfoldable pub validate_v1 : V1.Cr → Action W Refusal (Unit {0})
  validate_v1 cr = validate_service_name (V1.get_service_name cr) cr.meta.uid false

  unfoldable pub validate_v2 : V2.Cr → Action W Refusal (Unit {0})
  validate_v2 cr = validate_service_name (V2.get_service_name cr) cr.meta.uid false

  unfoldable pub validate_v3 : V3.Cr → Action W Refusal (Unit {0})
  validate_v3 cr =
      validate_service_name (V3.get_service_name cr) cr.meta.uid (is_some cr.spec.alias)

  abbrev not_converted : RuntimeObject → String → Refusal
  not_converted obj version = refused (
      "error converting object group=" +++ obj.group +++ " kind" +++ obj.kind +++ " version "
      +++ obj.version +++ " to CR " +++ version +++ " version")

  abbrev as_v3 : RuntimeObject → Payload → Action W Refusal (Unit {0})
  as_v3 obj (crv3 cr) = validate_v3 cr
  as_v3 obj _ = raise (not_converted obj "v3")

  abbrev as_v2 : RuntimeObject → Payload → Action W Refusal (Unit {0})
  as_v2 obj (crv2 cr) = validate_v2 cr
  as_v2 obj _ = raise (not_converted obj "v2")

  abbrev as_v1 : RuntimeObject → Payload → Action W Refusal (Unit {0})
  as_v1 obj (crv1 cr) = validate_v1 cr
  as_v1 obj _ = raise (not_converted obj "v1")

  unfoldable pub validate : RuntimeObject → Action W Refusal (Unit {0})
  validate obj =
      if obj.version == "v3"
      then as_v3 obj obj.payload
      else if obj.version == "v2"
      then as_v2 obj obj.payload
      else if obj.version == "v1"
      then as_v1 obj obj.payload
      else raise (refused ("API version " +++ obj.version +++ " is not supported"))

  abbrev pub validate_create : RuntimeObject → Action W Refusal (Unit {0})
  validate_create obj = validate obj

  abbrev pub validate_update : RuntimeObject → RuntimeObject → Action W Refusal (Unit {0})
  validate_update old_obj new_obj = validate new_obj

  abbrev pub validate_delete : RuntimeObject → Action W Refusal (Unit {0})
  validate_delete obj = pure tt
