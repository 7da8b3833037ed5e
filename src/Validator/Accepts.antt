-- ===== src/Validator/Accepts.antt =====
-- Which legacy resources the validator accepts.
use drnavigator.Common.{
  String, Bool, true, ◌≡◌, ◌≢◌, ◌↔◌, Option, none, some, refl, ok, err, List, arith, eq_iff, inl,
  inr, Option-cases, is_some,
}
use drnavigator.Common.Dict.{get}
use drnavigator.Model.{SmObject, SmDictionary}
use drnavigator.Api.V2
use drnavigator.Api.V3
use drnavigator.Api.V3.{v3}
use drnavigator.Api.Qubership
use drnavigator.Cluster.{CrClient}
use drnavigator.Manager.{CrManager, testing_dict, get_all_services}
use drnavigator.Manager.Listing.{get_all_services_live}
use drnavigator.Config.{Config}
use drnavigator.Manager.Convert.{
  convert_to_dict, legacy_object, site_manager_object, apply_defaults,
}
use drnavigator.Common.Named.{last_named}
use drnavigator.Manager.Convert.Lookup.{effective_or, get-convert_to_dict}
use drnavigator.Validator.{
  refused, service_name_exists_message, Payload, crv1, crv2, crv3, unrelated, RuntimeObject,
  validate_service_name, validate_v1, validate_v2, validate_v3, validate,
}

-- The uid of the resource that the dictionary holds under a name: of the last new resource of that
-- name, else of the last legacy resource of that name.
abbrev pub holder : List V3.Cr → List Qubership.SiteManager → String → Option String
holder legacy list name =
    effective_or (λ (sm : Qubership.SiteManager). sm.meta.uid)
      (last_named Qubership.get_service_name name list)
      (effective_or (λ (cr : V3.Cr). cr.meta.uid) (last_named V3.get_service_name name legacy) none)

abbrev uid_of : Option SmObject → Option String
uid_of none = none
uid_of (some obj) = some obj.uid

holder_lem :
    (env : Config) (legacy : List V3.Cr) (list : List Qubership.SiteManager) (name : String)
    → uid_of (get (convert_to_dict env legacy list).services name) ≡ holder legacy list name
unfolding legacy_object site_manager_object apply_defaults
holder_lem env legacy list name = ground (arith, get-convert_to_dict env legacy list name)

module _ {W : Type 0} (m : CrManager W) (w : W) where
  module _ {dict : SmDictionary} {w1 : W} (listed : get_all_services m w ≡ (ok dict, w1)) where
    validate_service_name_iff :
        (name uid : String) (is_alias : Bool)
        → (validate_service_name m name uid is_alias w ≡ (ok tt, w1))
          ↔ ((obj : SmObject) → get dict.services name ≡ some obj → obj.uid ≡ uid)
    unfolding validate_service_name
    validate_service_name_iff name uid is_alias = (
      λ h obj e. ground (arith, eq_iff obj.uid uid),
      λ h. elim (Option-cases (get dict.services name)) [
        | inl free ↦ ground arith
        | inr (obj, e) ↦ ground (arith, eq_iff obj.uid uid, h obj e)
      ],
    )

  -- Of a legacy resource, the validator accepts the name exactly when nobody holds it in the
  -- dictionary, or only the resource itself, as its uid tells. The dictionary is that of the listed
  -- resources, in which a new resource of a name hides the legacy ones.
  pub validate_v3_iff :
      (client : CrClient W) (legacy : List V3.Cr) (list : List Qubership.SiteManager) (w1 w2 : W)
      (cr : V3.Cr)
      → testing_dict m.sm_config ≡ none
      → m.cr_client ≡ some client
      → client.list_legacy w ≡ (record { found = legacy; error = none }, w1)
      → client.list w1 ≡ (record { found = list; error = none }, w2)
      → (validate_v3 m cr w ≡ (ok tt, w2)) ↔ (
          (uid : String)
          → holder legacy list (V3.get_service_name cr) ≡ some uid
          → uid ≡ cr.meta.uid)
  unfolding validate_v3
  validate_v3_iff client legacy list w1 w2 cr off live first second =
      let (to, from) =
        validate_service_name_iff
          (get_all_services_live m w client legacy list w1 w2 off live first second)
          (V3.get_service_name cr) cr.meta.uid (is_some cr.spec.alias) in
      let same = holder_lem m.env legacy list (V3.get_service_name cr) in
      let held = get (convert_to_dict m.env legacy list).services (V3.get_service_name cr) in
      (
        λ h uid e. elim (Option-cases held) [
          | inl free ↦ absurd (ground arith)
          | inr (obj, found) ↦ ground (arith, to h obj found)
        ],
        λ h. from (λ obj found. h obj.uid (ground arith)),
      )

  module _ {dict : SmDictionary} {w1 : W} (listed : get_all_services m w ≡ (ok dict, w1)) where
    -- The name that is checked of a v2 resource of a module other than "stateful" is not the one that
    -- its v3 conversion has. If another resource holds the converted name and nobody the checked one,
    -- the v2 resource is accepted, and its conversion is refused.
    pub validate_v2_gap :
        (cr : V2.Cr) (hub out : V3.Cr) (obj : SmObject)
        → cr.spec.module_name ≢ "stateful"
        → V2.convert_to cr (v3 hub) ≡ ok out
        → get dict.services (V2.get_service_name cr) ≡ none
        → get dict.services cr.meta.name ≡ some obj
        → obj.uid ≢ cr.meta.uid
        → (validate_v2 m cr w ≡ (ok tt, w1))
          × (validate_v3 m out w
              ≡ (err (refused (service_name_exists_message cr.meta.name true)), w1))
    unfolding validate_v2 validate_v3 validate_service_name V2.convert_to V3.get_service_name
    validate_v2_gap cr hub out obj module_name converted free taken other =
        ground (arith, eq_iff cr.spec.module_name "stateful", eq_iff obj.uid cr.meta.uid)

-- The version is that of the payload's type, and the validation for it succeeds.
abbrev pub IsAccepted : {W : Type 0} → CrManager W → W → W → String → Payload → Type 0
IsAccepted m w w1 version (crv3 cr) = (version ≡ "v3") × (validate_v3 m cr w ≡ (ok tt, w1))
IsAccepted m w w1 version (crv2 cr) = (version ≡ "v2") × (validate_v2 m cr w ≡ (ok tt, w1))
IsAccepted m w w1 version (crv1 cr) = (version ≡ "v1") × (validate_v1 m cr w ≡ (ok tt, w1))
IsAccepted m w w1 version unrelated = ⊥

pub validate-payload :
    {W : Type 0} (m : CrManager W) (w w1 : W) (obj : RuntimeObject) (p : Payload)
    → obj.payload ≡ p
    → validate m obj w ≡ (ok tt, w1)
    → IsAccepted m w w1 obj.version p
unfolding validate
validate-payload m w w1 obj (crv1 cr) same e =
    ground (arith, eq_iff obj.version "v1", eq_iff obj.version "v2", eq_iff obj.version "v3")
validate-payload m w w1 obj (crv2 cr) same e =
    ground (arith, eq_iff obj.version "v1", eq_iff obj.version "v2", eq_iff obj.version "v3")
validate-payload m w w1 obj (crv3 cr) same e =
    ground (arith, eq_iff obj.version "v1", eq_iff obj.version "v2", eq_iff obj.version "v3")
validate-payload m w w1 obj unrelated same e =
    ground (arith, eq_iff obj.version "v1", eq_iff obj.version "v2", eq_iff obj.version "v3")

-- The validator accepts an object only if its payload is of the type of its version, and the
-- validation of that version succeeds.
pub validate_accepts :
    {W : Type 0} (m : CrManager W) (w w1 : W) (obj : RuntimeObject)
    → validate m obj w ≡ (ok tt, w1)
    → IsAccepted m w w1 obj.version obj.payload
validate_accepts m w w1 obj e = validate-payload m w w1 obj obj.payload refl e
