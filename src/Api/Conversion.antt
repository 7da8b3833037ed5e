-- ===== src/Api/Conversion.antt =====
-- The conversions of the legacy API between its versions: round trips through the hub, and the
-- service name under a conversion.
use Prim.Native.String.{count}
use text.Mathlib.TextLemmas.{length-append}
use drnavigator.Common.{
  String, ◌≡◌, ◌≢◌, ◌↔◌, ap, none, some, ok, arith, eq_iff, ◌==◌, if◌then◌else◌, ◌+++◌,
}
use drnavigator.Api.V1
use drnavigator.Api.V2
use drnavigator.Api.V3
use drnavigator.Api.V3.{Hub, v3, other}

-- What a trip through the hub forgets of a v1 or v2 resource: the ingress endpoint.
abbrev pub forget_v1 : V1.Cr → V1.Cr
forget_v1 cr = record cr { spec = record (cr.spec) { ingress_endpoint = "" } }

abbrev pub forget_v2 : V2.Cr → V2.Cr
forget_v2 cr = record cr {
  spec = record (cr.spec) { parameters = record (cr.spec.parameters) { ingress_endpoint = "" } };
}

-- A v1 resource that is converted to v3, and from there into a v1 resource of the same type meta,
-- comes back with its ingress endpoint cleared and all else as it was.
pub V1-round_trip :
    (cr dst : V1.Cr) (hub out : V3.Cr)
    → dst.type_meta ≡ cr.type_meta
    → V1.convert_to cr (v3 hub) ≡ ok out
    → V1.convert_from dst (v3 out) ≡ ok (forget_v1 cr)
unfolding V1.convert_to V1.convert_from
V1-round_trip cr dst hub out h e = ground arith

-- A v2 resource that is converted to v3, and from there into a v2 resource of the same type meta,
-- comes back with its ingress endpoint cleared and all else as it was.
pub V2-round_trip :
    (cr dst : V2.Cr) (hub out : V3.Cr)
    → dst.type_meta ≡ cr.type_meta
    → V2.convert_to cr (v3 hub) ≡ ok out
    → V2.convert_from dst (v3 out) ≡ ok (forget_v2 cr)
unfolding V2.convert_to V2.convert_from
V2-round_trip cr dst hub out h e = ground arith

-- A v3 resource that is converted to v2, and from there into a v3 resource of the same type meta,
-- comes back unchanged exactly when its alias is the one that v2 implies: none for the module
-- "stateful", and the name of the resource for any other module.
pub V3-round_trip_iff :
    (cr hub out : V3.Cr) (dst mid : V2.Cr)
    → hub.type_meta ≡ cr.type_meta
    → V2.convert_from dst (v3 cr) ≡ ok mid
    → V2.convert_to mid (v3 hub) ≡ ok out
    → (out ≡ cr)
      ↔ (cr.spec.alias ≡ (if cr.spec.module_name == "stateful" then none else some cr.meta.name))
unfolding V2.convert_to V2.convert_from
V3-round_trip_iff cr hub out dst mid h e f = ground arith

-- A longer text is another text.
name-ne-dotted : (name namespace : String) → name +++ "." +++ namespace ≢ name
name-ne-dotted name namespace e =
    omega (arith, ap count e, length-append name ("." +++ namespace), length-append "." namespace)

-- The service name of a v2 resource is the service name of its v3 conversion exactly when its module
-- is "stateful"; otherwise the conversion is known by the name of the resource alone.
pub V2-service_name_iff :
    (cr : V2.Cr) (hub out : V3.Cr)
    → V2.convert_to cr (v3 hub) ≡ ok out
    → ((V3.get_service_name out ≡ V2.get_service_name cr) ↔ (cr.spec.module_name ≡ "stateful"))
      × (cr.spec.module_name ≢ "stateful" → V3.get_service_name out ≡ cr.meta.name)
unfolding V2.convert_to V2.get_service_name V3.get_service_name
V2-service_name_iff cr hub out e =
    ground
      (arith, eq_iff cr.spec.module_name "stateful", name-ne-dotted cr.meta.name cr.meta.namespace)

-- A v1 resource and its v3 conversion have the same service name.
pub V1-service_name :
    (cr : V1.Cr) (hub out : V3.Cr)
    → V1.convert_to cr (v3 hub) ≡ ok out
    → V3.get_service_name out ≡ V1.get_service_name cr
unfolding V1.convert_to V1.get_service_name V3.get_service_name
V1-service_name cr hub out e = ground arith
