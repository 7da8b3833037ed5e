-- ===== src/Tests/ResourceRuns.antt =====
-- Resources: their conversions, the dictionary, and the TLS of the requests to services.
use mathlib.Core.Quot
use mathlib.Core.List.Permᴰ
use mathlib.Core.List.Permᴰ.{Permᴰ}
use drnavigator.Common.{
  err, ◌==◌, if◌then◌else◌, String, true, false, ◌≡◌, ◌≢◌, ◌↔◌, refl, Option, none, some, [], ◌∷◌,
  ok, if◌then◌else◌, ◌==◌,
}
use drnavigator.Common.Num.{pos}
use drnavigator.Common.Dict.{get}
use drnavigator.Config.{default_config}
use drnavigator.Model.{SmObject}
use drnavigator.Api.Meta.{TypeMeta, ObjectMeta}
use drnavigator.Api.V1
use drnavigator.Api.V2
use drnavigator.Api.V3
use drnavigator.Api.V3.{v3, Hub}
use drnavigator.Api.Qubership
use drnavigator.Api.Conversion.{forget_v2, V2-round_trip, V3-round_trip_iff}
use drnavigator.Utils.{check_file, Files, parse_bool}
use drnavigator.Manager.Convert.{convert_to_dict, legacy_object, site_manager_object}
use drnavigator.Common.Named.{last_named}
use drnavigator.Manager.Convert.Lookup.{effective_or, get-convert_to_dict}
use drnavigator.Manager.Convert.Order.{Map, HasDistinctNames, convert_to_dict-Permᴰ}
use drnavigator.Manager.Setup.{TlsConfig, tls_config, tls_config-insecure}

abbrev pub type_meta : TypeMeta
type_meta = record { api_version = "v"; kind = "CR" }

abbrev pub named : String → ObjectMeta
named name = record { name = name; namespace = "ns"; uid = "u" }

abbrev cr_v1 : V1.Cr
cr_v1 = record {
  type_meta = type_meta;
  meta = named "pg";
  spec = record {
    after = none;
    before = some [];
    sequence = none;
    allowed_standby_state_list = none;
    timeout = some (pos 5);
    service_endpoint = "pg/sm";
    healthz_endpoint = "pg/h";
    ingress_endpoint = "in";
  };
  status = record { summary = ""; service_name = "" };
}

abbrev pub cr_v2 : V2.Cr
cr_v2 = record {
  type_meta = type_meta;
  meta = named "pg";
  spec = record {
    module_name = "db";
    after = none;
    before = some [];
    sequence = none;
    allowed_standby_state_list = none;
    timeout = some (pos 5);
    parameters = record {
      service_endpoint = "pg/sm";
      healthz_endpoint = "pg/h";
      ingress_endpoint = "in";
    };
  };
  status = record { summary = ""; service_name = "" };
}

abbrev pub cr_v3 : Option String → V3.Cr
cr_v3 alias = record {
  type_meta = type_meta;
  meta = named "pg";
  spec = record {
    module_name = "db";
    alias = alias;
    after = none;
    before = some [];
    sequence = none;
    allowed_standby_state_list = none;
    timeout = some (pos 5);
    parameters = record { service_endpoint = "pg/sm"; healthz_endpoint = "pg/h" };
  };
  status = record { summary = ""; service_name = "" };
}

abbrev from_v1 : V3.Cr
from_v1 = record (cr_v3 none) { spec = record ((cr_v3 none).spec) { module_name = "stateful" } }

v1_to_v3 : V1.convert_to cr_v1 (v3 (cr_v3 none)) ≡ ok from_v1
unfolding V1.convert_to
v1_to_v3 = refl

pub v2_to_v3 : V2.convert_to cr_v2 (v3 (cr_v3 none)) ≡ ok (cr_v3 (some "pg"))
unfolding V2.convert_to
v2_to_v3 = refl

V2-round_trip_example : V2.convert_from cr_v2 (v3 (cr_v3 (some "pg"))) ≡ ok (forget_v2 cr_v2)
V2-round_trip_example = V2-round_trip cr_v2 cr_v2 (cr_v3 none) (cr_v3 (some "pg")) refl v2_to_v3

v3_to_v2 : V2.convert_from cr_v2 (v3 (cr_v3 none)) ≡ ok (forget_v2 cr_v2)
unfolding V2.convert_from
v3_to_v2 = refl

back_to_v3 : V2.convert_to (forget_v2 cr_v2) (v3 (cr_v3 none)) ≡ ok (cr_v3 (some "pg"))
unfolding V2.convert_to
back_to_v3 = refl

V3-round_trip_iff_example : (cr_v3 (some "pg") ≡ cr_v3 none) ↔ (
    (cr_v3 none).spec.alias
    ≡ (if (cr_v3 none).spec.module_name == "stateful" then none else some (cr_v3 none).meta.name))
V3-round_trip_iff_example =
    V3-round_trip_iff (cr_v3 none) (cr_v3 none) (cr_v3 (some "pg")) cr_v2 (forget_v2 cr_v2) refl
      v3_to_v2 back_to_v3

abbrev pub sm : String → String → Qubership.SiteManager
sm name uid = record {
  type_meta = type_meta;
  meta = record { name = name; namespace = "ns"; uid = uid };
  spec = record {
    module_name = "";
    alias = none;
    after = none;
    before = none;
    sequence = none;
    allowed_standby_state_list = none;
    timeout = none;
    parameters = record { service_endpoint = "pg/sm"; healthz_endpoint = "" };
  };
  status = record { summary = ""; service_name = "" };
}

get-convert_to_dict_example :
    get (convert_to_dict default_config (cr_v3 none ∷ []) (sm "pg" "v" ∷ [])).services "pg.ns"
    ≡ effective_or
        (site_manager_object default_config)
        (last_named Qubership.get_service_name "pg.ns" (sm "pg" "v" ∷ []))
        (effective_or
          (legacy_object default_config)
          (last_named V3.get_service_name "pg.ns" (cr_v3 none ∷ []))
          none)
get-convert_to_dict_example =
    get-convert_to_dict default_config (cr_v3 none ∷ []) (sm "pg" "v" ∷ []) "pg.ns"

-- Two resources of qubership.org, listed in both orders.
two_sms : HasDistinctNames Qubership.get_service_name (sm "pg" "v" ∷ sm "mq" "u" ∷ [])
unfolding Qubership.get_service_name
two_sms = (refl, (refl, tt))

convert_to_dict-Permᴰ_example :
    Path
      (Map SmObject)
      (Quot.mk
        (convert_to_dict default_config
          (cr_v3 none ∷ [])
          (sm "pg" "v" ∷ sm "mq" "u" ∷ [])).services)
      (Quot.mk
        (convert_to_dict default_config
          (cr_v3 none ∷ [])
          (sm "mq" "u" ∷ sm "pg" "v" ∷ [])).services)
convert_to_dict-Permᴰ_example =
    convert_to_dict-Permᴰ default_config (Permᴰ.refl _) (Permᴰ.swap refl refl) (refl, tt) two_sms

abbrev files : Files
files = record {
  is_dir = λ path. ok false;
  read_file = λ path. if path == "/ca.pem" then ok "pem" else err "no such file";
}

abbrev with_roots : TlsConfig
with_roots = record { insecure_skip_verify = false; root_cas = some "pem" }

from_file : tls_config files "/ca.pem" ≡ ok with_roots
unfolding tls_config parse_bool drnavigator.Utils.check_file
from_file = refl

tls_config-insecure_example :
    ((with_roots.insecure_skip_verify ≡ true) ↔ (parse_bool "/ca.pem" ≡ some false))
    × ((with_roots.root_cas ≢ none) ↔ (parse_bool "/ca.pem" ≡ none))
    × ((pem : String)
        → (with_roots.root_cas ≡ some pem) ↔ (
            (parse_bool "/ca.pem" ≡ none)
            × (check_file files "/ca.pem" ≡ none)
            × (files.read_file "/ca.pem" ≡ ok pem)))
tls_config-insecure_example = tls_config-insecure files "/ca.pem" with_roots from_file
