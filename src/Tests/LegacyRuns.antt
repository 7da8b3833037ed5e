-- ===== src/Tests/LegacyRuns.antt =====
-- The admission of legacy resources beside new ones, with an API server that stores both.
use drnavigator.Common.{◌≡◌, ◌⊎◌, refl, none, some, List, [], ◌∷◌, ok, Memᴰ}
use drnavigator.Common.Dict.{get}
use drnavigator.Config.{default_config}
use drnavigator.Model.{SmDictionary}
use drnavigator.Api.V3
use drnavigator.Api.Qubership
use drnavigator.Http.{HttpClient}
use drnavigator.Cluster.{CrClient}
use drnavigator.Manager.{CrManager, get_all_services}
use drnavigator.Manager.Convert.{legacy_object, site_manager_object}
use drnavigator.Validator.{RuntimeObject, crv3, validate_create}
use drnavigator.Validator.Unique.{Changes, none_yet, change, create, others, Changes-legacy_shown}
use drnavigator.Tests.ResourceRuns.{cr_v3, sm}
use drnavigator.Tests.Fixtures.{decode_status, decode_healthz, decode_process, encode_process}

abbrev Stored : Type 0
Stored = List V3.Cr × List Qubership.SiteManager

abbrev client : CrClient Stored
client = record {
  list_legacy = λ w. (record { found = w.0; error = none }, w);
  get = λ namespace name w. (record { object = cr_v3 none; error = none }, w);
  update_status = λ cr w. (none, w);
  list = λ w. (record { found = w.1; error = none }, w);
}

abbrev refusing : HttpClient Stored
refusing = record {
  check_url = λ url. none;
  do_request = λ req w. (record { response = none; error = some "refused" }, w);
}

abbrev manager : CrManager Stored
manager = record {
  env = default_config;
  sm_config = none;
  cr_client = some client;
  get_token = λ w. "";
  get_http_client = refusing;
  post_http_client = refusing;
  decode_status = decode_status;
  decode_healthz = decode_healthz;
  decode_process = decode_process;
  encode_process = encode_process;
}

abbrev request : RuntimeObject
request = record {
  group = "legacy.qubership.org";
  version = "v3";
  kind = "CR";
  payload = crv3 (cr_v3 none);
}

admitted : validate_create manager request ([], []) ≡ (ok tt, ([], []))
unfolding drnavigator.Validator.validate drnavigator.Validator.validate_v3
    drnavigator.Validator.validate_service_name get_all_services get
    drnavigator.Manager.Convert.convert_to_dict
admitted = refl

-- A legacy resource, and later a new one of its service name.
abbrev changes : Changes manager client (cr_v3 none ∷ []) (sm "pg" "v" ∷ [])
changes =
    change ([], [])
      (change ([], []) none_yet
        (create request (cr_v3 none) ([], []) ([], []) refl refl refl admitted (λ s m. elim m [ ])))
      (others (sm "pg" "v" ∷ []))

abbrev now : Stored
now = (cr_v3 none ∷ [], sm "pg" "v" ∷ [])

Changes-legacy_shown_example :
    (dict : SmDictionary) × (get_all_services manager now ≡ (ok dict, now))
    × ((cr : V3.Cr)
        → Memᴰ cr (cr_v3 none ∷ [])
        → (get dict.services (V3.get_service_name cr) ≡ some (legacy_object default_config cr))
          ⊎ ((s : Qubership.SiteManager) × Memᴰ s (sm "pg" "v" ∷ [])
              × (Qubership.get_service_name s ≡ V3.get_service_name cr)
              × (get dict.services (V3.get_service_name cr)
                  ≡ some (site_manager_object default_config s))))
Changes-legacy_shown_example =
    Changes-legacy_shown manager client refl refl changes (refl, tt) now now now refl refl
