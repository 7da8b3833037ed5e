-- ===== src/Tests/AdmissionRuns.antt =====
-- The admission of resources and the reconcilers.
use mathlib.Core.Path.{subst}
use drnavigator.Common.{
  GoError, ℕ, arith, eq_iff, String, true, false, ◌≡◌, ◌≢◌, ◌↔◌, ◌⊎◌, ◌==◌, if◌then◌else◌, ap, refl,
  none, some, List, [], ◌∷◌, ok, err, Memᴰ,
}
use drnavigator.Common.Dict.{get}
use drnavigator.Config.{default_config}
use drnavigator.Model.{SmDictionary}
use drnavigator.Api.V2
use drnavigator.Api.V3
use drnavigator.Api.V3.{v3, Hub}
use drnavigator.Api.Qubership
use drnavigator.Cluster.{CrClient, KubeClient, KubeError, Fetched}
use drnavigator.Manager.{CrManager, get_all_services}
use drnavigator.Manager.Convert.{site_manager_object}
use drnavigator.Validator.{
  RuntimeObject, crv2, refused, service_name_exists_message, validate, validate_v2, validate_v3,
}
use drnavigator.Validator.Accepts.{holder, validate_v3_iff, validate_v2_gap}
use drnavigator.Webhook.{Object, site_manager, validate_create, validate_update}
use drnavigator.Webhook.Shown.{Changes-get_all_services}
use drnavigator.Webhook.Unique.{
  create, none_yet, change, IsUnique, validate_create_iff, Changes-IsUnique,
}
use drnavigator.Reconcile.{reconcile_legacy}
use drnavigator.Reconcile.Legacy.{reconcile_legacy_settles}
use drnavigator.Tests.Fixtures.{manager, service}
use drnavigator.Tests.ResourceRuns.{cr_v2, cr_v3, sm, v2_to_v3}

-- A cluster with one legacy resource, which is the state, and one new resource.
abbrev cr_client : CrClient V3.Cr
cr_client = record {
  list_legacy = λ w. (record { found = w ∷ []; error = none }, w);
  get = λ namespace name w. (record { object = w; error = none }, w);
  update_status = λ cr w. (none, cr);
  list = λ w. (record { found = sm "pg" "v" ∷ []; error = none }, w);
}

abbrev live_manager : CrManager V3.Cr
live_manager = record {
  env = default_config;
  sm_config = none;
  cr_client = some cr_client;
  get_token = λ w. "";
  get_http_client = record {
    check_url = λ url. none;
    do_request = λ req w. (record { response = none; error = some "down" }, w);
  };
  post_http_client = record {
    check_url = λ url. none;
    do_request = λ req w. (record { response = none; error = some "down" }, w);
  };
  decode_status = λ text v. record { object = v; error = none };
  decode_healthz = λ text v. record { object = v; error = none };
  decode_process = λ text v. record { object = v; error = none };
  encode_process = λ r. ok "{}";
}

validate_v3_iff_example :
    (validate_v3 live_manager (cr_v3 none) (cr_v3 none) ≡ (ok tt, cr_v3 none)) ↔ (
      (uid : String)
      → holder (cr_v3 none ∷ []) (sm "pg" "v" ∷ []) (V3.get_service_name (cr_v3 none)) ≡ some uid
      → uid ≡ "u")
validate_v3_iff_example =
    validate_v3_iff live_manager (cr_v3 none) cr_client (cr_v3 none ∷ []) (sm "pg" "v" ∷ [])
      (cr_v3 none) (cr_v3 none) (cr_v3 none) refl refl refl refl

-- Another resource holds the name "pg".
abbrev taken : SmDictionary
taken = record { services = ("pg", service "pg" []) ∷ [] }

abbrev gap_manager : CrManager ℕ
gap_manager = record manager {
  sm_config = some (record { testing = record { enabled = true; token = ""; sm_dict = taken } });
}

listed : get_all_services gap_manager 0 ≡ (ok taken, 0)
unfolding get_all_services
listed = refl

free : get taken.services (V2.get_service_name cr_v2) ≡ none
unfolding get V2.get_service_name
free = refl

held : get taken.services cr_v2.meta.name ≡ some (service "pg" [])
unfolding get
held = refl

module_differs : cr_v2.spec.module_name ≢ "stateful"
module_differs e = ground (arith, eq_iff "db" "stateful")

uid_differs : (service "pg" []).uid ≢ cr_v2.meta.uid
uid_differs e = ground (arith, eq_iff "pg" "u")

validate_v2_gap_example :
    (validate_v2 gap_manager cr_v2 0 ≡ (ok tt, 0))
    × (validate_v3 gap_manager (cr_v3 (some "pg")) 0
        ≡ (err (refused (service_name_exists_message "pg" true)), 0))
validate_v2_gap_example =
    validate_v2_gap gap_manager 0 listed cr_v2 (cr_v3 none) (cr_v3 (some "pg")) (service "pg" [])
      module_differs v2_to_v3 free held uid_differs

abbrev request_v2 : RuntimeObject
request_v2 = record {
  group = "legacy.qubership.org";
  version = "v2";
  kind = "CR";
  payload = crv2 cr_v2;
}

v2_accepted : validate gap_manager request_v2 0 ≡ (ok tt, 0)
unfolding validate validate_v2 drnavigator.Validator.validate_service_name get_all_services get
    V2.get_service_name
v2_accepted = refl

abbrev gone : KubeError
gone = record { message = "gone"; is_not_found = false }

abbrev first :
    List Qubership.SiteManager → Fetched Qubership.SiteManager × List Qubership.SiteManager
first [] = (record { object = sm "" ""; error = some gone }, [])
first (x ∷ xs) = (record { object = x; error = none }, x ∷ xs)

-- The API server, whose state is the stored resources of one kind.
abbrev kube : KubeClient (List Qubership.SiteManager)
kube = record {
  list_legacy = λ w. (record { found = []; error = none }, w);
  get_legacy = λ namespace name w. (record { object = cr_v3 none; error = none }, w);
  update_legacy_status = λ cr w. (none, w);
  list_site_managers = λ w. (record { found = w; error = none }, w);
  get_site_manager = λ namespace name w. first w;
  update_site_manager_status = λ x w. (none, x ∷ []);
}

validate_create_iff_example :
    ((validate_create kube (site_manager (sm "pg" "u")) (sm "pg" "v" ∷ [])
        ≡ (ok tt, sm "pg" "v" ∷ []))
      ↔ ((x : Qubership.SiteManager)
          → Memᴰ x (sm "pg" "v" ∷ [])
          → Qubership.get_service_name x ≡ Qubership.get_service_name (sm "pg" "u")
          → x.meta.uid ≡ "u"))
    × ((validate_update kube
            (site_manager (sm "pg" "u"))
            (site_manager (sm "pg" "u"))
            (sm "pg" "v" ∷ [])
          ≡ (ok tt, sm "pg" "v" ∷ []))
        ↔ ((x : Qubership.SiteManager)
            → Memᴰ x (sm "pg" "v" ∷ [])
            → Qubership.get_service_name x ≡ Qubership.get_service_name (sm "pg" "u")
            → x.meta.uid ≡ "u"))
validate_create_iff_example =
    validate_create_iff kube (sm "pg" "v" ∷ []) (site_manager (sm "pg" "u")) (sm "pg" "u")
      (sm "pg" "v" ∷ []) (sm "pg" "v" ∷ []) refl

created : validate_create kube (site_manager (sm "pg" "v")) [] ≡ (ok tt, [])
unfolding validate_create drnavigator.Webhook.validate_service_name
created = refl

nothing_twice : IsUnique []
nothing_twice a b m = elim m [ ]

Changes-IsUnique_example : IsUnique (sm "pg" "v" ∷ [])
Changes-IsUnique_example =
    Changes-IsUnique kube nothing_twice (change [] none_yet (create (sm "pg" "v") [] refl created))

Changes-get_all_services_example :
    (dict : SmDictionary) × (get_all_services live_manager (cr_v3 none) ≡ (ok dict, cr_v3 none))
    × ((x : Qubership.SiteManager)
        → Memᴰ x (sm "pg" "v" ∷ [])
        → get dict.services (Qubership.get_service_name x)
          ≡ some (site_manager_object default_config x))
Changes-get_all_services_example =
    Changes-get_all_services kube (sm "pg" "v" ∷ [])
      (change [] none_yet (create (sm "pg" "v") [] refl created)) (refl, tt) live_manager cr_client
      (cr_v3 none ∷ []) (cr_v3 none) (cr_v3 none) (cr_v3 none) refl refl refl refl

-- A cluster with two legacy resources, of which the state has the statuses.
record Two : Type 0 where
  pg : V3.CrStatus
  mq : V3.CrStatus

abbrev second : V3.Cr
second = record (cr_v3 none) { meta = record ((cr_v3 none).meta) { name = "mq"; uid = "m" } }

abbrev two_client : CrClient Two
two_client = record {
  list_legacy = λ w. (
    record {
      found = record (cr_v3 none) { status = w.pg } ∷ record second { status = w.mq } ∷ [];
      error = none;
    },
    w,
  );
  get = λ namespace name w. (
    record {
      object =
          if name == "pg"
          then record (cr_v3 none) { status = w.pg }
          else record second { status = w.mq };
      error = none;
    },
    w,
  );
  update_status = λ cr w. (
    none,
    if cr.meta.name == "pg"
        then record { pg = cr.status; mq = w.mq }
        else record { pg = w.pg; mq = cr.status },
  );
  list = λ w. (record { found = []; error = none }, w);
}

abbrev blank : V3.CrStatus
blank = record { summary = ""; service_name = "" }

abbrev accepted : V3.CrStatus
accepted = record { summary = "Accepted"; service_name = V3.get_service_name (cr_v3 none) }

abbrev before : Two
before = record { pg = blank; mq = blank }

abbrev after : Two
after = record { pg = accepted; mq = blank }

reconciled : reconcile_legacy two_client "ns" "pg" before ≡ (none, after)
unfolding reconcile_legacy
reconciled = refl

stores :
    (s : V3.CrStatus) (w : Two)
    → two_client.update_status (record (cr_v3 none) { status = s }) before ≡ (none, w)
    → two_client.get "ns" "pg" w
      ≡ (record { object = record (cr_v3 none) { status = s }; error = none }, w)
stores s w written =
    subst
      (λ (u : Two).
        two_client.get "ns" "pg" u
        ≡ (record { object = record (cr_v3 none) { status = s }; error = none }, u))
      (ap (λ (p : GoError × Two). p.1) written) refl

reconcile_legacy_settles_example :
    (two_client.get "ns" "pg" after
      ≡ (record { object = record (cr_v3 none) { status = accepted }; error = none }, after))
    × (((blank ≡ accepted) × (after ≡ before))
        ⊎ ((blank ≢ accepted)
            × (two_client.update_status (record (cr_v3 none) { status = accepted }) before
                ≡ (none, after))))
    × (reconcile_legacy two_client "ns" "pg" after ≡ (none, after))
reconcile_legacy_settles_example =
    reconcile_legacy_settles two_client "ns" "pg" (cr_v3 none) before after refl stores reconciled
