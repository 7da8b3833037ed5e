-- ===== src/Tests/StoreRuns.antt =====
-- An API server that stores resources, the admission, the reconciler and the manager together.
use drnavigator.Common.{
  String, true, ◌≡◌, refl, none, some, List, [], ◌∷◌, ok, arith, ◌==◌, ◌&&◌, Memᴰ, inl, inr, map,
  Bool-cases, if◌then◌else◌,
}
use drnavigator.Common.Dict.{get}
use drnavigator.Config.{default_config}
use drnavigator.Model.{SmDictionary}
use drnavigator.Api.Qubership.{SiteManager}
use drnavigator.Cluster.{KubeClient, KubeError, Fetched, new_cr_client}
use drnavigator.Manager.{CrManager, get_all_services}
use drnavigator.Manager.Convert.{site_manager_object}
use drnavigator.Webhook.{site_manager, validate_create}
use drnavigator.Reconcile.{reconcile_site_manager}
use drnavigator.Reconcile.Store.{put_status, IsStore, Reached, empty, create}
use drnavigator.Reconcile.Served.{accepted, reconciled-Served}
use drnavigator.Tests.ResourceRuns.{cr_v3, sm}
use drnavigator.Tests.Fixtures.{decode_status, decode_healthz, decode_process, encode_process}

abbrev not_found : KubeError
not_found = record { message = "not found"; is_not_found = true }

-- The first resource of a name.
find : String → String → List SiteManager → Fetched SiteManager
find namespace name [] = record { object = sm "" ""; error = some not_found }
find namespace name (x ∷ xs) =
    let rest = find namespace name xs in
    if x.meta.namespace == namespace && x.meta.name == name
    then record { object = x; error = none }
    else rest

abbrev kube : KubeClient (List SiteManager)
kube = record {
  list_legacy = λ w. (record { found = []; error = none }, w);
  get_legacy = λ namespace name w. (record { object = cr_v3 none; error = none }, w);
  update_legacy_status = λ cr w. (none, w);
  list_site_managers = λ w. (record { found = w; error = none }, w);
  get_site_manager = λ namespace name w. (find namespace name w, w);
  update_site_manager_status = λ x w. (none, map (put_status x.meta.uid x.status) w);
}

find-Memᴰ :
    (namespace name : String) (w : List SiteManager)
    → (find namespace name w).error ≡ none
    → Memᴰ (find namespace name w).object w
unfolding find
find-Memᴰ namespace name [] e = absurd (ground arith)
find-Memᴰ namespace name (x ∷ xs) e =
    elim (Bool-cases (x.meta.namespace == namespace && x.meta.name == name)) [
      | inl here ↦ rw (here, find) (Memᴰ.head refl)
      | inr later ↦ rw (later, find) (Memᴰ.tail (find-Memᴰ namespace name xs (ground arith)))
    ]

kube-IsStore : IsStore kube (λ w. w)
kube-IsStore = record {
  legacy_keeps = λ w. refl;
  list_keeps = λ w. refl;
  lists = λ w e. refl;
  get_keeps = λ namespace name w. refl;
  gets = find-Memᴰ;
  writes = λ x w. inl refl;
}

abbrev manager : CrManager (List SiteManager)
manager = record {
  env = default_config;
  sm_config = none;
  cr_client = some (new_cr_client kube);
  get_token = λ w. "";
  get_http_client = record {
    check_url = λ url. none;
    do_request = λ r w. (record { response = none; error = some "refused" }, w);
  };
  post_http_client = record {
    check_url = λ url. none;
    do_request = λ r w. (record { response = none; error = some "refused" }, w);
  };
  decode_status = decode_status;
  decode_healthz = decode_healthz;
  decode_process = decode_process;
  encode_process = encode_process;
}

abbrev pg : SiteManager
pg = sm "pg" "v"

abbrev mq : SiteManager
mq = sm "mq" "u"

admits_pg : (validate_create kube (site_manager pg) []).0 ≡ ok tt
unfolding validate_create drnavigator.Webhook.validate_service_name
admits_pg = refl

admits_mq : (validate_create kube (site_manager mq) (pg ∷ [])).0 ≡ ok tt
unfolding validate_create drnavigator.Webhook.validate_service_name
    drnavigator.Api.Qubership.get_service_name
admits_mq = refl

both : Reached kube (λ w. w) (mq ∷ pg ∷ [])
both =
    create mq (pg ∷ []) (mq ∷ pg ∷ []) (create pg [] (pg ∷ []) (empty [] refl) admits_pg refl refl)
      admits_mq refl refl

there : (kube.get_site_manager "ns" "pg" (mq ∷ pg ∷ [])).0.error ≡ none
unfolding find
there = refl

done : (reconcile_site_manager kube "ns" "pg" (mq ∷ pg ∷ [])).0 ≡ none
unfolding reconcile_site_manager find
done = refl

reconciled-Served_example :
    let x =
      accepted kube
        (λ w. w)
        kube-IsStore
        (kube.get_site_manager "ns" "pg" (mq ∷ pg ∷ [])).0.object in
    let later = (reconcile_site_manager kube "ns" "pg" (mq ∷ pg ∷ [])).1 in
    Memᴰ x later
    × (dict : SmDictionary) × ((get_all_services manager later).0 ≡ ok dict)
    × (get dict.services x.status.service_name ≡ some (site_manager_object default_config x))
reconciled-Served_example =
    reconciled-Served kube (λ w. w) kube-IsStore (mq ∷ pg ∷ []) both "ns" "pg" there done manager []
      (reconcile_site_manager kube "ns" "pg" (mq ∷ pg ∷ [])).1 refl refl refl refl

-- The status of the second resource is written, and the first is as it was.
test_reconcile :
    (reconcile_site_manager kube "ns" "pg" (mq ∷ pg ∷ [])).1
    ≡ mq ∷ record pg { status = record { summary = "Accepted"; service_name = "pg.ns" } } ∷ []
unfolding reconcile_site_manager find put_status drnavigator.Api.Qubership.get_service_name
test_reconcile = refl
