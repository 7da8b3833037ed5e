-- ===== src/Manager/Status/Branches.antt =====
-- The branches of `GetServiceStatus`: it always stops, what it returns without dependencies, and a
-- request without a service name.
use drnavigator.Common.{
  String, Bool, false, ◌≡◌, ◌≢◌, refl, Option, none, some, [], ◌∷◌, ok, err, arith, inl, inr,
  Option-cases,
}
use drnavigator.Common.Action.{outcome_cases}
use drnavigator.Common.Dict.{get, insert}
use drnavigator.Model.{SmObject, SmDictionary}
use drnavigator.Manager.{CrManager, get_all_services, get_service_status, collect, request_status}
use drnavigator.Manager.Collect.{
  failed, nil_dereference, out_of_fuel, Fetch, undefined_service, get_service_object,
  collect_services_statuses,
}
use drnavigator.Manager.Status.{
  IsReady, get_all_services-ne-Stop, get_service_status_known, get_service_status_unknown,
  run-Finishes, collect-eq-err,
}

module _ {W : Type 0} (m : CrManager W) (w : W) {dict : SmDictionary} {w1 : W}
    (listed : get_all_services m w ≡ (ok dict, w1)) where
  -- A request without a service name is refused, and nothing is sent.
  pub get_service_status_undefined :
      (with_deps : Bool)
      → get_service_status m none with_deps w ≡ (err (failed undefined_service), w1)
  unfolding get_service_status get_service_object
  get_service_status_undefined with_deps = rw (listed, get_service_status) refl

  -- Without dependencies one service is asked, and the response has its status alone; or the error
  -- of the request is returned.
  pub get_service_status_flat :
      (name : String) (obj : SmObject) (fetch : Fetch) (w2 : W)
      → get dict.services name ≡ some obj
      → request_status m obj w1 ≡ (fetch, w2)
      → get_service_status m (some name) false w ≡ (
        elim fetch.error [
          | some e ↦ err (failed e)
          | none ↦ ok (record { services = (name, fetch.status) ∷ [] })
        ],
        w2,
      )
  unfolding collect collect_services_statuses get insert
  get_service_status_flat name obj fetch w2 found asked =
      rw (get_service_status_known m w listed name false (λ e. cc)) (ground arith)

  status_stops :
      (service : Option String) (with_deps : Bool)
      → ((get_service_status m service with_deps w).0 ≢ err out_of_fuel)
        × ((get_service_status m service with_deps w).0 ≢ err nil_dereference)
  status_stops none with_deps = rw get_service_status_undefined (ground arith, ground arith)
  status_stops (some name) with_deps = elim (Option-cases (get dict.services name)) [
    | inl unknown ↦
        rw (get_service_status_unknown m w listed name with_deps unknown)
          (ground arith, ground arith)
    | inr (obj, found) ↦
        let known : get dict.services name ≢ none = ground arith in
        let (fuelled, safe) = run-Finishes m w1 dict with_deps name known in
        rw (get_service_status_known m w listed name with_deps known) (
          λ e. fuelled (collect-eq-err m w1 dict with_deps name _ e),
          λ e. safe (collect-eq-err m w1 dict with_deps name _ e),
        )
  ]

-- Whatever the services answer, a manager that can list them returns the status or an error: the
-- recursion over the dependencies ends, also on a cycle, and no nil is dereferenced.
pub get_service_status_stops :
    {W : Type 0} (m : CrManager W) (w : W) (service : Option String) (with_deps : Bool)
    → IsReady m
    → ((get_service_status m service with_deps w).0 ≢ err out_of_fuel)
      × ((get_service_status m service with_deps w).0 ≢ err nil_dereference)
unfolding get_service_status
get_service_status_stops m w service with_deps ready = elim (outcome_cases (get_all_services m w)) [
  | inl (dict, w1, listed) ↦ status_stops m w listed service with_deps
  | inr (x, w1, e) ↦
      let (fuelled, safe) = get_all_services-ne-Stop m w ready in
      rw (e, get_service_status) (ground arith, ground arith)
]
