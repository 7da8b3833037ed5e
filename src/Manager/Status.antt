-- ===== src/Manager/Status.antt =====
-- The branches of `GetServiceStatus`, and the call that it makes. `Dependencies` says what that
-- call collects.
pub mod Branches
pub mod Dependencies
pub mod Requests
pub mod Contacts
use drnavigator.Common.{
  ℕ, suc, String, Bool, true, false, ◌≡◌, ◌≢◌, ◌↔◌, ◌⊎◌, refl, Option, none, some, List, [], ◌∷◌,
  ok, err, Result, arith, inl, inr, Memᴰ, length, Option-cases, Result-cases, eq_refl, ◌<◌,
}
use mathlib.Core.List.Memᴰ
use drnavigator.Common.Action.{then_cases}
use drnavigator.Common.Dict.{get, has, insert}
use drnavigator.Model.{SmError, SmObject, SmDictionary, SmStatus, SmStatusResponse}
use drnavigator.Manager.{
  CrManager, testing_dict, get_all_services, get_service_status, collect, request_status, find,
  list_all,
}
use drnavigator.Manager.Collect.{
  Stop, failed, nil_dereference, out_of_fuel, Progress, Fetch, get_service_object, unknown_service,
  undefined_service, deps_of, collect_services_statuses, visit, visit_all, visit_new,
}
use drnavigator.Manager.Collect.Measure.{missing-le-length}
use drnavigator.Manager.Collect.Ends.{Finishes, collect-Finishes, collect-Finishes_first}
use drnavigator.Manager.Collect.Reached.{DependsOn, Reach, here, step, Visited, collect-Visited}
use drnavigator.Manager.Collect.Failure.{Cause, collect-Cause, dependency_error}

-- The dictionary of the testing mode is on, or there is a client for the resources.
abbrev pub IsReady : {W : Type 0} → CrManager W → Type 0
IsReady m = (testing_dict m.sm_config ≢ none) ⊎ (m.cr_client ≢ none)

module _ {W : Type 0} (m : CrManager W) (w : W) where
  pub get_all_services-ne-Stop :
      IsReady m
      → ((get_all_services m w).0 ≢ err out_of_fuel)
        × ((get_all_services m w).0 ≢ err nil_dereference)
  unfolding get_all_services
  get_all_services-ne-Stop ready = (ground arith, ground arith)

  module _ {dict : SmDictionary} {w1 : W} (listed : get_all_services m w ≡ (ok dict, w1)) where
    -- A service that is not in the dictionary is refused, by name, and no request is sent.
    pub get_service_status_unknown :
        (name : String) (with_deps : Bool)
        → get dict.services name ≡ none
        → get_service_status m (some name) with_deps w ≡ (err (failed (unknown_service name)), w1)
    unfolding get_service_status get_service_object
    get_service_status_unknown name with_deps unknown =
        rw (listed, get_service_status) (ground arith)

    pub get_service_status_known :
        (name : String) (with_deps : Bool)
        → get dict.services name ≢ none
        → get_service_status m (some name) with_deps w ≡ collect m dict with_deps name w1
    unfolding get_service_status get_service_object
    get_service_status_known name with_deps known = rw (listed, get_service_status) (ground arith)

  abbrev pub run : SmDictionary → Bool → String → Result Stop (Unit {0}) × Progress W
  run dict with_deps name =
      collect_services_statuses (request_status m) dict with_deps (suc (length dict.services))
        (name ∷ []) none (record { result = []; world = w })

  pub run-Finishes :
      (dict : SmDictionary) (with_deps : Bool) (name : String)
      → get dict.services name ≢ none
      → Finishes (request_status m) dict with_deps (run dict with_deps name).0
  run-Finishes dict with_deps name known =
      collect-Finishes_first (request_status m) dict with_deps (length dict.services) name _
        (omega (arith, missing-le-length {B = SmStatus} dict.services [])) known

  pub collect-eq-ok :
      (dict : SmDictionary) (with_deps : Bool) (name : String) (resp : SmStatusResponse)
      → (collect m dict with_deps name w).0 ≡ ok resp
      → ((run dict with_deps name).0 ≡ ok tt) × (resp.services ≡ (run dict with_deps name).1.result)
  unfolding collect
  collect-eq-ok dict with_deps name resp e = elim (Result-cases (run dict with_deps name).0) [
    | inl (x, stops) ↦ absurd (ground arith)
    | inr (t, works) ↦ (ground arith, ground arith)
  ]

  pub collect-eq-err :
      (dict : SmDictionary) (with_deps : Bool) (name : String) (x : Stop)
      → (collect m dict with_deps name w).0 ≡ err x
      → (run dict with_deps name).0 ≡ err x
  unfolding collect
  collect-eq-err dict with_deps name x e = ground arith
