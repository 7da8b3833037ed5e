-- ===== src/App/Statuses.antt =====
-- A request for a status with dependencies, from the body of the HTTP request to its response.
use drnavigator.Common.{
  String, Bool, true, ◌≡◌, ◌⊎◌, ◌↔◌, refl, none, some, Result, ok, arith, inl, inr, Result-cases,
}
use drnavigator.Common.Dict.{get, has}
use drnavigator.Model.{
  SmError, SmDictionary, SmRequest, SmStatusResponse, SmObject, SmStatus, procedure_status,
}
use drnavigator.Manager.{CrManager, get_all_services, get_service_status, request_status}
use drnavigator.Manager.Collect.{failed, nil_dereference, out_of_fuel, unknown_service, deps_of}
use drnavigator.Manager.Collect.Failure.{Cause}
use drnavigator.Manager.Collect.Reached.{Reach}
use drnavigator.Manager.Status.{IsReady}
use drnavigator.Manager.Status.Branches.{get_service_status_stops}
use drnavigator.Manager.Status.Dependencies.{
  get_service_status-Reach, get_service_status_described, get_service_status-Cause,
}
use drnavigator.Manager.Process.{get_service_status-error_status_code}
use drnavigator.App.{process_request, dispatch, answer, respond, json, statuses, error_body}

module _ {W : Type 0} (m : CrManager W) (w : W) {dict : SmDictionary} {w1 : W}
    (listed : get_all_services m w ≡ (ok dict, w1)) where
  dispatch-status :
      (name : String) (no_wait : Bool)
      → (dispatch m
          (record {
            procedure = procedure_status;
            service = some name;
            with_deps = true;
            no_wait = no_wait;
          })
          w).0
        ≡ respond m (λ r. json 200 (statuses r)) (get_service_status m (some name) true w).0
  unfolding dispatch answer
  dispatch-status name no_wait = refl

  -- The status carries the lists of its service, which is in the dictionary.
  abbrev pub IsDescribed : String → SmStatus → Type 0
  IsDescribed v st =
      (obj : SmObject) × (get dict.services v ≡ some obj) × (st.deps ≡ some (deps_of obj))

  -- Once the services are listed, a request for the status of a service with its dependencies is
  -- answered by a manager that is ready in one of two ways. With 200 come the statuses of exactly the
  -- services that a chain of `after` and `before` dependencies reaches from it, each with its two
  -- lists. With 400 comes an error: the service is not in
  -- the dictionary, or one that is reached has a dependency that is not, or the request to one that
  -- is reached failed.
  pub process_request-Reach :
      (decode : String → Result String SmRequest) (bytes name : String) (no_wait : Bool)
      → IsReady m
      → decode bytes
        ≡ ok (record {
          procedure = procedure_status;
          service = some name;
          with_deps = true;
          no_wait = no_wait;
        })
      → ((resp : SmStatusResponse) × ((process_request m decode (ok bytes) w).0
            ≡ ok (json 200 (statuses resp)))
          × ((v : String) → (has resp.services v ≡ true) ↔ Reach dict name v)
          × ((v : String) (st : SmStatus) → get resp.services v ≡ some st → IsDescribed v st))
        ⊎ ((e : SmError) × ((process_request m decode (ok bytes) w).0
              ≡ ok (json 400 (error_body e)))
            × (((get dict.services name ≡ none) × (e ≡ unknown_service name))
                ⊎ Cause (request_status m) dict name e))
  unfolding process_request respond
  process_request-Reach decode bytes name no_wait ready good =
      let (fuelled, safe) = get_service_status_stops m w (some name) true ready in
      let handled = dispatch-status name no_wait in
      elim (Result-cases (get_service_status m (some name) true w).0) [
        | inr (resp, works) ↦ inl (
          resp,
          ground arith,
          λ v. get_service_status-Reach m w listed name resp v works,
          λ v st found. get_service_status_described m w listed name resp v st works found,
        )
        | inl (nil_dereference, stops) ↦ absurd (safe stops)
        | inl (out_of_fuel, stops) ↦ absurd (fuelled stops)
        | inl (failed e, fails) ↦
            let code = get_service_status-error_status_code m w listed (some name) true e fails in
            inr (e, ground arith, get_service_status-Cause m w listed name true e fails)
      ]
