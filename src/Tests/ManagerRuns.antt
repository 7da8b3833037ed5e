-- ===== src/Tests/ManagerRuns.antt =====
-- The manager at work.
use mathlib.Core.Path.{subst}
use drnavigator.Common.{
  ap, ◌==◌, ℕ, suc, ◌≤◌, ◌+◌, ◌*◌, length, if◌then◌else◌, String, Bool, true, false, ◌≡◌, ◌≢◌, ◌↔◌,
  ◌⊎◌, refl, Option, none, some, List, [], ◌∷◌, Result, ok, err, inl, inr, elem, items, Memᴰ, arith,
}
use drnavigator.Common.Dict.{get, has}
use drnavigator.Model.{SmError, SmObject, SmStatus, SmStatusResponse, SmProcedureResponse}
use drnavigator.Manager.{
  get_all_services, get_service_status, process_service, request_status, get_services_list,
}
use drnavigator.Manager.Status.{IsReady}
use drnavigator.Manager.Status.Dependencies.{
  get_service_status-Reach, get_service_status-Cause, get_service_status_complete,
}
use drnavigator.Manager.Status.Requests.{get_service_status-sent}
use drnavigator.Manager.Status.Branches.{get_service_status_stops}
use drnavigator.Manager.Status.Contacts.{AgreeOnAllowed, with_client, get_service_status-IsAllowed}
use drnavigator.Manager.Process.Contacts.{
  IsProcedureOf, with_post_client, process_service-IsProcedureOf,
}
use drnavigator.Http.{Request, HttpClient}
use drnavigator.Manager.Collect.Reached.{Reach, here, step, DependsOn}
use drnavigator.Manager.Collect.Failure.{Cause}
use drnavigator.Manager.Collect.{
  failed, unknown_service, deps_of, out_of_fuel, nil_dereference, get_service_object,
}
use drnavigator.Tests.Fixtures.{manager, two_services, service, broken_manager, one_service}

abbrev status_of : List String → SmStatus
status_of after = record {
  mode = "active";
  status = "done";
  health = "up";
  message = "";
  deps = some (record { after = some after; before = some [] });
}

abbrev both : SmStatusResponse
both = record { services = ("a", status_of ("b" ∷ [])) ∷ ("b", status_of []) ∷ [] }

listed : get_all_services manager 0 ≡ (ok two_services, 0)
unfolding get_all_services
listed = refl

asked : (get_service_status manager (some "a") true 0).0 ≡ ok both
unfolding get_service_status get_all_services get_service_object get
    drnavigator.Manager.Collect.collect_services_statuses request_status
    drnavigator.Http.do_get_request drnavigator.Http.conclude drnavigator.Http.attempts
    drnavigator.Common.Dict.insert
asked = refl

-- Four requests: two for each service.
four_requests : (get_service_status manager (some "a") true 0).1 ≡ 4
unfolding get_service_status get_all_services get_service_object get
    drnavigator.Manager.Collect.collect_services_statuses request_status
    drnavigator.Http.do_get_request drnavigator.Http.conclude drnavigator.Http.attempts
    drnavigator.Common.Dict.insert
four_requests = refl

reaches_b : Reach two_services "a" "b"
unfolding get
reaches_b = step here (service "a" ("b" ∷ []), refl, inl (Memᴰ.head refl))

get_service_status-Reach_example : (has both.services "b" ≡ true) ↔ Reach two_services "a" "b"
get_service_status-Reach_example = get_service_status-Reach manager 0 listed "a" both "b" asked

b_found : get both.services "b" ≡ some (status_of [])
unfolding get
b_found = refl

-- In this dictionary the service depends on one that does not exist.
listed_one : get_all_services broken_manager 0 ≡ (ok one_service, 0)
unfolding get_all_services
listed_one = refl

abbrev no_dependency : SmError
no_dependency = record {
  message = "Dependency defined in CR doesn't exist";
  service = some "b";
  problem_cr = some "a";
  is_internal_server_error = false;
}

asked_one : (get_service_status broken_manager (some "a") true 0).0 ≡ err (failed no_dependency)
unfolding get_service_status get_all_services get_service_object get
    drnavigator.Manager.Collect.collect_services_statuses request_status
    drnavigator.Http.do_get_request drnavigator.Http.conclude drnavigator.Http.attempts
asked_one = refl

get_service_status-Cause_example :
    ((get one_service.services "a" ≡ none) × (no_dependency ≡ unknown_service "a"))
    ⊎ Cause (request_status broken_manager) one_service "a" no_dependency
get_service_status-Cause_example =
    get_service_status-Cause broken_manager 0 listed_one "a" true no_dependency asked_one

-- The service "b" depends on nothing.
nothing_after_b : (v : String) → ¬ DependsOn two_services "b" v
unfolding get
nothing_after_b v (obj, found, listed_in) =
    let same : obj ≡ service "b" [] = ground arith in
    elim (subst (λ (o : SmObject). Memᴰ v (items o.after) ⊎ Memᴰ v (items o.before)) same
      listed_in) [ inl m ↦ elim m [ ] | inr m ↦ elim m [ ] ]

only_b : (v : String) → Reach two_services "b" v → v ≡ "b"
only_b v here = refl
only_b v (step {u = u} r d) =
    absurd (nothing_after_b v (subst (λ (x : String). DependsOn two_services x v) (only_b u r) d))

no_failure : (obj : SmObject) (u : ℕ) → (request_status manager obj u).0.error ≡ none
unfolding request_status drnavigator.Http.do_get_request drnavigator.Http.conclude
    drnavigator.Http.attempts
no_failure obj u = refl

b_known : get two_services.services "b" ≢ none
unfolding get
b_known e = cc

get_service_status_complete_example :
    (resp : SmStatusResponse) × ((get_service_status manager (some "b") true 0).0 ≡ ok resp)
get_service_status_complete_example =
    get_service_status_complete manager 0 listed "b" true
      (λ v r e. b_known (subst (λ (y : String). get two_services.services y ≡ none) (only_b v r) e))
      (λ v obj u r found. no_failure obj u)

ready : IsReady manager
ready = inl (λ e. cc)

get_service_status_stops_example :
    ((get_service_status manager (some "b") true 0).0 ≢ err out_of_fuel)
    × ((get_service_status manager (some "b") true 0).0 ≢ err nil_dereference)
get_service_status_stops_example = get_service_status_stops manager 0 (some "b") true ready

abbrev started : SmProcedureResponse
started = record {
  message = "Procedure active is started";
  service = "b";
  procedure = "active";
  is_failed = false;
}

b_started : (process_service manager (some "b") "active" false 0).0 ≡ ok started
unfolding process_service get_all_services get_service_object get drnavigator.Http.do_post_request
    drnavigator.Http.send drnavigator.Http.conclude drnavigator.Http.attempts
b_started = refl

b_object : get two_services.services "b" ≡ some (service "b" [])
unfolding get
b_object = refl

names : (get_services_list manager 0).0 ≡ ok (record { services = "a" ∷ "b" ∷ [] })
unfolding get_services_list get_all_services drnavigator.Common.Dict.keys
names = refl

-- The state of the network counts the requests.
get_service_status-sent_example :
    (get_service_status manager (some "a") true 0).1
    ≤ 0 + 6 * (if true then length two_services.services else 1)
get_service_status-sent_example =
    get_service_status-sent manager (λ w. w) (λ req w. omega arith) 0 listed (some "a") true

-- A network that answers to one method only.
abbrev only : String → HttpClient ℕ
only method = record {
  check_url = λ url. none;
  do_request = λ req w. (
    if req.method == method
        then record { response = some (record { status_code = 200; body = ok "{}" }); error = none }
        else record { response = none; error = some "refused" },
    suc w,
  );
}

get_is_enough : AgreeOnAllowed manager two_services (only "GET")
get_is_enough = (
  λ url. refl,
  λ req w (name, obj, now, known, given). elim given [
    | inl e ↦ rw (ap (λ (r : Request). r.method) e) refl
    | inr e ↦ rw (ap (λ (r : Request). r.method) e) refl
  ],
)

get_service_status-IsAllowed_example :
    get_service_status manager (some "a") true 0
    ≡ get_service_status (with_client manager two_services (only "GET")) (some "a") true 0
get_service_status-IsAllowed_example =
    get_service_status-IsAllowed manager 0 listed (only "GET") get_is_enough (some "a") true

post_is_enough :
    (name : String) (req : Request) (u : ℕ)
    → Path (Option String) (some "a") (some name)
    → IsProcedureOf manager 0 listed name "active" true req
    → manager.post_http_client.do_request req u ≡ (only "POST").do_request req u
post_is_enough name req u same (obj, body, known, encoded, e) =
    rw (ap (λ (r : Request). r.method) e) refl

process_service-IsProcedureOf_example :
    process_service manager (some "a") "active" true 0
    ≡ process_service (with_post_client manager 0 listed (only "POST")) (some "a") "active" true 0
process_service-IsProcedureOf_example =
    process_service-IsProcedureOf manager 0 listed (only "POST") (some "a") "active" true
      (λ url. refl) post_is_enough
