-- ===== src/Tests/AppRuns.antt =====
-- The main API and the token.
use drnavigator.Common.{
  ℕ, String, true, false, ◌≡◌, ◌↔◌, ◌⊎◌, refl, Option, none, some, [], ◌∷◌, ◌++◌, Result, ok, inl,
}
use drnavigator.Config.{Config, default_config}
use drnavigator.Model.{
  SmConfig, SmRequest, SmError, SmStatus, SmStatusResponse, SmObject, procedure_status,
  procedure_active,
}
use drnavigator.Common.Dict.{get, has}
use drnavigator.Manager.{get_all_services, request_status}
use drnavigator.Manager.Collect.Reached.{Reach}
use drnavigator.Manager.Collect.Failure.{Cause}
use drnavigator.Manager.Collect.{Stop, unknown_service}
use drnavigator.Manager.Status.{IsReady}
use drnavigator.Token.{
  Event, event, watch_error, Review, TokenWatcher, read_token, handle_event, start, validate_token,
  auth_user,
}
use drnavigator.Token.Rotation.{TakesUp, start-TakesUp}
use drnavigator.Token.Validate.{validate_token_iff}
use drnavigator.App.{
  Response, http_error, json, statuses, error_body, response_code, process_request, root_get,
  all_procedures,
}
use drnavigator.App.Codes.{Fails, process_request-code}
use drnavigator.App.Procedures.{missing_error, Outcome, process_request-Outcome}
use drnavigator.App.Statuses.{IsDescribed, process_request-Reach}
use drnavigator.App.Auth.{IsAccepted, protected, guarded-IsAccepted}
use drnavigator.Tests.Fixtures.{manager, two_services, outside, key_auth, key_auth-IsKeyAuth}

test_all_procedures : all_procedures ≡ "[list status active standby disable]"
unfolding all_procedures
test_all_procedures = refl

ready : IsReady manager
ready = inl (λ e. cc)

abbrev decode : String → Result String SmRequest
decode s = ok (record { procedure = "list"; service = none; with_deps = false; no_wait = false })

process_request-code_example :
    (r : Response) × ((process_request manager decode (ok "{}") 0).0 ≡ ok r)
    × ((Fails manager 0 decode (ok "{}") × (response_code r ≡ 500))
        ⊎ ((¬ Fails manager 0 decode (ok "{}"))
            × ((response_code r ≡ 200) ⊎ (response_code r ≡ 400))))
process_request-code_example = process_request-code manager 0 decode (ok "{}") ready

abbrev live : SmConfig
live = record { testing = record { enabled = false; token = ""; sm_dict = two_services } }

abbrev watcher : TokenWatcher ℕ
watcher = record { current_token = ""; world = 0 }

abbrev written : Event
written = record { name = "/token"; has_remove = false; has_create = false; has_write = true }

first_read : (read_token outside default_config live "/token" watcher).0 ≡ ok tt
unfolding read_token
first_read = refl

handled : (handle_event outside default_config live "/token" written watcher).0 ≡ ok tt
unfolding handle_event read_token
handled = refl

validate_token_iff_example :
    ((validate_token outside default_config live "/token" "x" 0).0 ≡ ok true) ↔ (
      (r : Review) × ((outside.review "x" 0).0 ≡ ok r)
      × (r.authenticated ≡ true)
      × (r.username ≡ auth_user outside default_config live "/token"))
validate_token_iff_example = validate_token_iff outside default_config live "/token" "x" 0 refl

abbrev front : Config
front = record default_config { front_http_auth = true }

abbrev handler : ℕ → Result Stop Response × ℕ
handler w = (ok root_get, w)

abbrev key : Option String
key = some "x"

guarded-IsAccepted_example :
    ((key ≡ none)
      × (protected key_auth key_auth-IsKeyAuth outside front live "/token" handler key 0
          ≡ (ok (http_error 401 (some "You should use Bearer for authorization")), 0)))
    ⊎ ((k : String) × (key ≡ some k)
        × IsAccepted key_auth key_auth-IsKeyAuth outside front live "/token" handler k 0
        × (protected key_auth key_auth-IsKeyAuth outside front live "/token" handler key 0
            ≡ handler (outside.review k 0).1))
    ⊎ ((k : String) × (r : Response) × (key ≡ some k)
        × (¬ IsAccepted key_auth key_auth-IsKeyAuth outside front live "/token" handler k 0)
        × (protected key_auth key_auth-IsKeyAuth outside front live "/token" handler key 0
            ≡ (ok r, (outside.review k 0).1))
        × ((response_code r ≡ 403) ⊎ (response_code r ≡ 500)))
guarded-IsAccepted_example =
    guarded-IsAccepted key_auth key_auth-IsKeyAuth outside front live "/token" handler key 0 refl
      refl

-- The file is written twice; then an error of the watcher arrives.
start-TakesUp_example : TakesUp outside default_config live "/token" (
    start outside default_config live "/token"
      ((event written ∷ []) ++ (event written ∷ watch_error "overflow" ∷ []))
      watcher)
start-TakesUp_example =
    start-TakesUp outside default_config live "/token" (event written ∷ []) written
      (watch_error "overflow" ∷ []) watcher refl tt

abbrev status_request : String → Result String SmRequest
status_request s =
    ok (record {
      procedure = procedure_status;
      service = some "a";
      with_deps = true;
      no_wait = false;
    })

listed_two : get_all_services manager 0 ≡ (ok two_services, 0)
unfolding get_all_services
listed_two = refl

process_request-Reach_example :
    ((resp : SmStatusResponse) × ((process_request manager status_request (ok "{}") 0).0
        ≡ ok (json 200 (statuses resp)))
      × ((v : String) → (has resp.services v ≡ true) ↔ Reach two_services "a" v)
      × ((v : String) (st : SmStatus)
          → get resp.services v ≡ some st
          → IsDescribed manager 0 listed_two v st))
    ⊎ ((e : SmError) × ((process_request manager status_request (ok "{}") 0).0
          ≡ ok (json 400 (error_body e)))
        × (((get two_services.services "a" ≡ none) × (e ≡ unknown_service "a"))
            ⊎ Cause (request_status manager) two_services "a" e))
process_request-Reach_example =
    process_request-Reach manager 0 listed_two status_request "{}" "a" false ready refl

abbrev switch_request : String → Result String SmRequest
switch_request s = ok (record {
  procedure = procedure_active;
  service = some "b";
  with_deps = false;
  no_wait = false;
})

process_request-Outcome_example :
    ((get two_services.services "b" ≡ none)
      × (process_request manager switch_request (ok "{}") 0
          ≡ (ok (json 400 (error_body (missing_error "b"))), 0)))
    ⊎ ((obj : SmObject) × (get two_services.services "b" ≡ some obj)
        × (response : Response) × (w2 : ℕ) × (process_request manager switch_request (ok "{}") 0
            ≡ (ok response, w2))
        × Outcome manager 0 listed_two obj "b" procedure_active false response w2)
process_request-Outcome_example =
    process_request-Outcome manager 0 listed_two (λ req u silent. cc) switch_request "{}" "b"
      procedure_active false false (inl refl) refl
