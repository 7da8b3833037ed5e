-- ===== src/Manager/Process.antt =====
-- What starting a procedure of a service returns, and the status codes of errors.
pub mod Contacts
use drnavigator.Common.{
  ℕ, suc, ◌⊎◌, String, Bool, ◌≡◌, ◌≢◌, ◌↔◌, Option, none, some, ok, err, arith, inl, inr,
}
use drnavigator.Common.Dict.{get}
use drnavigator.Model.{
  SmError, SmObject, SmDictionary, SmProcedureResponse, ServiceProcessRequest,
  ServiceProcessResponse, error_status_code, procedure_status_code,
}
use drnavigator.Http.{Request, Reply, post_request, do_post_request}
use drnavigator.Http.Retry.{IsLast, world_after}
use drnavigator.Http.Replies.{do_post_request-world_after, IsDecoded, do_post_request-IsDecoded}
use drnavigator.Manager.{
  CrManager, get_all_services, get_service_status, process_service, request_status,
}
use drnavigator.Manager.Collect.{failed, nil_dereference, out_of_fuel, get_service_object}
use drnavigator.Manager.Status.Branches.{get_service_status_undefined}
use drnavigator.Manager.Status.Dependencies.{get_service_status-Cause}
use drnavigator.Manager.Status.{IsReady, get_all_services-ne-Stop}

module _ {W : Type 0} (m : CrManager W) (w : W) where
  -- Listing the services fails with the status code 500 only.
  pub get_all_services-error_status_code :
      (e : SmError) → (get_all_services m w).0 ≡ err (failed e) → error_status_code e ≡ 500
  unfolding get_all_services error_status_code
  get_all_services-error_status_code e fails = ground arith

  -- Starting a procedure with a manager that is ready returns a response or an error: no nil is
  -- dereferenced.
  pub process_service_stops :
      (service : Option String) (procedure : String) (no_wait : Bool)
      → IsReady m
      → ((process_service m service procedure no_wait w).0 ≢ err out_of_fuel)
        × ((process_service m service procedure no_wait w).0 ≢ err nil_dereference)
  unfolding process_service get_service_object
  process_service_stops service procedure no_wait ready =
      let (fuelled, safe) = get_all_services-ne-Stop m w ready in (ground arith, ground arith)

  module _ {dict : SmDictionary} {w1 : W} (listed : get_all_services m w ≡ (ok dict, w1)) where
    -- Once the services are listed, an error of starting a procedure has the status code 400.
    pub process_service-error_status_code :
        (service : Option String) (procedure : String) (no_wait : Bool) (e : SmError)
        → (process_service m service procedure no_wait w).0 ≡ err (failed e)
        → error_status_code e ≡ 400
    unfolding process_service get_service_object error_status_code
    process_service-error_status_code service procedure no_wait e fails = ground arith

    request_status-error_status_code :
        (obj : SmObject) (u : W) (e : SmError)
        → (request_status m obj u).0.error ≡ some e
        → error_status_code e ≡ 400
    unfolding request_status error_status_code
    request_status-error_status_code obj u e fails = ground arith

    -- Once the services are listed, an error of asking for a status has the status code 400.
    pub get_service_status-error_status_code :
        (service : Option String) (with_deps : Bool) (e : SmError)
        → (get_service_status m service with_deps w).0 ≡ err (failed e)
        → error_status_code e ≡ 400
    unfolding error_status_code
    get_service_status-error_status_code none with_deps e fails =
        let refused = get_service_status_undefined m w listed with_deps in ground arith
    get_service_status-error_status_code (some name) with_deps e fails =
        elim (get_service_status-Cause m w listed name with_deps e fails) [
          | inl (unknown, same) ↦ rw same
          | inr (inl (u, v, r, d, gone, same)) ↦ rw same
          | inr (inr (u, obj, z, r, found, wrong)) ↦ request_status-error_status_code obj z e wrong
        ]

    -- The request that a procedure sends to its service.
    abbrev pub sent : SmObject → String → Bool → Reply ServiceProcessResponse × W
    sent obj procedure no_wait =
        do_post_request m.post_http_client m.decode_process m.encode_process
          obj.parameters.service_endpoint (record { mode = procedure; no_wait = no_wait })
          (m.get_token w1) m.env.back_http_auth 3 (record { mode = ""; status = "" }) w1

    -- The service answered the request with a code in [200, 300) and a body that decodes.
    abbrev pub IsAnswered : SmObject → String → Bool → Type 0
    IsAnswered obj procedure no_wait =
        (bytes : String) × (m.encode_process (record { mode = procedure; no_wait = no_wait })
          ≡ ok bytes)
        × (m.post_http_client.check_url obj.parameters.service_endpoint ≡ none)
        × IsDecoded m.post_http_client m.decode_process
            (post_request obj.parameters.service_endpoint bytes (m.get_token w1)
              m.env.back_http_auth)
            3 (record { mode = ""; status = "" }) w1 (sent obj procedure no_wait).0

    -- What the request does outside: nothing if it cannot be made, else the calls of `Do` up to the first
    -- without an error, and three at most.
    abbrev pub IsSent : SmObject → String → Bool → W → Type 0
    IsSent obj procedure no_wait w2 =
        let url = obj.parameters.service_endpoint in
        let mode : ServiceProcessRequest = record { mode = procedure; no_wait = no_wait } in
        ((w2 ≡ w1)
          × (((bytes : String) → m.encode_process mode ≢ ok bytes)
              ⊎ (m.post_http_client.check_url url ≢ none)))
        ⊎ ((bytes : String) × (k : ℕ) × (m.encode_process mode ≡ ok bytes)
            × (m.post_http_client.check_url url ≡ none)
            × IsLast m.post_http_client
                (post_request url bytes (m.get_token w1) m.env.back_http_auth) 3 k w1
            × (w2
                ≡ world_after m.post_http_client
                    (post_request url bytes (m.get_token w1) m.env.back_http_auth) (suc k) w1))

    pub sent-IsSent :
        (obj : SmObject) (procedure : String) (no_wait : Bool)
        → IsSent obj procedure no_wait (sent obj procedure no_wait).1
    sent-IsSent obj procedure no_wait =
        do_post_request-world_after m.post_http_client m.decode_process m.encode_process _ _ _ _ 2 _
          w1

    module _
        (answers : (req : Request) (u : W)
          → (m.post_http_client.do_request req u).0.error ≡ none
          → (m.post_http_client.do_request req u).0.response ≢ none) where
      pub sent-IsAnswered :
          (obj : SmObject) (procedure : String) (no_wait : Bool)
          → ((sent obj procedure no_wait).0.error ≡ none) ↔ IsAnswered obj procedure no_wait
      sent-IsAnswered obj procedure no_wait =
          do_post_request-IsDecoded m.post_http_client m.decode_process answers m.encode_process _ _
            _ _ 2 _ w1

      -- Once the services are listed: if a procedure of a service returns a response, the service was
      -- asked with that mode and answered with a code in [200, 300) and a body that decodes; and the
      -- status code of the response is 200 exactly when that of the answer was. A client whose `Do`
      -- returns a response or an error is supposed.
      pub process_service-IsAnswered :
          (name procedure : String) (no_wait : Bool) (obj : SmObject) (resp : SmProcedureResponse)
          → get dict.services name ≡ some obj
          → (process_service m (some name) procedure no_wait w).0 ≡ ok resp
          → IsAnswered obj procedure no_wait
            × ((procedure_status_code resp ≡ 200) ↔ ((sent obj procedure no_wait).0.code ≡ 200))
      unfolding process_service get_service_object procedure_status_code
      process_service-IsAnswered name procedure no_wait obj resp found done =
          ((sent-IsAnswered obj procedure no_wait).0 (ground arith), ground arith)
