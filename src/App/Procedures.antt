-- ===== src/App/Procedures.antt =====
-- A request for a procedure that switches a service, from the body of the HTTP request to its
-- response.
use drnavigator.Common.{
  String, Bool, false, ◌≡◌, ◌≢◌, ◌⊎◌, refl, none, some, Result, ok, arith, inl, inr, ◌+++◌,
  Option-cases, Bool-cases,
}
use drnavigator.Common.Num.{◌==◌ as nat_eq}
use drnavigator.Common.Dict.{get}
use drnavigator.Model.{
  SmError, SmDictionary, SmRequest, SmProcedureResponse, SmObject, procedure_active,
  procedure_standby, procedure_disable, procedure_status_code, error_status_code,
}
use drnavigator.Http.{Request}
use drnavigator.Manager.{
  CrManager, get_all_services, process_service, start_procedure, procedure_response,
}
use drnavigator.Manager.Process.{sent, IsSent, sent-IsSent, IsAnswered, sent-IsAnswered}
use drnavigator.Manager.Process.Contacts.{process_unknown, process_known}
use drnavigator.App.{
  Response, process_request, dispatch, answer, respond, procedure_answer, json, procedure,
  error_body,
}

abbrev pub IsSwitch : String → Type 0
IsSwitch p = (p ≡ procedure_active) ⊎ (p ≡ procedure_standby) ⊎ (p ≡ procedure_disable)

-- The error for a request to a service that failed.
abbrev pub processing_error : String → String → SmError
processing_error name e = record {
  message = "Processing service error: " +++ e;
  service = some name;
  problem_cr = none;
  is_internal_server_error = false;
}

-- The error for a service that is not in the dictionary.
abbrev pub missing_error : String → SmError
missing_error name = record {
  message = "Service doesn't exist";
  service = some name;
  problem_cr = none;
  is_internal_server_error = false;
}

module _ {W : Type 0} (m : CrManager W) (w : W) {dict : SmDictionary} {w1 : W}
    (listed : get_all_services m w ≡ (ok dict, w1)) where
  dispatch-switch :
      (name p : String) (deps no_wait : Bool)
      → IsSwitch p
      → dispatch m
          (record { procedure = p; service = some name; with_deps = deps; no_wait = no_wait })
          w
        ≡ answer m procedure_answer (process_service m (some name) p no_wait) w
  unfolding dispatch
  dispatch-switch name p deps no_wait (inl same) = rw same refl
  dispatch-switch name p deps no_wait (inr (inl same)) = rw same refl
  dispatch-switch name p deps no_wait (inr (inr same)) = rw same refl

  -- What a procedure returns and does once its service is known, by the reply of the service.
  abbrev pub Outcome : SmObject → String → String → Bool → Response → W → Type 0
  Outcome obj name p no_wait response w2 =
      let (reply, after) = sent m w listed obj p no_wait in
      (w2 ≡ after)
      × IsSent m w listed obj p no_wait w2
      × (((e : String) × (reply.error ≡ some e)
            × (¬ IsAnswered m w listed obj p no_wait)
            × (response ≡ json 400 (error_body (processing_error name e))))
          ⊎ (IsAnswered m w listed obj p no_wait
              × (resp : SmProcedureResponse) × (resp.service ≡ name)
              × (resp.procedure ≡ p)
              × (((reply.code ≡ 200)
                    × (resp.message ≡ "Procedure " +++ p +++ " is started")
                    × (response ≡ json 200 (procedure resp)))
                  ⊎ ((reply.code ≢ 200)
                      × (resp.message ≡ "Procedure " +++ p +++ " failed")
                      × (response ≡ json 400 (procedure resp))))))

  module _
      (answers : (req : Request) (u : W)
        → (m.post_http_client.do_request req u).0.error ≡ none
        → (m.post_http_client.do_request req u).0.response ≢ none) where
    start_procedure-Outcome :
        (obj : SmObject) (name p : String) (no_wait : Bool)
        → (response : Response) × (w2 : W) × (answer m procedure_answer
              (start_procedure m obj name p no_wait)
              w1
            ≡ (ok response, w2))
          × Outcome obj name p no_wait response w2
    unfolding start_procedure procedure_response answer respond procedure_answer error_status_code
        procedure_status_code
    start_procedure-Outcome obj name p no_wait =
        let reply = (sent m w listed obj p no_wait).0 in
        let after = (sent m w listed obj p no_wait).1 in
        let gone = sent-IsSent m w listed obj p no_wait in
        let said = sent-IsAnswered m w listed answers obj p no_wait in
        elim (Option-cases reply.error) [
          | inr (e, fails) ↦ (
            json 400 (error_body (processing_error name e)),
            after,
            rw (fails, start_procedure) refl,
            (
              refl,
              gone,
              inl (e, fails, λ answered. absurd (let fine = said.1 answered in ground arith), refl),
            ),
          )
          | inl fine ↦ elim (Bool-cases (nat_eq reply.code 200)) [
            | inl good ↦ (
              json 200 (procedure (procedure_response m p name 200)),
              after,
              rw (fine, start_procedure, good) refl,
              (
                refl,
                gone,
                inr (
                  said.0 fine,
                  procedure_response m p name 200,
                  refl,
                  refl,
                  inl (ground arith, refl, refl),
                ),
              ),
            )
            | inr bad ↦ (
              json 400 (procedure (procedure_response m p name 0)),
              after,
              rw (fine, start_procedure, bad) refl,
              (
                refl,
                gone,
                inr (
                  said.0 fine,
                  procedure_response m p name 0,
                  refl,
                  refl,
                  inr (ground arith, refl, refl),
                ),
              ),
            )
          ]
        ]

    -- Once the services are listed, a request to switch a service (the procedures active, standby and
    -- disable) is answered in one of four ways. With 400 and "Service doesn't exist" if the service is
    -- not in the dictionary; then nothing is sent. Otherwise the service is sent one request for that
    -- mode, and nothing else is done: `Do` is called up to its first success, three times at most, and
    -- not at all if the request cannot be made. If the last of those calls had a response with
    -- a code in [200, 300) and a body that decodes, the answer is 200 and says that the procedure is
    -- started exactly if that code was 200; it is 400 and says that the procedure failed if it was
    -- another. If it had none, or the request could not be made, the answer is 400 with the error of
    -- the request. A client whose `Do` returns a response or an error is supposed.
    pub process_request-Outcome :
        (decode : String → Result String SmRequest) (bytes name p : String) (deps no_wait : Bool)
        → IsSwitch p
        → decode bytes
          ≡ ok (record { procedure = p; service = some name; with_deps = deps; no_wait = no_wait })
        → ((get dict.services name ≡ none)
            × (process_request m decode (ok bytes) w
                ≡ (ok (json 400 (error_body (missing_error name))), w1)))
          ⊎ ((obj : SmObject) × (get dict.services name ≡ some obj)
              × (response : Response) × (w2 : W) × (process_request m decode (ok bytes) w
                  ≡ (ok response, w2))
              × Outcome obj name p no_wait response w2)
    unfolding process_request answer respond error_status_code
    process_request-Outcome decode bytes name p deps no_wait switch good =
        let handled = dispatch-switch name p deps no_wait switch in
        elim (Option-cases (get dict.services name)) [
          | inl unknown ↦
              let refused = process_unknown m w listed p no_wait name unknown in
              inl (unknown, ground arith)
          | inr (obj, found) ↦
              let known = process_known m w listed p no_wait name obj found in
              let (response, w2, ends, outcome) = start_procedure-Outcome obj name p no_wait in
              inr (obj, found, response, w2, ground arith, outcome)
        ]
