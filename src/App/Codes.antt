-- ===== src/App/Codes.antt =====
-- The status codes of the main API, and that its handlers answer.
pub mod Answered
use mathlib.Core.Path.{subst}
use drnavigator.Common.{
  String, ◌≡◌, ◌≢◌, ◌⊎◌, some, Result, ok, err, arith, ◌==◌, ◌||◌, ◌+++◌, inl, inr, eq_iff,
  Bool-cases, Result-cases, refl, sym,
}
use drnavigator.Common.Action.{Action, outcome_cases}
use drnavigator.Model.{
  SmError, SmDictionary, SmRequest, SmProcedureResponse, error_status_code, procedure_status_code,
  procedure_list, procedure_status, procedure_active, procedure_standby, procedure_disable,
}
use drnavigator.Manager.{
  CrManager, get_all_services, get_services_list, get_service_status, process_service,
}
use drnavigator.Manager.Collect.{Stop, failed, nil_dereference, out_of_fuel}
use drnavigator.Manager.Status.{IsReady, get_all_services-ne-Stop}
use drnavigator.Manager.Status.Branches.{get_service_status_stops}
use drnavigator.Manager.Process.{
  process_service_stops, process_service-error_status_code, get_all_services-error_status_code,
  get_service_status-error_status_code,
}
use drnavigator.App.{
  Response, response_code, answer, respond, dispatch, process_request, get_services,
  procedure_answer, json, dictionary, error_body, http_error, all_procedures,
}
use drnavigator.App.Codes.Answered.{
  IsProcedure, dec_IsProcedure, CannotList, dispatch-IsAnswered, not_IsProcedure,
}

module _ {W : Type 0} (m : CrManager W) (w : W) where
  -- The dictionary of the services is returned with the code 200, or what kept it from being listed
  -- with the code 500.
  pub get_services-answer :
      IsReady m
      → ((d : SmDictionary) × ((get_all_services m w).0 ≡ ok d)
          × ((get_services m w).0 ≡ ok (json 200 (dictionary d))))
        ⊎ ((e : SmError) × ((get_all_services m w).0 ≡ err (failed e))
            × ((get_services m w).0 ≡ ok (json 500 (error_body e))))
  unfolding get_services answer respond
  get_services-answer ready =
      let (fuelled, safe) = get_all_services-ne-Stop m w ready in
      elim (Result-cases (get_all_services m w).0) [
        | inl (failed e, fails) ↦
            let code = get_all_services-error_status_code m w e fails in
            inr (e, fails, ground arith)
        | inl (nil_dereference, fails) ↦ absurd (safe fails)
        | inl (out_of_fuel, fails) ↦ absurd (fuelled fails)
        | inr (d, works) ↦ inl (d, works, ground arith)
      ]

  -- The body cannot be read, or names a procedure while the services cannot be listed.
  abbrev pub Fails : (String → Result String SmRequest) → Result String String → Type 0
  Fails decode body =
      ((e : String) × (body ≡ err e))
      ⊎ ((bytes : String) × (req : SmRequest) × (body ≡ ok bytes)
          × (decode bytes ≡ ok req)
          × IsProcedure req.procedure
          × CannotList m w)

  -- A manager that is ready answers every request. The code is 500 exactly when the body cannot be
  -- read, or names a procedure while the services cannot be listed; otherwise it is 200 or 400.
  pub process_request-code :
      (decode : String → Result String SmRequest) (body : Result String String)
      → IsReady m
      → (r : Response) × ((process_request m decode body w).0 ≡ ok r)
        × ((Fails decode body × (response_code r ≡ 500))
            ⊎ ((¬ Fails decode body) × ((response_code r ≡ 200) ⊎ (response_code r ≡ 400))))
  unfolding process_request response_code
  process_request-code decode (err e) ready = (_, refl, inl (inl (e, refl), refl))
  process_request-code decode (ok bytes) ready = elim (Result-cases (decode bytes)) [
    | inl (e, bad) ↦ (
      http_error 400 (some "No valid JSON data was received"),
      ground arith,
      inr (
        λ h. elim h [
          | inl (e', unread) ↦ absurd (ground arith)
          | inr (bytes', req, same, good, p, cannot) ↦ absurd (ground arith)
        ],
        inr refl,
      ),
    )
    | inr (req, good) ↦ elim (dec_IsProcedure req.procedure) [
      | inl p ↦
          let (r, answered, code) = dispatch-IsAnswered m w req ready p in
          (
            r,
            ground arith,
            elim code [
              | inl (cannot, c) ↦ inl (inr (bytes, req, refl, good, p, cannot), c)
              | inr ((d, works), c) ↦ inr (
                λ h. elim h [
                  | inl (e', unread) ↦ absurd (ground arith)
                  | inr (bytes', req', same, good', p', cannot) ↦
                      let (e, fails) = cannot in absurd (ground arith)
                ],
                c,
              )
            ],
          )
      | inr wrong ↦
          let refused = not_IsProcedure m w req wrong in
          (
            http_error 400 (some ("You should define procedure from list: " +++ all_procedures)),
            ground arith,
            inr (
              λ h. elim h [
                | inl (e', unread) ↦ absurd (ground arith)
                | inr (bytes', req', same, good', p', cannot) ↦
                    let same_req : req' ≡ req = ground arith in
                    wrong (subst (λ (q : SmRequest). IsProcedure q.procedure) same_req p')
              ],
              inr refl,
            ),
          )
    ]
  ]
