-- ===== src/App/Codes/Answered.antt =====
-- The procedures that a request can name, and that the handler of each answers.
use mathlib.Core.Path.{subst}
use drnavigator.Common.{
  String, ◌≡◌, ◌≢◌, ◌⊎◌, some, Result, ok, err, arith, ◌==◌, ◌||◌, ◌+++◌, inl, inr, eq_iff,
  Bool-cases, Result-cases, refl, sym,
}
use drnavigator.Common.Action.{Action, outcome_cases}
use drnavigator.Model.{
  SmError, SmDictionary, SmRequest, SmProcedureResponse, error_status_code, procedure_status_code,
  procedure_list, procedure_status, procedure_active, procedure_standby, procedure_disable,
}
use drnavigator.Manager.{
  CrManager, get_all_services, get_services_list, get_service_status, process_service,
}
use drnavigator.Manager.Collect.{Stop, failed, nil_dereference, out_of_fuel}
use drnavigator.Manager.Status.{IsReady, get_all_services-ne-Stop}
use drnavigator.Manager.Status.Branches.{get_service_status_stops}
use drnavigator.Manager.Process.{
  process_service_stops, process_service-error_status_code, get_all_services-error_status_code,
  get_service_status-error_status_code,
}
use drnavigator.App.{
  Response, response_code, answer, respond, dispatch, procedure_answer, json, error_body,
  http_error, all_procedures,
}

procedure-code :
    (r : SmProcedureResponse)
    → (response_code (procedure_answer r) ≡ 200) ⊎ (response_code (procedure_answer r) ≡ 400)
unfolding response_code procedure_answer procedure_status_code
procedure-code r = elim (Bool-cases r.is_failed) [
  | inl bad ↦ inr (ground arith)
  | inr fine ↦ inl (ground arith)
]

-- The procedures that a request can name.
abbrev pub IsProcedure : String → Type 0
IsProcedure p =
    (p ≡ procedure_list)
    ⊎ (p ≡ procedure_status)
    ⊎ (p ≡ procedure_active)
    ⊎ (p ≡ procedure_standby)
    ⊎ (p ≡ procedure_disable)

pub dec_IsProcedure : (p : String) → IsProcedure p ⊎ (¬ IsProcedure p)
dec_IsProcedure p =
    let given =
      p == procedure_list
      || p == procedure_status
      || p == procedure_active
      || p == procedure_standby
      || p == procedure_disable in
    elim (Bool-cases given) [
      | inl given_one ↦ inl (
          ground (
            arith,
            eq_iff p procedure_list,
            eq_iff p procedure_status,
            eq_iff p procedure_active,
            eq_iff p procedure_standby,
            eq_iff p procedure_disable,
          ))
      | inr none_of ↦ inr (λ h. ground (
        arith,
        eq_iff p procedure_list,
        eq_iff p procedure_status,
        eq_iff p procedure_active,
        eq_iff p procedure_standby,
        eq_iff p procedure_disable,
      ))
    ]

module _ {W : Type 0} (m : CrManager W) (w : W) where
  -- The services cannot be listed.
  abbrev pub CannotList : Type 0
  CannotList = (e : SmError) × ((get_all_services m w).0 ≡ err (failed e))

  -- A handler answered, with the code 500 if the services cannot be listed, and else with 200 or
  -- 400.
  abbrev pub IsAnswered : Result Stop Response × W → Type 0
  IsAnswered p =
      (r : Response) × (p.0 ≡ ok r)
      × ((CannotList × (response_code r ≡ 500))
          ⊎ (((d : SmDictionary) × ((get_all_services m w).0 ≡ ok d))
              × ((response_code r ≡ 200) ⊎ (response_code r ≡ 400))))

  -- What a call of the manager owes to its handler: it returns, with the error of the listing if that
  -- fails, and otherwise with no error but of the code 400.
  Sound : {A : Type 0} → Action W Stop A → Type 0
  Sound call =
      ((call w).0 ≢ err out_of_fuel)
      × ((call w).0 ≢ err nil_dereference)
      × ((e : SmError) → (get_all_services m w).0 ≡ err (failed e) → (call w).0 ≡ err (failed e))
      × ((d : SmDictionary) (w1 : W) (e : SmError)
          → get_all_services m w ≡ (ok d, w1)
          → (call w).0 ≡ err (failed e)
          → error_status_code e ≡ 400)

  answer-IsAnswered :
      {A : Type 0} (good : A → Response) (call : Action W Stop A)
      → IsReady m
      → ((a : A) → (response_code (good a) ≡ 200) ⊎ (response_code (good a) ≡ 400))
      → Sound call
      → IsAnswered (answer m good call w)
  unfolding answer respond response_code Sound
  answer-IsAnswered good call ready codes (fuelled, safe, passes, later) =
      let (fuelled', safe') = get_all_services-ne-Stop m w ready in
      elim (outcome_cases (get_all_services m w)) [
        | inr (failed e, w1, fails) ↦
            let bad = passes e (ground arith) in
            let code = get_all_services-error_status_code m w e (ground arith) in
            (json (error_status_code e) (error_body e), ground arith, inl ((e, ground arith), code))
        | inr (nil_dereference, w1, fails) ↦ absurd (ground arith)
        | inr (out_of_fuel, w1, fails) ↦ absurd (ground arith)
        | inl (d, w1, works) ↦ elim (Result-cases (call w).0) [
          | inl (failed e, bad) ↦ (
            json (error_status_code e) (error_body e),
            ground arith,
            inr ((d, ground arith), inr (later d w1 e works bad)),
          )
          | inl (nil_dereference, bad) ↦ absurd (safe bad)
          | inl (out_of_fuel, bad) ↦ absurd (fuelled bad)
          | inr (a, good_end) ↦ (good a, ground arith, inr ((d, ground arith), codes a))
        ]
      ]

  list-Sound : IsReady m → Sound (get_services_list m)
  unfolding Sound get_services_list
  list-Sound ready =
      let (fuelled, safe) = get_all_services-ne-Stop m w ready in
      (
        ground arith,
        ground arith,
        λ e fails. ground arith,
        λ d w1 e works bad. absurd (ground arith),
      )

  status-Sound :
      (req : SmRequest) → IsReady m → Sound (get_service_status m req.service req.with_deps)
  unfolding Sound get_service_status
  status-Sound req ready =
      let (fuelled, safe) = get_service_status_stops m w req.service req.with_deps ready in
      (
        fuelled,
        safe,
        λ e fails. ground arith,
        λ d w1 e works bad.
            get_service_status-error_status_code m w works req.service req.with_deps e bad,
      )

  process-Sound :
      (req : SmRequest)
      → IsReady m
      → Sound (process_service m req.service req.procedure req.no_wait)
  unfolding Sound process_service
  process-Sound req ready =
      let (fuelled, safe) = process_service_stops m w req.service req.procedure req.no_wait ready in
      (
        fuelled,
        safe,
        λ e fails. ground arith,
        λ d w1 e works bad.
            process_service-error_status_code m w works req.service req.procedure req.no_wait e bad,
      )

  process-IsAnswered :
      (req : SmRequest)
      → IsReady m
      → dispatch m req w
        ≡ answer m procedure_answer (process_service m req.service req.procedure req.no_wait) w
      → IsAnswered (dispatch m req w)
  process-IsAnswered req ready same =
      subst IsAnswered (sym same)
        (answer-IsAnswered procedure_answer _ ready procedure-code (process-Sound req ready))

  pub dispatch-IsAnswered :
      (req : SmRequest) → IsReady m → IsProcedure req.procedure → IsAnswered (dispatch m req w)
  unfolding dispatch response_code
  dispatch-IsAnswered req ready (inl p) =
      rw (p) (answer-IsAnswered _ _ ready (λ a. inl refl) (list-Sound ready))
  dispatch-IsAnswered req ready (inr (inl p)) =
      rw (p) (answer-IsAnswered _ _ ready (λ a. inl refl) (status-Sound req ready))
  dispatch-IsAnswered req ready (inr (inr (inl p))) = process-IsAnswered req ready (rw p refl)
  dispatch-IsAnswered req ready (inr (inr (inr (inl p)))) = process-IsAnswered req ready (rw p refl)
  dispatch-IsAnswered req ready (inr (inr (inr (inr p)))) = process-IsAnswered req ready (rw p refl)

  pub not_IsProcedure :
      (req : SmRequest)
      → ¬ IsProcedure req.procedure
      → ((dispatch m req w).0
          ≡ ok (
              http_error 400 (some ("You should define procedure from list: " +++ all_procedures))))
  unfolding dispatch
  not_IsProcedure req wrong = ground (
    arith,
    eq_iff req.procedure procedure_list,
    eq_iff req.procedure procedure_status,
    eq_iff req.procedure procedure_active,
    eq_iff req.procedure procedure_standby,
    eq_iff req.procedure procedure_disable,
  )
