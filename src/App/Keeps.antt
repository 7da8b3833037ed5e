-- ===== src/App/Keeps.antt =====
-- What the handlers of the main API keep of the state: whatever the manager keeps.
use drnavigator.Common.{
  String, Bool, true, false, Option, none, some, Result, ok, err, inl, inr, Bool-cases,
  Result-cases, ◌==◌,
}
use drnavigator.Common.Action.{Action}
use drnavigator.Config.{Config}
use drnavigator.Model.{
  SmRequest, procedure_list, procedure_status, procedure_active, procedure_standby,
  procedure_disable,
}
use drnavigator.Manager.{CrManager, get_all_services}
use drnavigator.Manager.Collect.{Stop}
use drnavigator.Manager.Keeps.{
  Keeps, ClientsKeep, get_all_services-Keeps, get_services_list-Keeps, get_service_status-Keeps,
  process_service-Keeps,
}
use drnavigator.App.{
  Response, json, dictionary, KeyAuth, auth_error, answer, get_services, dispatch, process_request,
  guarded,
}
use drnavigator.App.Auth.{IsKeyAuth}
use drnavigator.App.Server.{Endpoint, root, swagger, health_check, services, process, Call, handle}

module _ {W : Type 0} (P : W → Type 0) (m : CrManager W) (clients : ClientsKeep P m) where
  answer-Keeps :
      {A : Type 0} (good : A → Response) (call : Action W Stop A)
      → Keeps P call
      → Keeps P (answer m good call)
  unfolding answer
  answer-Keeps good call keeps w h = keeps w h

  get_services-Keeps : Keeps P (get_services m)
  unfolding get_services
  get_services-Keeps =
      answer-Keeps (λ d. json 200 (dictionary d)) (get_all_services m)
        (get_all_services-Keeps P m clients)

  dispatch-Keeps : (req : SmRequest) → Keeps P (dispatch m req)
  unfolding dispatch
  dispatch-Keeps req w h =
      let process = process_service-Keeps P m clients req.service req.procedure req.no_wait w h in
      elim (Bool-cases (req.procedure == procedure_list)) [
        | inl a ↦ rw (a, dispatch, answer) (get_services_list-Keeps P m clients w h)
        | inr a ↦ elim (Bool-cases (req.procedure == procedure_status)) [
          | inl b ↦
              rw (a, dispatch, b, answer)
                (get_service_status-Keeps P m clients req.service req.with_deps w h)
          | inr b ↦ elim (Bool-cases (req.procedure == procedure_active)) [
            | inl c ↦ rw (a, dispatch, b, c, answer) process
            | inr c ↦ elim (Bool-cases (req.procedure == procedure_standby)) [
              | inl d ↦ rw (a, dispatch, b, c, d, answer) process
              | inr d ↦ elim (Bool-cases (req.procedure == procedure_disable)) [
                | inl e ↦ rw (a, dispatch, b, c, d, e, answer) process
                | inr e ↦ rw (a, dispatch, b, c, d, e) h
              ]
            ]
          ]
        ]
      ]

  process_request-Keeps :
      (decode : String → Result String SmRequest) (body : Result String String)
      → Keeps P (process_request m decode body)
  unfolding process_request
  process_request-Keeps decode (err e) w h = h
  process_request-Keeps decode (ok bytes) w h = elim (Result-cases (decode bytes)) [
    | inl (e, fails) ↦ rw (fails, process_request) h
    | inr (req, works) ↦ rw (works, process_request) (dispatch-Keeps req w h)
  ]

module _ {W : Type 0} (P : W → Type 0) (key_auth : KeyAuth W) (law : IsKeyAuth key_auth)
    (env : Config) (validate : String → W → Result String Bool × W)
    (reviews : (key : String) → Keeps P (validate key)) where
  key_auth-Keeps :
      (handler : W → Result Stop Response × W) (key : Option String)
      → Keeps P handler
      → Keeps P (key_auth.run validate auth_error handler key)
  key_auth-Keeps handler none keeps w h = rw (law.without validate auth_error handler w) h
  key_auth-Keeps handler (some k) keeps w h =
      let after = reviews k w h in
      elim (Result-cases (validate k w).0) [
        | inl (e, fails) ↦ rw (law.with_key validate auth_error handler k w, fails) after
        | inr (true, works) ↦
            rw (law.with_key validate auth_error handler k w, works) (keeps (validate k w).1 after)
        | inr (false, works) ↦ rw (law.with_key validate auth_error handler k w, works) after
      ]

  guarded-Keeps :
      (handler : W → Result Stop Response × W) (key : Option String)
      → Keeps P handler
      → Keeps P (guarded key_auth env validate handler key)
  unfolding guarded
  guarded-Keeps handler key keeps w h = elim (Bool-cases env.front_http_auth) [
    | inr off ↦ rw (off, guarded) (keeps w h)
    | inl on ↦ rw (on, guarded) (key_auth-Keeps handler key keeps w h)
  ]

  pub handle-Keeps :
      (decode : String → Result String SmRequest) (swagger_page : W → Result Stop Response × W)
      (m : CrManager W)
      → ClientsKeep P m
      → Keeps P swagger_page
      → (endpoint : Endpoint) (call : Call)
      → Keeps P (handle key_auth env validate decode swagger_page m endpoint call)
  unfolding handle
  handle-Keeps decode swagger_page m clients pages root call w h = h
  handle-Keeps decode swagger_page m clients pages swagger call w h = pages w h
  handle-Keeps decode swagger_page m clients pages health_check call w h = h
  handle-Keeps decode swagger_page m clients pages services call w h =
      guarded-Keeps (get_services m) call.key (get_services-Keeps P m clients) w h
  handle-Keeps decode swagger_page m clients pages process call w h =
      guarded-Keeps (process_request m decode call.body) call.key
        (process_request-Keeps P m clients decode call.body) w h
