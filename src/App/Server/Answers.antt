-- ===== src/App/Server/Answers.antt =====
-- Every endpoint answers.
use drnavigator.Common.{
  String, Bool, true, false, ◌≡◌, refl, ap, Option, none, some, Result, ok, arith, inl, inr,
  Result-cases, Bool-cases,
}
use drnavigator.Config.{Config}
use drnavigator.Model.{SmRequest}
use drnavigator.Manager.{CrManager}
use drnavigator.Manager.Collect.{Stop}
use drnavigator.Manager.Status.{IsReady}
use drnavigator.App.{Response, KeyAuth, other, auth_error, guarded, get_services, process_request}
use drnavigator.App.Auth.{IsKeyAuth}
use drnavigator.App.Codes.{get_services-answer, process_request-code}
use drnavigator.App.Server.{Endpoint, root, swagger, health_check, services, process, Call, handle}

module _ {W : Type 0} where
  -- A handler returns a response in every state.
  abbrev pub Replies : (W → Result Stop Response × W) → Type 0
  Replies handler = (w : W) → (r : Response) × ((handler w).0 ≡ ok r)

  module _ (key_auth : KeyAuth W) (law : IsKeyAuth key_auth) (env : Config)
      (validate : String → W → Result String Bool × W) where
    key_auth-Replies :
        (handler : W → Result Stop Response × W) (key : Option String)
        → Replies handler
        → Replies (key_auth.run validate auth_error handler key)
    key_auth-Replies handler none replies w =
        let run = law.without validate auth_error handler w in (_, ap (λ p. p.0) run)
    key_auth-Replies handler (some k) replies w =
        let run = law.with_key validate auth_error handler k w in
        elim (Result-cases (validate k w).0) [
          | inl (e, fails) ↦ (auth_error (other e), ground arith)
          | inr (true, works) ↦ let (r, e) = replies (validate k w).1 in (r, ground arith)
          | inr (false, works) ↦ (auth_error (other "invalid key"), ground arith)
        ]

    -- The authorisation adds answers of its own, and no other end.
    guarded-Replies :
        (handler : W → Result Stop Response × W) (key : Option String)
        → Replies handler
        → Replies (guarded key_auth env validate handler key)
    unfolding guarded
    guarded-Replies handler key replies w = elim (Bool-cases env.front_http_auth) [
      | inr off ↦ let (r, e) = replies w in (r, ground arith)
      | inl on ↦ let (r, e) = key_auth-Replies handler key replies w in (r, ground arith)
    ]

    module _ (decode : String → Result String SmRequest)
        (swagger_page : W → Result Stop Response × W) (m : CrManager W) where
      -- A manager that is ready lets every endpoint answer every request, if the pages of Swagger
      -- do.
      pub handle-Replies :
          IsReady m
          → Replies swagger_page
          → (endpoint : Endpoint) (call : Call)
          → Replies (handle key_auth env validate decode swagger_page m endpoint call)
      unfolding handle
      handle-Replies ready pages root call w = (_, refl)
      handle-Replies ready pages swagger call w = pages w
      handle-Replies ready pages health_check call w = (_, refl)
      handle-Replies ready pages services call w =
          guarded-Replies (get_services m) call.key
            (λ v. elim (get_services-answer m v ready) [
              | inl (d, listed, answered) ↦ (_, answered)
              | inr (e, fails, answered) ↦ (_, answered)
            ])
            w
      handle-Replies ready pages process call w =
          guarded-Replies (process_request m decode call.body) call.key
            (λ v.
              let (r, answered, code) = process_request-code m v decode call.body ready in
              (r, answered))
            w
