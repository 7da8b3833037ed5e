-- ===== src/App/Auth.antt =====
-- Who passes the authorisation of the main API.
use drnavigator.Common.{
  String, Bool, true, false, ◌≡◌, ◌⊎◌, Option, none, some, Result, ok, err, ◌==◌, arith, inl, inr,
  Bool-cases, Result-cases, refl,
}
use drnavigator.Config.{Config}
use drnavigator.Model.{SmConfig}
use drnavigator.Token.{Outside, Review, auth_user, validate_token}
use drnavigator.Token.Validate.{validate_token_iff}
use drnavigator.Manager.Collect.{Stop}
use drnavigator.App.{
  Response, KeyAuth, KeyError, missing, other, http_error, auth_error, guarded, response_code,
}

-- What Echo documents of its authorisation by key, for a request with one key at most: without a key
-- the error handler gets `missing`; an error of the validator goes to the error handler, a refused key
-- goes there as "invalid key", and the handler runs for an accepted one.
pub record IsKeyAuth {W : Type 0} (key_auth : KeyAuth W) : Type 0 where
  pub without :
      (validate : String → W → Result String Bool × W) (refuse : KeyError → Response)
      (handler : W → Result Stop Response × W) (w : W)
      → key_auth.run validate refuse handler none w ≡ (ok (refuse missing), w)
  pub with_key :
      (validate : String → W → Result String Bool × W) (refuse : KeyError → Response)
      (handler : W → Result Stop Response × W) (key : String) (w : W)
      → key_auth.run validate refuse handler (some key) w ≡ (
          let (answer, w1) = validate key w in
          elim answer [
            | err e ↦ (ok (refuse (other e)), w1)
            | ok good ↦ elim good [
              | true ↦ handler w1
              | false ↦ (ok (refuse (other "invalid key")), w1)
            ]
          ])

module _ {W : Type 0} (key_auth : KeyAuth W) (law : IsKeyAuth key_auth) (out : Outside W)
    (env : Config) (sm_config : SmConfig) (token_path : String)
    (handler : W → Result Stop Response × W) where
  -- The review of a key says that it is of the service account of the site manager.
  abbrev pub IsAccepted : String → W → Type 0
  IsAccepted key w =
      (r : Review) × ((out.review key w).0 ≡ ok r)
      × (r.authenticated ≡ true)
      × (r.username ≡ auth_user out env sm_config token_path)

  abbrev pub protected : Option String → W → Result Stop Response × W
  protected = guarded key_auth env (validate_token out env sm_config token_path) handler

  abbrev validate : String → W → Result String Bool × W
  validate = validate_token out env sm_config token_path

  auth_error-code :
      (e : String)
      → (response_code (auth_error (other e)) ≡ 403) ⊎ (response_code (auth_error (other e)) ≡ 500)
  unfolding auth_error response_code
  auth_error-code e = elim (Bool-cases (e == "invalid key")) [
    | inl refused ↦ inl (rw refused refl)
    | inr failed ↦ inr (rw failed refl)
  ]

  validate-world :
      (k : String) (w : W)
      → sm_config.testing.enabled ≡ false
      → (validate k w).1 ≡ (out.review k w).1
  unfolding validate_token
  validate-world k w live = ground arith

  Refused : String → W → Type 0
  Refused k w =
      (r : Response) × (¬ IsAccepted k w)
      × (protected (some k) w ≡ (ok r, (out.review k w).1))
      × ((response_code r ≡ 403) ⊎ (response_code r ≡ 500))

  key_cases :
      (k : String) (w : W)
      → env.front_http_auth ≡ true
      → sm_config.testing.enabled ≡ false
      → (IsAccepted k w × (protected (some k) w ≡ handler (out.review k w).1)) ⊎ Refused k w
  unfolding guarded Refused
  key_cases k w front live =
      let (accepts, accepted) = validate_token_iff out env sm_config token_path k w live in
      let end = validate-world k w live in
      let run = law.with_key validate auth_error handler k w in
      elim (Result-cases (validate k w).0) [
        | inl (e, fails) ↦ inr (
          auth_error (other e),
          λ h. (let yes_too = accepted h in absurd (ground arith)),
          ground arith,
          auth_error-code e,
        )
        | inr (true, works) ↦ inl (accepts works, ground arith)
        | inr (false, works) ↦ inr (
          auth_error (other "invalid key"),
          λ h. (let yes_too = accepted h in absurd (ground arith)),
          ground arith,
          auth_error-code "invalid key",
        )
      ]

  -- With the authorisation on and the testing mode off, a handler runs exactly for the keys that are
  -- accepted, after the review; a request without a key is answered with 401, and any other with
  -- 403 or 500, and then the handler does not run.
  pub guarded-IsAccepted :
      (key : Option String) (w : W)
      → env.front_http_auth ≡ true
      → sm_config.testing.enabled ≡ false
      → ((key ≡ none)
          × (protected key w
              ≡ (ok (http_error 401 (some "You should use Bearer for authorization")), w)))
        ⊎ ((k : String) × (key ≡ some k)
            × IsAccepted k w
            × (protected key w ≡ handler (out.review k w).1))
        ⊎ ((k : String) × (r : Response) × (key ≡ some k)
            × (¬ IsAccepted k w)
            × (protected key w ≡ (ok r, (out.review k w).1))
            × ((response_code r ≡ 403) ⊎ (response_code r ≡ 500)))
  unfolding guarded auth_error Refused
  guarded-IsAccepted none w front live =
      let refused =
        law.without (validate_token out env sm_config token_path) auth_error handler w in
      inl (refl, ground arith)
  guarded-IsAccepted (some k) w front live = elim (key_cases k w front live) [
    | inl (accepted, runs) ↦ inr (inl (k, refl, accepted, runs))
    | inr (r, wrong, answered, code) ↦ inr (inr (k, r, refl, wrong, answered, code))
  ]
