-- ===== src/Token/Validate.antt =====
-- Which callers' tokens are accepted.
use drnavigator.Common.{
  String, true, ◌≡◌, ◌↔◌, ok, arith, eq_iff, false, Result-cases, Bool-cases, inl, inr,
}
use drnavigator.Token.{Outside, Review, auth_user, validate_token}
use drnavigator.Config.{Config}
use drnavigator.Model.{SmConfig}

module _ {W : Type 0} (out : Outside W) (env : Config) (sm_config : SmConfig)
    (token_path : String) where
  -- Outside of the testing mode a token is accepted exactly when the review of it succeeds, says that
  -- it is authentic, and names the user of the service account in the namespace of the pod.
  pub validate_token_iff :
      (token : String) (w : W)
      → sm_config.testing.enabled ≡ false
      → ((validate_token out env sm_config token_path token w).0 ≡ ok true) ↔ (
          (r : Review) × ((out.review token w).0 ≡ ok r)
          × (r.authenticated ≡ true)
          × (r.username ≡ auth_user out env sm_config token_path))
  unfolding validate_token
  validate_token_iff token w live = elim (Result-cases (out.review token w).0) [
    | inl (e, fails) ↦
        (λ h. absurd (ground arith), λ (r, same, authentic, named). absurd (ground arith))
    | inr (r, works) ↦ (
      λ h. (
        r,
        works,
        ground (arith, eq_iff (auth_user out env sm_config token_path) r.username),
        ground (arith, eq_iff (auth_user out env sm_config token_path) r.username),
      ),
      λ (r', same, authentic, named).
          ground (arith, eq_iff (auth_user out env sm_config token_path) r.username),
    )
  ]

  -- A review is all that a validation does outside.
  pub validate_token-Keeps :
      (P : W → Type 0) (key : String)
      → ((w : W) → P w → P (out.review key w).1)
      → (w : W) → P w
      → P (validate_token out env sm_config token_path key w).1
  unfolding validate_token
  validate_token-Keeps P key keeps w h = elim (Bool-cases sm_config.testing.enabled) [
    | inl on ↦ rw (on, validate_token) h
    | inr off ↦ elim (Result-cases (out.review key w).0) [
      | inl (e, fails) ↦ rw (off, validate_token, fails) (keeps w h)
      | inr (r, works) ↦ elim (Bool-cases r.authenticated) [
        | inl good ↦ rw (off, validate_token, works, good) (keeps w h)
        | inr bad ↦ rw (off, validate_token, works, bad) (keeps w h)
      ]
    ]
  ]
