-- ===== src/Manager/Convert/Defaults.antt =====
-- The defaults of a service.
use text.Mathlib.TextEquality.{starts_with_iff}
use text.Mathlib.TextPositions.{starts_with_of_prefix}
use text.Mathlib.TextLemmas.{append_assoc}
use drnavigator.Common.{
  sym, ap, ◌∙◌, String, true, ◌≡◌, ◌≢◌, ◌⊎◌, none, [], arith, ◌+++◌, starts_with, items, eq_iff,
}
use drnavigator.Config.{Config}
use drnavigator.Model.{SmObject}
use drnavigator.Manager.Convert.{apply_http_scheme, apply_defaults}

-- An endpoint that a request can be sent to, or none.
abbrev pub HasScheme : String → Type 0
HasScheme e = (e ≡ "") ⊎ (starts_with e "http://" ≡ true) ⊎ (starts_with e "https://" ≡ true)

-- What the other components may rely on in a service of the dictionary.
pub record IsComplete (obj : SmObject) : Type 0 where
  pub after : obj.after ≢ none
  pub before : obj.before ≢ none
  pub module_name : obj.module_name ≢ ""
  pub sequence : items obj.sequence ≢ []
  pub allowed : items obj.allowed_standby_state_list ≢ []
  pub service : HasScheme obj.parameters.service_endpoint
  pub healthz : HasScheme obj.parameters.healthz_endpoint

-- The scheme is that of http or https; more may follow it.
abbrev pub IsHttpScheme : String → Type 0
IsHttpScheme s = (starts_with s "http://" ≡ true) ⊎ (starts_with s "https://" ≡ true)

starts_with-append : (s t p : String) → starts_with s p ≡ true → starts_with (s +++ t) p ≡ true
starts_with-append s t p h =
    let (u, e) = (starts_with_iff s p).0 h in
    starts_with_of_prefix p (s +++ t)
      (u +++ t, sym (append_assoc p u t) ∙ ap (λ (x : String). x +++ t) e)

stateful-ne-empty : ◌≢◌ {A = String} "stateful" ""
stateful-ne-empty = ground (arith, eq_iff "stateful" "")

module _ (env : Config) where
  apply_http_scheme-HasScheme :
      (e : String) → IsHttpScheme env.http_scheme → HasScheme (apply_http_scheme env e)
  unfolding apply_http_scheme
  apply_http_scheme-HasScheme e scheme = ground (
    arith,
    eq_iff e "",
    starts_with-append env.http_scheme e "http://",
    starts_with-append env.http_scheme e "https://",
  )

  apply_http_scheme_of_HasScheme : (e : String) → HasScheme e → apply_http_scheme env e ≡ e
  unfolding apply_http_scheme
  apply_http_scheme_of_HasScheme e h = ground (arith, eq_iff e "")

  -- With a configured scheme of http or https, the defaults complete every service.
  pub apply_defaults-IsComplete :
      (obj : SmObject) → IsHttpScheme env.http_scheme → IsComplete (apply_defaults env obj)
  unfolding apply_defaults
  apply_defaults-IsComplete obj scheme = record {
    after = ground arith;
    before = ground arith;
    module_name = ground (arith, eq_iff obj.module_name "", stateful-ne-empty);
    sequence = ground arith;
    allowed = ground arith;
    service = apply_http_scheme-HasScheme obj.parameters.service_endpoint scheme;
    healthz = apply_http_scheme-HasScheme obj.parameters.healthz_endpoint scheme;
  }

  -- The defaults change nothing in a service that is complete.
  pub apply_defaults_of_IsComplete :
      (obj : SmObject) → IsComplete obj → apply_defaults env obj ≡ obj
  unfolding apply_defaults
  apply_defaults_of_IsComplete obj h = ground (
    arith,
    eq_iff obj.module_name "",
    apply_http_scheme_of_HasScheme obj.parameters.service_endpoint h.service,
    apply_http_scheme_of_HasScheme obj.parameters.healthz_endpoint h.healthz,
  )
