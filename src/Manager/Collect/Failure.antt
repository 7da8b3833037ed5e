-- ===== src/Manager/Collect/Failure.antt =====
-- Why a recursion that starts from a service of the dictionary fails.
use drnavigator.Common.{
  ℕ, zero, suc, String, Bool, ◌≡◌, ◌≢◌, refl, false, none, some, List, [], ◌∷◌, err, arith, inl,
  inr, items, ◌⊎◌, Memᴰ,
}
use drnavigator.Common.Action.{Action, ◌>>◌, then_cases}
use drnavigator.Common.Dict.{get}
use drnavigator.Model.{SmError, SmObject, SmDictionary}
use drnavigator.Manager.Collect.Reached.{DependsOn, Reach, here, step}
use drnavigator.Manager.Collect.Cases.{visit_new_cases, visit_cases}
use drnavigator.Manager.Collect.{
  Stop, failed, Progress, Fetch, Visit, follow, visit_new, visit, visit_all, blame,
  collect_services_statuses,
}

-- The error for the dependency `v` of `u` that is not in the dictionary.
abbrev pub dependency_error : String → String → SmError
dependency_error v u = record {
  message = "Dependency defined in CR doesn't exist";
  service = some v;
  problem_cr = some u;
  is_internal_server_error = false;
}

module _ {W : Type 0} (request : SmObject → W → Fetch × W) (dict : SmDictionary)
    (root : String) where
  -- The error names a dependency of a reached service that does not exist, or it is the error of a
  -- request to a reached service.
  abbrev pub Cause : SmError → Type 0
  Cause e =
      ((u : String) × (v : String) × Reach dict root u
        × DependsOn dict u v
        × (get dict.services v ≡ none)
        × (e ≡ dependency_error v u))
      ⊎ ((u : String) × (obj : SmObject) × (w : W) × Reach dict root u
          × (get dict.services u ≡ some obj)
          × ((request obj w).0.error ≡ some e))

  abbrev Blames : Action (Progress W) Stop (Unit {0}) → Type 0
  Blames m = (s : Progress W) (e : SmError) → (m s).0 ≡ err (failed e) → Cause e

  Blames-then : (m n : Action (Progress W) Stop (Unit {0})) → Blames m → Blames n → Blames (m >> n)
  Blames-then m n hm hn s e fails = elim (then_cases m n s) [
    | inl (a, works, same) ↦ hn (m s).1 e (rw same at fails)
    | inr (x, stops, same) ↦ hm s e (cc)
  ]

  module _ (with_deps : Bool) where
    module _ (again : Visit W)
        (blames : (l : List String) (p : String)
          → Reach dict root p
          → ((x : String) → Memᴰ x l → DependsOn dict p x)
          → Blames (again l (some p))) where
      follow-Blames :
          (service : String) (obj : SmObject)
          → Reach dict root service
          → get dict.services service ≡ some obj
          → Blames (follow request dict with_deps again service obj)
      unfolding follow
      follow-Blames service obj r known =
          Blames-then (again (items obj.after) (some service))
            (again (items obj.before) (some service))
            (blames _ service r (λ x m. (obj, known, inl m)))
            (blames _ service r (λ x m. (obj, known, inr m)))

      visit_new-Blames :
          (service : String) (obj : SmObject)
          → Reach dict root service
          → get dict.services service ≡ some obj
          → Blames (visit_new request dict with_deps again service obj)
      visit_new-Blames service obj r known s e fails =
          elim (visit_new_cases request dict with_deps again service s obj) [
            | inl (x, stops, same) ↦ inr (service, obj, s.world, r, known, ground arith)
            | inr (inl (works, deep, same)) ↦
                follow-Blames service obj r known _ e (rw same at fails)
            | inr (inr (works, flat, same)) ↦ cc
          ]

      visit-Blames :
          (p x : String)
          → Reach dict root p
          → DependsOn dict p x
          → Blames (visit request dict with_deps again (some p) x)
      unfolding blame
      visit-Blames p x r d s e fails =
          elim (visit_cases request dict with_deps again x s (some p)) [
            | inl (unknown, same) ↦ inl (p, x, r, d, unknown, ground arith)
            | inr (inl (obj, known, old, seen, same)) ↦ cc
            | inr (inr (obj, known, new, same)) ↦
                visit_new-Blames x obj (step r d) known s e (rw same at fails)
          ]

      visit_all-Blames :
          (l : List String) (p : String)
          → Reach dict root p
          → ((x : String) → Memᴰ x l → DependsOn dict p x)
          → Blames (visit_all request dict with_deps again l (some p))
      unfolding visit_all
      visit_all-Blames [] p r d s e fails = cc
      visit_all-Blames (x ∷ xs) p r d s e fails =
          Blames-then (visit request dict with_deps again (some p) x)
            (visit_all request dict with_deps again xs (some p))
            (visit-Blames p x r (d x (Memᴰ.head refl)))
            (visit_all-Blames xs p r (λ y m. d y (Memᴰ.tail m))) s e fails

    collect-Blames :
        (fuel : ℕ) (l : List String) (p : String)
        → Reach dict root p
        → ((x : String) → Memᴰ x l → DependsOn dict p x)
        → Blames (collect_services_statuses request dict with_deps fuel l (some p))
    unfolding collect_services_statuses
    collect-Blames zero l p r d s e fails = cc
    collect-Blames (suc fuel) l p r d s e fails =
        visit_all-Blames (collect_services_statuses request dict with_deps fuel)
          (collect-Blames fuel) l p r d s e fails

    -- The first call, for the one service that was asked for.
    pub collect-Cause :
        (fuel : ℕ) (s : Progress W) (e : SmError)
        → get dict.services root ≢ none
        → (collect_services_statuses request dict with_deps fuel (root ∷ []) none s).0
          ≡ err (failed e)
        → Cause e
    unfolding collect_services_statuses visit_all
    collect-Cause zero s e known fails = cc
    collect-Cause (suc fuel) s e known fails =
        Blames-then
          (visit request dict with_deps (collect_services_statuses request dict with_deps fuel) none
            root)
          (visit_all request dict with_deps (collect_services_statuses request dict with_deps fuel)
            [] none)
          (λ t x stops.
            elim (visit_cases request dict with_deps
              (collect_services_statuses request dict with_deps fuel) root t none) [
                | inl (unknown, same) ↦ absurd (known unknown)
                | inr (inl (obj, found, old, seen, same)) ↦ cc
                | inr (inr (obj, found, new, same)) ↦
                    visit_new-Blames (collect_services_statuses request dict with_deps fuel)
                      (collect-Blames fuel) root obj here found t x (rw same at stops)
              ])
          (λ t x stops. cc) s e fails
