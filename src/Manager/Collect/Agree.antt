-- ===== src/Manager/Collect/Agree.antt =====
-- Which services the recursion asks: what a request does for an object that is not in the dictionary
-- makes no difference.
use drnavigator.Common.{
  ℕ, zero, suc, String, Bool, ◌≡◌, refl, ◌∙◌, Option, some, List, [], ◌∷◌, arith, inl, inr,
}
use drnavigator.Common.Action.{◌>>◌}
use drnavigator.Common.Dict.{get}
use drnavigator.Model.{SmObject, SmDictionary}
use drnavigator.Manager.Collect.Cases.{visit_cases}
use drnavigator.Manager.Collect.{
  Progress, Fetch, Visit, follow, visit_new, visit, visit_all, collect_services_statuses,
}

module _ {W : Type 0} (request request' : SmObject → W → Fetch × W) (dict : SmDictionary) where
  -- The two requests do the same for the objects of the dictionary.
  abbrev pub AgreeOnDict : Type 0
  AgreeOnDict =
      (name : String) (obj : SmObject) (w : W)
      → get dict.services name ≡ some obj
      → request obj w ≡ request' obj w

  module _ (with_deps : Bool) (agree : AgreeOnDict) where
    visit_new-agree :
        (again : Visit W) (service : String) (obj : SmObject) (s : Progress W)
        → get dict.services service ≡ some obj
        → visit_new request dict with_deps again service obj s
          ≡ visit_new request' dict with_deps again service obj s
    unfolding visit_new follow
    visit_new-agree again service obj s known =
        let same = agree service obj s.world known in ground arith

    visit-agree :
        (again : Visit W) (parent : Option String) (service : String) (s : Progress W)
        → visit request dict with_deps again parent service s
          ≡ visit request' dict with_deps again parent service s
    unfolding visit
    visit-agree again parent service s =
        elim (visit_cases request dict with_deps again service s parent) [
          | inl (unknown, e) ↦ ground arith
          | inr (inl (obj, known, old, seen, e)) ↦ ground arith
          | inr (inr (obj, known, new, e)) ↦
              let same = visit_new-agree again service obj s known in ground arith
        ]

    visit_all-agree :
        (again : Visit W) (services : List String) (parent : Option String) (s : Progress W)
        → visit_all request dict with_deps again services parent s
          ≡ visit_all request' dict with_deps again services parent s
    unfolding visit_all
    visit_all-agree again [] parent s = refl
    visit_all-agree again (x ∷ xs) parent s =
        λ i. ((λ t. visit-agree again parent x t i) >> (λ t. visit_all-agree again xs parent t i)) s

    pub collect-agree :
        (fuel : ℕ)
        → Path
            (Visit W)
            (collect_services_statuses request dict with_deps fuel)
            (collect_services_statuses request' dict with_deps fuel)
    unfolding collect_services_statuses
    collect-agree zero = refl
    collect-agree (suc fuel) = λ i services parent s.
        (visit_all-agree (collect_services_statuses request dict with_deps fuel) services parent s
            ∙ (λ j. visit_all request' dict with_deps (collect-agree fuel j) services parent s))
          i
