-- ===== src/Manager/Collect/Keeps.antt =====
-- What the recursion keeps: a predicate on its state that a service's status, once stored, keeps.
use drnavigator.Common.{
  ℕ, zero, suc, String, Bool, ◌≡◌, Option, none, some, List, [], ◌∷◌, inl, inr, items,
}
use drnavigator.Common.Action.{Action, ◌>>◌, then_cases}
use drnavigator.Common.Dict.{get}
use drnavigator.Model.{SmObject, SmDictionary}
use drnavigator.Manager.Collect.Cases.{visit_new_cases, visit_cases}
use drnavigator.Manager.Collect.{
  stored, noted, Stop, Progress, Fetch, Visit, follow, visit, visit_all, collect_services_statuses,
}

module _ {W : Type 0} (request : SmObject → W → Fetch × W) (dict : SmDictionary) (with_deps : Bool)
    (P : Progress W → Type 0) where
  abbrev pub Keeps : Action (Progress W) Stop (Unit {0}) → Type 0
  Keeps m = (s : Progress W) → P s → P (m s).1

  Keeps-then : (m n : Action (Progress W) Stop (Unit {0})) → Keeps m → Keeps n → Keeps (m >> n)
  Keeps-then m n hm hn s h = elim (then_cases m n s) [
    | inl (a, works, e) ↦ rw e (hn (m s).1 (hm s h))
    | inr (x, fails, e) ↦ rw e (hm s h)
  ]

  -- The status of a service of the dictionary that has none yet may be stored, and noted.
  abbrev pub Stores : Type 0
  Stores =
      (service : String) (obj : SmObject) (s : Progress W)
      → get dict.services service ≡ some obj
      → get s.result service ≡ none
      → P s
      → P (stored service (request obj s.world) s) × P (noted service obj (request obj s.world) s)

  module _ (stores : Stores) where
    module _ (again : Visit W)
        (keeps : (l : List String) (p : Option String) → Keeps (again l p)) where
      visit-Keeps :
          (parent : Option String) (service : String)
          → Keeps (visit request dict with_deps again parent service)
      unfolding follow
      visit-Keeps parent service s h =
          elim (visit_cases request dict with_deps again service s parent) [
            | inl (unknown, e) ↦ rw e h
            | inr (inl (obj, known, old, seen, e)) ↦ rw e h
            | inr (inr (obj, known, new, e)) ↦
                let (store, note) = stores service obj s known new h in
                rw e (elim (visit_new_cases request dict with_deps again service s obj) [
                  | inl (x, fails, e2) ↦ rw e2 store
                  | inr (inl (works, deep, e2)) ↦ rw e2 (
                      Keeps-then (again (items obj.after) (some service))
                        (again (items obj.before) (some service)) (keeps _ _) (keeps _ _)
                        (noted service obj (request obj s.world) s) note)
                  | inr (inr (works, flat, e2)) ↦ rw e2 store
                ])
          ]

      visit_all-Keeps :
          (services : List String) (parent : Option String)
          → Keeps (visit_all request dict with_deps again services parent)
      unfolding visit_all
      visit_all-Keeps [] parent s h = h
      visit_all-Keeps (x ∷ xs) parent s h =
          Keeps-then (visit request dict with_deps again parent x)
            (visit_all request dict with_deps again xs parent) (visit-Keeps parent x)
            (visit_all-Keeps xs parent) s h

    pub collect-Keeps :
        (fuel : ℕ) (services : List String) (parent : Option String)
        → Keeps (collect_services_statuses request dict with_deps fuel services parent)
    unfolding collect_services_statuses
    collect-Keeps zero services parent s h = h
    collect-Keeps (suc fuel) services parent s h =
        visit_all-Keeps (collect_services_statuses request dict with_deps fuel) (collect-Keeps fuel)
          services parent s h
