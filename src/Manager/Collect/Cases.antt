-- ===== src/Manager/Collect/Cases.antt =====
-- The branches of the loop's body, each with what it does.
use drnavigator.Common.{
  String, Bool, ◌≡◌, true, false, Option, none, some, ok, err, ◌⊎◌, Bool-cases, Option-cases, inl,
  inr, arith,
}
use drnavigator.Common.Dict.{get}
use drnavigator.Model.{SmError, SmObject, SmDictionary, SmStatus}
use drnavigator.Manager.Collect.{
  failed, Progress, Fetch, Visit, stored, noted, follow, visit_new, visit, blame,
  get_service_object, unknown_service,
}

module _ {W : Type 0} (request : SmObject → W → Fetch × W) (dict : SmDictionary) (with_deps : Bool)
    (again : Visit W) (service : String) (s : Progress W) where
  module _ (obj : SmObject) where
    pub visit_new_cases :
        ((e : SmError) × ((request obj s.world).0.error ≡ some e)
          × (visit_new request dict with_deps again service obj s
              ≡ (err (failed e), stored service (request obj s.world) s)))
        ⊎ (((request obj s.world).0.error ≡ none)
            × (with_deps ≡ true)
            × (visit_new request dict with_deps again service obj s
                ≡ follow request dict with_deps again service obj
                    (noted service obj (request obj s.world) s)))
        ⊎ (((request obj s.world).0.error ≡ none)
            × (with_deps ≡ false)
            × (visit_new request dict with_deps again service obj s
                ≡ (ok tt, stored service (request obj s.world) s)))
    unfolding visit_new
    visit_new_cases = elim (Option-cases (request obj s.world).0.error) [
      | inr (e, fails) ↦ inl (e, fails, rw (fails, visit_new))
      | inl works ↦ elim (Bool-cases with_deps) [
        | inl deep ↦ inr (inl (works, deep, rw (works, visit_new, deep)))
        | inr flat ↦ inr (inr (works, flat, rw (works, visit_new, flat)))
      ]
    ]

  module _ (parent : Option String) where
    pub visit_cases :
        ((get dict.services service ≡ none)
          × (visit request dict with_deps again parent service s
              ≡ (err (blame (unknown_service service) parent), s)))
        ⊎ ((obj : SmObject) × (get dict.services service ≡ some obj)
            × (old : SmStatus) × (get s.result service ≡ some old)
            × (visit request dict with_deps again parent service s ≡ (ok tt, s)))
        ⊎ ((obj : SmObject) × (get dict.services service ≡ some obj)
            × (get s.result service ≡ none)
            × (visit request dict with_deps again parent service s
                ≡ visit_new request dict with_deps again service obj s))
    unfolding visit get_service_object
    visit_cases = elim (Option-cases (get dict.services service)) [
      | inl unknown ↦ inl (unknown, ground arith)
      | inr (obj, known) ↦ elim (Option-cases (get s.result service)) [
        | inr (old, seen) ↦ inr (inl (obj, known, old, seen, ground arith))
        | inl new ↦ inr (inr (obj, known, new, ground arith))
      ]
    ]
