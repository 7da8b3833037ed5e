-- ===== src/Manager/Collect/Ends.antt =====
-- The recursion ends, dereferences no nil, and keeps the statuses that are there.
use drnavigator.Common.{
  ℕ, zero, suc, ◌≤◌, ◌<◌, String, Bool, ◌≡◌, ◌≢◌, refl, true, Option, none, some, List, [], ◌∷◌, ok,
  err, Result, arith, ◌==◌, eq_iff, ◌||◌, ◌⊎◌, inl, inr, items,
}
use drnavigator.Common.Action.{Action, ◌>>◌, then_cases}
use drnavigator.Common.Dict.{get, insert, has, get-insert}
use drnavigator.Model.{SmObject, SmDictionary, SmStatus}
use drnavigator.Manager.Collect.Measure.{missing, missing_mono, missing-insert}
use drnavigator.Manager.Collect.Cases.{visit_new_cases, visit_cases}
use drnavigator.Manager.Collect.{
  stored, noted, blame, Stop, nil_dereference, out_of_fuel, Progress, Fetch, Visit, follow,
  visit_new, visit, visit_all, collect_services_statuses, deps_of,
}

module _ {W : Type 0} where
  pub record Extends (s t : Progress W) : Type 0 where
    pub kept : (k : String) → has s.result k ≡ true → get t.result k ≡ get s.result k

  pub Extends-refl : (s : Progress W) → Extends s s
  Extends-refl s = record { kept = λ k h. refl }

  pub Extends-trans : (s t u : Progress W) → Extends s t → Extends t u → Extends s u
  Extends-trans s t u a b = record { kept = λ k h. ground (arith, a.kept k, b.kept k) }

  pub Extends-has :
      {s t : Progress W}
      → Extends s t
      → (k : String) → has s.result k ≡ true
      → has t.result k ≡ true
  Extends-has a k h = ground (arith, a.kept k)

  pub Extends-then :
      (m n : Action (Progress W) Stop (Unit {0}))
      → ((s : Progress W) → Extends s (m s).1)
      → ((s : Progress W) → Extends s (n s).1)
      → (s : Progress W) → Extends s ((m >> n) s).1
  Extends-then m n hm hn s = elim (then_cases m n s) [
    | inl (a, works, e) ↦ rw e (Extends-trans s _ _ (hm s) (hn (m s).1))
    | inr (x, fails, e) ↦ rw e (hm s)
  ]

module _ {W : Type 0} (service : String) where
  Extends-stored :
      (answer : Fetch × W) (s : Progress W)
      → get s.result service ≡ none
      → Extends s (stored service answer s)
  Extends-stored answer s new = record {
    kept = λ k h. ground (arith, get-insert s.result service k answer.0.status, eq_iff service k);
  }

  pub has-noted :
      (obj : SmObject) (answer : Fetch × W) (s : Progress W) (k : String)
      → has (noted service obj answer s).result k ≡ (service == k || has s.result k)
  has-noted obj answer s k = ground (
    arith,
    get-insert s.result service k answer.0.status,
    get-insert (insert s.result service answer.0.status) service k
        (record (answer.0.status) { deps = some (deps_of obj) }),
  )

  pub has-noted_cases :
      (obj : SmObject) (answer : Fetch × W) (s : Progress W) (k : String)
      → has (noted service obj answer s).result k ≡ true
      → (k ≡ service) ⊎ (has s.result k ≡ true)
  has-noted_cases obj answer s k h = ground (arith, has-noted obj answer s k, eq_iff service k)

  Extends-noted :
      (obj : SmObject) (answer : Fetch × W) (s : Progress W)
      → get s.result service ≡ none
      → Extends s (noted service obj answer s)
  Extends-noted obj answer s new = record {
    kept = λ k h. ground (
      arith,
      get-insert s.result service k answer.0.status,
      get-insert (insert s.result service answer.0.status) service k
          (record (answer.0.status) { deps = some (deps_of obj) }),
      eq_iff service k,
    );
  }

module _ {W : Type 0} (request : SmObject → W → Fetch × W) (dict : SmDictionary)
    (with_deps : Bool) where
  module _ (again : Visit W)
      (keeps : (l : List String) (p : Option String) (s : Progress W)
        → Extends s (again l p s).1) where
    pub follow-Extends :
        (service : String) (obj : SmObject) (s : Progress W)
        → Extends s (follow request dict with_deps again service obj s).1
    unfolding follow
    follow-Extends service obj s =
        Extends-then (again (items obj.after) (some service))
          (again (items obj.before) (some service)) (keeps _ _) (keeps _ _) s

    visit_new-Extends :
        (service : String) (obj : SmObject) (s : Progress W)
        → get s.result service ≡ none
        → Extends s (visit_new request dict with_deps again service obj s).1
    visit_new-Extends service obj s new =
        let answer = request obj s.world in
        elim (visit_new_cases request dict with_deps again service s obj) [
          | inl (x, fails, e) ↦ rw e (Extends-stored service answer s new)
          | inr (inl (works, deep, e)) ↦ rw e (
              Extends-trans s _ _ (Extends-noted service obj answer s new)
                (follow-Extends service obj _))
          | inr (inr (works, flat, e)) ↦ rw e (Extends-stored service answer s new)
        ]

    pub visit-Extends :
        (parent : Option String) (service : String) (s : Progress W)
        → Extends s (visit request dict with_deps again parent service s).1
    visit-Extends parent service s =
        elim (visit_cases request dict with_deps again service s parent) [
          | inl (unknown, e) ↦ rw e (Extends-refl s)
          | inr (inl (obj, known, old, seen, e)) ↦ rw e (Extends-refl s)
          | inr (inr (obj, known, new, e)) ↦ rw e (visit_new-Extends service obj s new)
        ]

    pub visit_all-Extends :
        (services : List String) (parent : Option String) (s : Progress W)
        → Extends s (visit_all request dict with_deps again services parent s).1
    unfolding visit_all
    visit_all-Extends [] parent s = Extends-refl s
    visit_all-Extends (x ∷ xs) parent s =
        Extends-then (visit request dict with_deps again parent x)
          (visit_all request dict with_deps again xs parent) (visit-Extends parent x)
          (visit_all-Extends xs parent) s

  -- Statuses are only added: what has a status keeps it.
  pub collect-Extends :
      (fuel : ℕ) (services : List String) (parent : Option String) (s : Progress W)
      → Extends s (collect_services_statuses request dict with_deps fuel services parent s).1
  unfolding collect_services_statuses
  collect-Extends zero services parent s = Extends-refl s
  collect-Extends (suc fuel) services parent s =
      visit_all-Extends (collect_services_statuses request dict with_deps fuel)
        (collect-Extends fuel) services parent s

  abbrev missing_in : Progress W → ℕ
  missing_in s = missing dict.services s.result

  missing-Extends : (s t : Progress W) → Extends s t → missing_in t ≤ missing_in s
  missing-Extends s t e = missing_mono dict.services s.result t.result (Extends-has e)

  pub missing-noted :
      (service : String) (obj : SmObject) (answer : Fetch × W) (s : Progress W)
      → get dict.services service ≡ some obj
      → get s.result service ≡ none
      → missing_in (noted service obj answer s) < missing_in s
  missing-noted service obj answer s known new =
      let first = missing-insert dict.services s.result service answer.0.status in
      let again : SmStatus = record (answer.0.status) { deps = some (deps_of obj) } in
      let once = insert s.result service answer.0.status in
      let second =
        missing_mono dict.services once (insert once service again)
          (λ k h. ground (arith, get-insert once service k again)) in
      omega (arith, second, first (ground arith) (ground arith))

  -- Neither for want of fuel nor by a dereference of nil.
  abbrev pub Finishes : Result Stop (Unit {0}) → Type 0
  Finishes r = (r ≢ err out_of_fuel) × (r ≢ err nil_dereference)

  Finishes-then :
      (m n : Action (Progress W) Stop (Unit {0})) (s : Progress W)
      → Finishes (m s).0
      → ((m s).0 ≡ ok tt → Finishes (n (m s).1).0)
      → Finishes ((m >> n) s).0
  Finishes-then m n s hm hn = elim (then_cases m n s) [
    | inl (a, works, e) ↦ rw e (hn works)
    | inr (x, fails, e) ↦ rw e (rw fails at hm)
  ]

  module _ (again : Visit W) (fuel : ℕ)
      (keeps : (l : List String) (p : Option String) (s : Progress W) → Extends s (again l p s).1)
      (ends : (l : List String) (p : String) (s : Progress W)
        → missing_in s < fuel
        → Finishes (again l (some p) s).0) where
    follow-Finishes :
        (service : String) (obj : SmObject) (s : Progress W)
        → missing_in s < fuel
        → Finishes (follow request dict with_deps again service obj s).0
    unfolding follow
    follow-Finishes service obj s room =
        Finishes-then (again (items obj.after) (some service))
          (again (items obj.before) (some service)) s (ends _ service s room)
          (λ _.
            ends _ service _
              (omega (arith, missing-Extends s _ (keeps (items obj.after) (some service) s))))

    visit_new-Finishes :
        (service : String) (obj : SmObject) (s : Progress W)
        → missing_in s < suc fuel
        → get dict.services service ≡ some obj
        → get s.result service ≡ none
        → Finishes (visit_new request dict with_deps again service obj s).0
    visit_new-Finishes service obj s room known new =
        let answer = request obj s.world in
        elim (visit_new_cases request dict with_deps again service s obj) [
          | inl (x, fails, e) ↦ rw e (ground arith, ground arith)
          | inr (inl (works, deep, e)) ↦ rw e (
              follow-Finishes service obj _
                (omega (arith, missing-noted service obj answer s known new)))
          | inr (inr (works, flat, e)) ↦ rw e (ground arith, ground arith)
        ]

    visit-Finishes :
        (parent : Option String) (service : String) (s : Progress W)
        → missing_in s < suc fuel
        → (parent ≢ none) ⊎ (get dict.services service ≢ none)
        → Finishes (visit request dict with_deps again parent service s).0
    unfolding blame
    visit-Finishes parent service s room known =
        elim (visit_cases request dict with_deps again service s parent) [
          | inl (unknown, e) ↦ rw e (ground arith)
          | inr (inl (obj, found, old, seen, e)) ↦ rw e (ground arith, ground arith)
          | inr (inr (obj, found, new, e)) ↦ rw e (visit_new-Finishes service obj s room found new)
        ]

    visit_all-Finishes :
        (services : List String) (parent : String) (s : Progress W)
        → missing_in s < suc fuel
        → Finishes (visit_all request dict with_deps again services (some parent) s).0
    unfolding visit_all
    visit_all-Finishes [] parent s room = (ground arith, ground arith)
    visit_all-Finishes (x ∷ xs) parent s room =
        Finishes-then (visit request dict with_deps again (some parent) x)
          (visit_all request dict with_deps again xs (some parent)) s
          (visit-Finishes (some parent) x s room (inl (ground arith)))
          (λ _.
            visit_all-Finishes xs parent _
              (omega (arith, missing-Extends s _ (visit-Extends again keeps (some parent) x s))))

  -- With more fuel than there are services without a status, the recursion ends and dereferences
  -- no nil.
  pub collect-Finishes :
      (fuel : ℕ) (services : List String) (parent : String) (s : Progress W)
      → missing_in s < fuel
      → Finishes (collect_services_statuses request dict with_deps fuel services (some parent) s).0
  unfolding collect_services_statuses
  collect-Finishes zero services parent s room = absurd (omega arith)
  collect-Finishes (suc fuel) services parent s room =
      visit_all-Finishes (collect_services_statuses request dict with_deps fuel) fuel
        (collect-Extends fuel) (collect-Finishes fuel) services parent s room

  -- The same of the first call, which has no parent and a service of the dictionary.
  pub collect-Finishes_first :
      (fuel : ℕ) (service : String) (s : Progress W)
      → missing_in s < suc fuel
      → get dict.services service ≢ none
      → Finishes
          (collect_services_statuses request dict with_deps (suc fuel) (service ∷ []) none s).0
  unfolding collect_services_statuses visit_all
  collect-Finishes_first fuel service s room known =
      let again = collect_services_statuses request dict with_deps fuel in
      Finishes-then (visit request dict with_deps again none service)
        (visit_all request dict with_deps again [] none) s
        (visit-Finishes again fuel (collect-Extends fuel) (collect-Finishes fuel) none service s
          room (inr known))
        (λ _. (ground arith, ground arith))
