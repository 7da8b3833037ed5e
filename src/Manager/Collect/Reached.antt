-- ===== src/Manager/Collect/Reached.antt =====
-- With dependencies, a recursion that returns has visited what its services reach, and no more.
use mathlib.Core.List.Memᴰ
use mathlib.Core.Path.{subst, sym, ◌∙◌}
use mathlib.Core.Logic.{⊎_elim}
use drnavigator.Common.{
  ℕ, zero, suc, String, ◌≡◌, refl, true, Option, some, List, [], ◌∷◌, ◌++◌, ok, arith, eq_iff,
  eq_refl, inl, inr, items, ◌⊎◌, Memᴰ,
}
use drnavigator.Common.Action.{Action, ◌>>◌, then_cases}
use drnavigator.Common.Dict.{get, insert, has, get-insert}
use drnavigator.Model.{SmObject, SmDictionary, SmStatus}
use drnavigator.Manager.Collect.Ends.{
  Extends, Extends-has, has-noted, has-noted_cases, follow-Extends, collect-Extends,
  visit_all-Extends,
}
use drnavigator.Manager.Collect.Cases.{visit_new_cases, visit_cases}
use drnavigator.Manager.Collect.{
  Stop, Progress, Fetch, Visit, noted, follow, visit_new, visit, visit_all,
  collect_services_statuses, deps_of,
}

-- The service `v` stands in one of the two lists of `u`.
abbrev pub DependsOn : SmDictionary → String → String → Type 0
DependsOn dict u v =
    (obj : SmObject) × (get dict.services u ≡ some obj)
    × (Memᴰ v (items obj.after) ⊎ Memᴰ v (items obj.before))

-- The services that a chain of dependencies leads to.
pub data Reach (dict : SmDictionary) (from : String) : String → Type 0 where
  here : Reach dict from from
  step : {u v : String} → Reach dict from u → DependsOn dict u v → Reach dict from v

pub Reach-trans :
    {dict : SmDictionary} {a b c : String} → Reach dict a b → Reach dict b c → Reach dict a c
Reach-trans p here = p
Reach-trans p (step q d) = step (Reach-trans p q) d

module _ (dict : SmDictionary) (service : String) (obj : SmObject)
    (known : get dict.services service ≡ some obj) where
  dep_listed :
      (v : String) → DependsOn dict service v → Memᴰ v (items obj.after ++ items obj.before)
  dep_listed v (obj', known', m) =
      let same : obj' ≡ obj = cc in
      ⊎_elim
        (λ l.
          Memᴰ.append_left (items obj.before)
            (subst (λ (o : SmObject). Memᴰ v (items o.after)) same l))
        (λ l.
          Memᴰ.append_right (items obj.after)
            (subst (λ (o : SmObject). Memᴰ v (items o.before)) same l))
        m

  dep_of : (v : String) → Memᴰ v (items obj.after ++ items obj.before) → DependsOn dict service v
  dep_of v m = (obj, known, Memᴰ.append_cases (items obj.after) m)

deps-noted :
    {W : Type 0} (service : String) (obj : SmObject) (answer : Fetch × W) (s : Progress W)
    (u : String) (st : SmStatus)
    → u ≡ service
    → get (noted service obj answer s).result u ≡ some st
    → st.deps ≡ some (deps_of obj)
deps-noted service obj answer s u st e g =
    let last : SmStatus = record (answer.0.status) { deps = some (deps_of obj) } in
    ground
      (arith, get-insert (insert s.result service answer.0.status) service u last, eq_iff service u)

module _ {W : Type 0} (dict : SmDictionary) where
  -- A call for `services` that led from `s` to `t`.
  pub record Visited (services : List String) (s t : Progress W) : Type 0 where
    pub listed : (v : String) → Memᴰ v services → has t.result v ≡ true
    pub closed :
        (u : String)
        → has t.result u ≡ true
        → (has s.result u ≡ true) ⊎ ((v : String) → DependsOn dict u v → has t.result v ≡ true)
    pub sound :
        (u : String)
        → has t.result u ≡ true
        → (has s.result u ≡ true) ⊎ ((x : String) × Memᴰ x services × Reach dict x u)
    pub described :
        (u : String) (st : SmStatus)
        → get t.result u ≡ some st
        → (has s.result u ≡ true)
          ⊎ ((obj : SmObject) × (get dict.services u ≡ some obj) × (st.deps ≡ some (deps_of obj)))

  Visited-nil : (s : Progress W) → Visited [] s s
  Visited-nil s = record {
    listed = λ v m. absurd (Memᴰ.not-nil m);
    closed = λ u h. inl h;
    sound = λ u h. inl h;
    described = λ u st g. inl (ground arith);
  }

  -- A service that has its status already.
  Visited-seen : (x : String) (s : Progress W) → has s.result x ≡ true → Visited (x ∷ []) s s
  Visited-seen x s seen = record {
    listed = λ v m. rw (Memᴰ.eq_of_singleton m) seen;
    closed = λ u h. inl h;
    sound = λ u h. inl h;
    described = λ u st g. inl (ground arith);
  }

  Visited-append :
      (xs ys : List String) (s t u : Progress W)
      → Visited xs s t
      → Extends t u
      → Visited ys t u
      → Visited (xs ++ ys) s u
  Visited-append xs ys s t u a more b = record {
    listed = λ v m.
        ⊎_elim (λ l. Extends-has more v (a.listed v l)) (b.listed v) (Memᴰ.append_cases xs m);
    closed = λ k h. elim (b.closed k h) [
      | inr rest ↦ inr rest
      | inl old ↦ elim (a.closed k old) [
        | inl older ↦ inl older
        | inr rest ↦ inr (λ v d. Extends-has more v (rest v d))
      ]
    ];
    sound = λ k h. elim (b.sound k h) [
      | inr (x, m, r) ↦ inr (x, Memᴰ.append_right xs m, r)
      | inl old ↦ elim (a.sound k old) [
        | inl older ↦ inl older
        | inr (x, m, r) ↦ inr (x, Memᴰ.append_left ys m, r)
      ]
    ];
    described = λ k st g. elim (b.described k st g) [
      | inr new ↦ inr new
      | inl old ↦ a.described k st (sym (more.kept k old) ∙ g)
    ];
  }

  module _ (service : String) (obj : SmObject) (known : get dict.services service ≡ some obj) where
    Visited-new :
        (answer : Fetch × W) (s t : Progress W)
        → Extends (noted service obj answer s) t
        → Visited (items obj.after ++ items obj.before) (noted service obj answer s) t
        → Visited (service ∷ []) s t
    Visited-new answer s t more a = record {
      listed = λ v m. Extends-has more v (rw (Memᴰ.eq_of_singleton m, has-noted, eq_refl) refl);
      closed = λ u h. elim (a.closed u h) [
        | inr rest ↦ inr rest
        | inl old ↦ elim (has-noted_cases service obj answer s u old) [
          | inl e ↦ inr (λ v d. a.listed v (dep_listed dict service obj known v (rw e at d)))
          | inr older ↦ inl older
        ]
      ];
      sound = λ u h. elim (a.sound u h) [
        | inr (x, m, r) ↦
            inr (
              service,
              Memᴰ.head refl,
              Reach-trans (step here (dep_of dict service obj known x m)) r,
            )
        | inl old ↦ elim (has-noted_cases service obj answer s u old) [
          | inl e ↦ inr (service, Memᴰ.head refl, rw e here)
          | inr older ↦ inl older
        ]
      ];
      described = λ u st g. elim (a.described u st g) [
        | inr new ↦ inr new
        | inl old ↦ elim (has-noted_cases service obj answer s u old) [
          | inl e ↦
              inr (
                obj,
                rw e known,
                deps-noted service obj answer s u st e (sym (more.kept u old) ∙ g),
              )
          | inr older ↦ inl older
        ]
      ];
    }

module _ {W : Type 0} (request : SmObject → W → Fetch × W) (dict : SmDictionary) where
  abbrev Marks : List String → Action (Progress W) Stop (Unit {0}) → Type 0
  Marks services m = (s : Progress W) → (m s).0 ≡ ok tt → Visited dict services s (m s).1

  Marks-then :
      (xs ys : List String) (m n : Action (Progress W) Stop (Unit {0}))
      → Marks xs m
      → Marks ys n
      → ((s : Progress W) → Extends s (n s).1)
      → Marks (xs ++ ys) (m >> n)
  Marks-then xs ys m n hm hn keeps s done = elim (then_cases m n s) [
    | inl (a, works, e) ↦
        rw e
          (Visited-append dict xs ys s _ _ (hm s works) (keeps (m s).1) (hn (m s).1 (rw e at done)))
    | inr (x, fails, e) ↦ cc
  ]

  module _ (again : Visit W)
      (keeps : (l : List String) (p : Option String) (s : Progress W) → Extends s (again l p s).1)
      (marks : (l : List String) (p : Option String) → Marks l (again l p)) where
    follow-Marks :
        (service : String) (obj : SmObject)
        → Marks (items obj.after ++ items obj.before) (follow request dict true again service obj)
    unfolding follow
    follow-Marks service obj =
        Marks-then (items obj.after) (items obj.before) (again (items obj.after) (some service))
          (again (items obj.before) (some service)) (marks _ _) (marks _ _) (keeps _ _)

    visit_new-Marks :
        (service : String) (obj : SmObject)
        → get dict.services service ≡ some obj
        → Marks (service ∷ []) (visit_new request dict true again service obj)
    visit_new-Marks service obj known s done =
        let answer = request obj s.world in
        elim (visit_new_cases request dict true again service s obj) [
          | inl (x, fails, e) ↦ cc
          | inr (inl (works, deep, e)) ↦ rw e (
              Visited-new dict service obj known answer s _
                (follow-Extends request dict true again keeps service obj _)
                (follow-Marks service obj _ (rw e at done)))
          | inr (inr (works, flat, e)) ↦ cc
        ]

    visit-Marks :
        (parent : Option String) (x : String)
        → Marks (x ∷ []) (visit request dict true again parent x)
    visit-Marks parent x s done = elim (visit_cases request dict true again x s parent) [
      | inl (unknown, e) ↦ cc
      | inr (inl (obj, known, old, seen, e)) ↦ rw e (Visited-seen dict x s (ground arith))
      | inr (inr (obj, known, new, e)) ↦ rw e (visit_new-Marks x obj known s (rw e at done))
    ]

    visit_all-Marks :
        (services : List String) (parent : Option String)
        → Marks services (visit_all request dict true again services parent)
    unfolding visit_all
    visit_all-Marks [] parent s done = Visited-nil dict s
    visit_all-Marks (x ∷ xs) parent s done =
        Marks-then (x ∷ []) xs (visit request dict true again parent x)
          (visit_all request dict true again xs parent) (visit-Marks parent x)
          (visit_all-Marks xs parent) (visit_all-Extends request dict true again keeps xs parent) s
          done

  -- A call that returns has visited its services and all that they reach.
  pub collect-Visited :
      (fuel : ℕ) (services : List String) (parent : Option String)
      → Marks services (collect_services_statuses request dict true fuel services parent)
  unfolding collect_services_statuses
  collect-Visited zero services parent s done = cc
  collect-Visited (suc fuel) services parent s done =
      visit_all-Marks (collect_services_statuses request dict true fuel)
        (collect-Extends request dict true fuel) (collect-Visited fuel) services parent s done
