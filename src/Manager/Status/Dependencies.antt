-- ===== src/Manager/Status/Dependencies.antt =====
-- What a request for the status of a service and its dependencies returns, and when it fails.
use mathlib.Core.Path.{subst}
use mathlib.Core.List.Memᴰ
use drnavigator.Common.{
  String, Bool, true, ◌≡◌, ◌≢◌, ◌↔◌, ◌⊎◌, refl, none, some, [], ◌∷◌, ok, err, arith, inl, inr, Memᴰ,
  Option-cases, Result-cases,
}
use drnavigator.Common.Dict.{get, has}
use drnavigator.Model.{SmError, SmObject, SmDictionary, SmStatus, SmStatusResponse}
use drnavigator.Manager.{CrManager, get_all_services, get_service_status, request_status}
use drnavigator.Manager.Collect.{
  Progress, failed, nil_dereference, out_of_fuel, unknown_service, deps_of,
}
use drnavigator.Manager.Collect.Reached.{Reach, here, step, Visited, collect-Visited}
use drnavigator.Manager.Collect.Failure.{Cause, collect-Cause}
use drnavigator.Manager.Status.{
  get_service_status_known, get_service_status_unknown, run, run-Finishes, collect-eq-ok,
  collect-eq-err,
}

module _ {W : Type 0} (m : CrManager W) (w : W) {dict : SmDictionary} {w1 : W}
    (listed : get_all_services m w ≡ (ok dict, w1)) (name : String) where
  -- A status was returned, so the service is in the dictionary.
  known_of_ok :
      (with_deps : Bool) (resp : SmStatusResponse)
      → (get_service_status m (some name) with_deps w).0 ≡ ok resp
      → get dict.services name ≢ none
  known_of_ok with_deps resp e unknown =
      let refused = get_service_status_unknown m w listed name with_deps unknown in cc

  -- From no status at all, a visit marks exactly what its service reaches.
  marked_iff :
      (t : Progress W) (v : String)
      → Visited dict (name ∷ []) (record { result = []; world = w1 }) t
      → (has t.result v ≡ true) ↔ Reach dict name v
  unfolding get
  marked_iff t v seen = (
    λ h. elim (seen.sound v h) [
      | inl old ↦ cc
      | inr (x, m, r) ↦ subst (λ (y : String). Reach dict y v) (Memᴰ.eq_of_singleton m) r
    ],
    reached v,
  )
    where
      reached : (u : String) → Reach dict name u → has t.result u ≡ true
      reached u here = seen.listed name (Memᴰ.head refl)
      reached u (step {u = z} r d) = elim (seen.closed z (reached z r)) [
        | inl old ↦ cc
        | inr rest ↦ rest u d
      ]

  visited :
      (resp : SmStatusResponse)
      → (get_service_status m (some name) true w).0 ≡ ok resp
      → (t : Progress W) × (resp.services ≡ t.result)
        × Visited dict (name ∷ []) (record { result = []; world = w1 }) t
  visited resp e =
      let known = known_of_ok true resp e in
      let (done, same) =
        collect-eq-ok m w1 dict true name resp
          (rw (get_service_status_known m w listed name true known) at e) in
      ((run m w1 dict true name).1, same, collect-Visited (request_status m) dict _ _ _ _ done)

  -- Once the services are listed: when the status with dependencies is returned, it has an entry for exactly the services that a
  -- chain of `after` and `before` dependencies reaches from the service that was asked for.
  pub get_service_status-Reach :
      (resp : SmStatusResponse) (v : String)
      → (get_service_status m (some name) true w).0 ≡ ok resp
      → (has resp.services v ≡ true) ↔ Reach dict name v
  get_service_status-Reach resp v e =
      let (t, same, seen) = visited resp e in rw same (marked_iff t v seen)

  -- Once the services are listed: each entry of a status with dependencies that is returned carries the `after` and `before` lists of its service, which is in the
  -- dictionary.
  pub get_service_status_described :
      (resp : SmStatusResponse) (v : String) (st : SmStatus)
      → (get_service_status m (some name) true w).0 ≡ ok resp
      → get resp.services v ≡ some st
      → (obj : SmObject) × (get dict.services v ≡ some obj) × (st.deps ≡ some (deps_of obj))
  unfolding get
  get_service_status_described resp v st e found =
      let (t, same, seen) = visited resp e in
      elim (seen.described v st (rw same at found)) [ inl old ↦ cc | inr new ↦ new ]

  -- Once the services are listed, a status that fails does so because a service that is reached has a dependency that is not in
  -- the dictionary, which the error names with the service; or because of the request to a service
  -- that is reached; or because the service that was asked for is not in the dictionary.
  pub get_service_status-Cause :
      (with_deps : Bool) (e : SmError)
      → (get_service_status m (some name) with_deps w).0 ≡ err (failed e)
      → ((get dict.services name ≡ none) × (e ≡ unknown_service name))
        ⊎ Cause (request_status m) dict name e
  get_service_status-Cause with_deps e fails = elim (Option-cases (get dict.services name)) [
    | inl unknown ↦ inl (
      unknown,
      let refused = get_service_status_unknown m w listed name with_deps unknown in ground arith,
    )
    | inr (obj, found) ↦
        let known : get dict.services name ≢ none = ground arith in
        inr (
          collect-Cause (request_status m) dict name with_deps _ _ e known (
            collect-eq-err m w1 dict with_deps name (failed e)
              (rw (get_service_status_known m w listed name with_deps known) at fails)))
  ]

  -- Once the services are listed: if every service that is reached is in the dictionary and no request to one of them fails, the
  -- status is returned.
  pub get_service_status_complete :
      (with_deps : Bool)
      → ((v : String) → Reach dict name v → get dict.services v ≢ none)
      → ((v : String) (obj : SmObject) (u : W)
          → Reach dict name v
          → get dict.services v ≡ some obj
          → (request_status m obj u).0.error ≡ none)
      → (resp : SmStatusResponse) × ((get_service_status m (some name) with_deps w).0 ≡ ok resp)
  get_service_status_complete with_deps closed works =
      let known = closed name here in
      let (fuelled, safe) = run-Finishes m w1 dict with_deps name known in
      elim (Result-cases (get_service_status m (some name) with_deps w).0) [
        | inr done ↦ done
        | inl (nil_dereference, e) ↦ absurd (
            safe (
              collect-eq-err m w1 dict with_deps name _
                (rw (get_service_status_known m w listed name with_deps known) at e)))
        | inl (out_of_fuel, e) ↦ absurd (
            fuelled (
              collect-eq-err m w1 dict with_deps name _
                (rw (get_service_status_known m w listed name with_deps known) at e)))
        | inl (failed x, e) ↦ elim (get_service_status-Cause with_deps x e) [
          | inl (unknown, same) ↦ absurd (known unknown)
          | inr (inl (u, v, r, d, gone, same)) ↦ absurd (closed v (step r d) gone)
          | inr (inr (u, obj, z, r, found, wrong)) ↦ let fine = works u obj z r found in cc
        ]
      ]
