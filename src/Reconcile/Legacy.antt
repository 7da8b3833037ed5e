-- ===== src/Reconcile/Legacy.antt =====
-- A reconciliation that succeeds leaves nothing to do.
use mathlib.Core.Path.{subst}
use drnavigator.Common.{
  sym, String, true, false, ◌≡◌, ◌≢◌, ◌⊎◌, none, some, arith, eq_iff, eq_refl, inl, inr, Bool-cases,
  Option-cases,
}
use drnavigator.Api.V3
use drnavigator.Cluster.{CrClient, KubeError}
use drnavigator.Reconcile.{accepted_legacy, reconcile_legacy, same_legacy}

module _ {W : Type 0} (client : CrClient W) (namespace name : String) where
  settled :
      (cr : V3.Cr) (w : W)
      → client.get namespace name w ≡ (record { object = cr; error = none }, w)
      → same_legacy cr.status (accepted_legacy cr) ≡ true
      → reconcile_legacy client namespace name w ≡ (none, w)
  unfolding reconcile_legacy
  settled cr w there same = ground arith

  same_refl : (cr : V3.Cr) → same_legacy (accepted_legacy cr) (accepted_legacy cr) ≡ true
  same_refl cr = simp eq_refl

  same_eq :
      (cr : V3.Cr)
      → same_legacy cr.status (accepted_legacy cr) ≡ true
      → cr.status ≡ accepted_legacy cr
  same_eq cr h = ground (
    arith,
    eq_iff cr.status.summary "Accepted",
    eq_iff cr.status.service_name (V3.get_service_name cr),
  )

  there_after :
      (cr : V3.Cr) (w w' : W)
      → client.get namespace name w ≡ (record { object = cr; error = none }, w)
      → ((s : V3.CrStatus) (w'' : W)
          → client.update_status (record cr { status = s }) w ≡ (none, w'')
          → client.get namespace name w''
            ≡ (record { object = record cr { status = s }; error = none }, w''))
      → reconcile_legacy client namespace name w ≡ (none, w')
      → client.get namespace name w'
        ≡ (record { object = record cr { status = accepted_legacy cr }; error = none }, w')
  unfolding reconcile_legacy
  there_after cr w w' there stores done =
      elim (Bool-cases (same_legacy cr.status (accepted_legacy cr))) [
        | inl same ↦ ground (arith, same_eq cr same)
        | inr new ↦ stores (accepted_legacy cr) w' (ground arith)
      ]

  written :
      (cr : V3.Cr) (w w' : W)
      → client.get namespace name w ≡ (record { object = cr; error = none }, w)
      → reconcile_legacy client namespace name w ≡ (none, w')
      → ((cr.status ≡ accepted_legacy cr) × (w' ≡ w))
        ⊎ ((cr.status ≢ accepted_legacy cr)
            × (client.update_status (record cr { status = accepted_legacy cr }) w ≡ (none, w')))
  unfolding reconcile_legacy
  written cr w w' there done = elim (Bool-cases (same_legacy cr.status (accepted_legacy cr))) [
    | inl same ↦ inl (same_eq cr same, ground arith)
    | inr new ↦ inr (
      λ e. absurd (
          let again =
            subst (λ (s : V3.CrStatus). same_legacy s (accepted_legacy cr) ≡ true) (sym e)
              (same_refl cr) in
          ground arith),
      ground arith,
    )
  ]

  -- A legacy resource is there. Let reading it change nothing and be up to date, and let an update of
  -- its status without an error store that status. After a reconciliation without an error the
  -- resource is as it was, but with the status "Accepted" and its service name. If it had that status
  -- nothing was written, else one update with it was; and another reconciliation writes nothing.
  pub reconcile_legacy_settles :
      (cr : V3.Cr) (w w' : W)
      → client.get namespace name w ≡ (record { object = cr; error = none }, w)
      → ((s : V3.CrStatus) (w'' : W)
          → client.update_status (record cr { status = s }) w ≡ (none, w'')
          → client.get namespace name w''
            ≡ (record { object = record cr { status = s }; error = none }, w''))
      → reconcile_legacy client namespace name w ≡ (none, w')
      → let accepted : V3.CrStatus = record {
        summary = "Accepted";
        service_name = V3.get_service_name cr;
      } in
        (client.get namespace name w'
          ≡ (record { object = record cr { status = accepted }; error = none }, w'))
        × (((cr.status ≡ accepted) × (w' ≡ w))
            ⊎ ((cr.status ≢ accepted)
                × (client.update_status (record cr { status = accepted }) w ≡ (none, w'))))
        × (reconcile_legacy client namespace name w' ≡ (none, w'))
  unfolding reconcile_legacy V3.get_service_name
  reconcile_legacy_settles cr w w' there stores done =
      let after : V3.Cr = record cr { status = accepted_legacy cr } in
      let kept = there_after cr w w' there stores done in
      (kept, written cr w w' there done, settled after w' kept (same_refl after))

  -- An error of the reconciliation is that of reading the resource, which is not that it was not found,
  -- or, when it was read, that of writing the status "Accepted" with its service name.
  pub reconcile_legacy-error :
      (w : W) (e : String)
      → (reconcile_legacy client namespace name w).0 ≡ some e
      → ((k : KubeError) × ((client.get namespace name w).0.error ≡ some k)
          × (k.is_not_found ≡ false)
          × (k.message ≡ e))
        ⊎ (((client.get namespace name w).0.error ≡ none)
            × ((client.update_status
                  (record ((client.get namespace name w).0.object) {
                    status = accepted_legacy (client.get namespace name w).0.object;
                  })
                  (client.get namespace name w).1).0
                ≡ some e))
  unfolding reconcile_legacy
  reconcile_legacy-error w e fails = elim (Option-cases (client.get namespace name w).0.error) [
    | inl found ↦ inr (found, ground arith)
    | inr (k, lost) ↦ inl (k, lost, ground arith, ground arith)
  ]
