-- ===== src/Reconcile/SiteManager.antt =====
-- The same of the resources of qubership.org.
use drnavigator.Common.{
  String, true, false, ◌≡◌, ◌⊎◌, none, some, arith, eq_iff, eq_refl, inl, inr, Bool-cases,
  Option-cases,
}
use drnavigator.Api.Qubership
use drnavigator.Cluster.{KubeClient, KubeError}
use drnavigator.Reconcile.{
  accepted_new, accepted_new, reconcile_site_manager, reconcile_site_manager, same_new, same_new,
}

module _ {W : Type 0} (client : KubeClient W) (namespace name : String) where
  settled :
      (sm : Qubership.SiteManager) (w : W)
      → client.get_site_manager namespace name w ≡ (record { object = sm; error = none }, w)
      → same_new sm.status (accepted_new sm) ≡ true
      → reconcile_site_manager client namespace name w ≡ (none, w)
  unfolding reconcile_site_manager
  settled sm w there same = ground arith

  same_refl : (sm : Qubership.SiteManager) → same_new (accepted_new sm) (accepted_new sm) ≡ true
  same_refl sm = simp eq_refl

  pub same_eq :
      (sm : Qubership.SiteManager)
      → same_new sm.status (accepted_new sm) ≡ true
      → sm.status ≡ accepted_new sm
  same_eq sm h = ground (
    arith,
    eq_iff sm.status.summary "Accepted",
    eq_iff sm.status.service_name (Qubership.get_service_name sm),
  )

  there_after :
      (sm : Qubership.SiteManager) (w w' : W)
      → client.get_site_manager namespace name w ≡ (record { object = sm; error = none }, w)
      → ((sm' : Qubership.SiteManager) (w'' : W)
          → client.update_site_manager_status sm' w ≡ (none, w'')
          → client.get_site_manager namespace name w''
            ≡ (record { object = sm'; error = none }, w''))
      → reconcile_site_manager client namespace name w ≡ (none, w')
      → client.get_site_manager namespace name w'
        ≡ (record { object = record sm { status = accepted_new sm }; error = none }, w')
  unfolding reconcile_site_manager
  there_after sm w w' there stores done = elim (Bool-cases (same_new sm.status (accepted_new sm))) [
    | inl same ↦ ground (arith, same_eq sm same)
    | inr new ↦ stores (record sm { status = accepted_new sm }) w' (ground arith)
  ]

  -- A resource of qubership.org that is there: if reading it changes nothing, and an update without an error
  -- makes the resource what was written, then after a reconciliation without an error the resource
  -- has the status "Accepted" with its service name, and another reconciliation writes nothing.
  pub reconcile_site_manager_settles :
      (sm : Qubership.SiteManager) (w w' : W)
      → client.get_site_manager namespace name w ≡ (record { object = sm; error = none }, w)
      → ((sm' : Qubership.SiteManager) (w'' : W)
          → client.update_site_manager_status sm' w ≡ (none, w'')
          → client.get_site_manager namespace name w''
            ≡ (record { object = sm'; error = none }, w''))
      → reconcile_site_manager client namespace name w ≡ (none, w')
      → (client.get_site_manager namespace name w'
          ≡ (record { object = record sm { status = accepted_new sm }; error = none }, w'))
        × (reconcile_site_manager client namespace name w' ≡ (none, w'))
  unfolding reconcile_site_manager Qubership.get_service_name
  reconcile_site_manager_settles sm w w' there stores done =
      let after : Qubership.SiteManager = record sm { status = accepted_new sm } in
      let kept = there_after sm w w' there stores done in
      (kept, settled after w' kept (same_refl after))

  -- An error of the reconciliation is that of reading the resource, which is not that it was not found,
  -- or, when it was read, that of writing the status "Accepted" with its service name.
  pub reconcile_site_manager-error :
      (w : W) (e : String)
      → (reconcile_site_manager client namespace name w).0 ≡ some e
      → ((k : KubeError) × ((client.get_site_manager namespace name w).0.error ≡ some k)
          × (k.is_not_found ≡ false)
          × (k.message ≡ e))
        ⊎ (((client.get_site_manager namespace name w).0.error ≡ none)
            × ((client.update_site_manager_status
                  (record ((client.get_site_manager namespace name w).0.object) {
                    status = accepted_new (client.get_site_manager namespace name w).0.object;
                  })
                  (client.get_site_manager namespace name w).1).0
                ≡ some e))
  unfolding reconcile_site_manager
  reconcile_site_manager-error w e fails =
      elim (Option-cases (client.get_site_manager namespace name w).0.error) [
        | inl found ↦ inr (found, ground arith)
        | inr (k, lost) ↦ inl (k, lost, ground arith, ground arith)
      ]
