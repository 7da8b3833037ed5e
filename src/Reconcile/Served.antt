-- ===== src/Reconcile/Served.antt =====
-- A reconciled resource names the service under which the manager finds it.
use mathlib.Core.Path.{subst}
use drnavigator.Common.{
  String, ◌≡◌, refl, ap, sym, none, some, List, ok, arith, eq_refl, Memᴰ, inl, inr, map, Bool-cases,
}
use drnavigator.Api.Qubership.{SiteManager, get_service_name}
use drnavigator.Api.V3
use drnavigator.Cluster.{KubeClient, new_cr_client}
use drnavigator.Common.Dict.{get}
use drnavigator.Model.{SmDictionary}
use drnavigator.Manager.{CrManager, testing_dict, get_all_services}
use drnavigator.Manager.Convert.{site_manager_object}
use drnavigator.Webhook.Shown.{listed-get_all_services}
use drnavigator.Reconcile.{reconcile_site_manager, accepted_new, same_new}
use drnavigator.Reconcile.SiteManager.{same_eq}
use drnavigator.Reconcile.Store.{put_status, IsStore, Reached, reconcile}
use drnavigator.Reconcile.Orderly.{map-mem, Reached-IsOrderly}

module _ {W : Type 0} (kube : KubeClient W) (view : W → List SiteManager)
    (store : IsStore kube view) where
  -- The resource as the reconciler leaves it.
  abbrev pub accepted : SiteManager → SiteManager
  accepted sm = record sm { status = accepted_new sm }

  put_status_self : (sm : SiteManager) → put_status sm.meta.uid (accepted_new sm) sm ≡ accepted sm
  unfolding put_status
  put_status_self sm = rw (eq_refl sm.meta.uid, put_status) refl

  reconciled-Memᴰ :
      (namespace name : String) (w : W)
      → (kube.get_site_manager namespace name w).0.error ≡ none
      → (reconcile_site_manager kube namespace name w).0 ≡ none
      → Memᴰ
          (accepted (kube.get_site_manager namespace name w).0.object)
          (view (reconcile_site_manager kube namespace name w).1)
  unfolding reconcile_site_manager
  reconciled-Memᴰ namespace name w there done =
      let got = kube.get_site_manager namespace name w in
      let sm = got.0.object in
      let stored = store.gets namespace name w there in
      let keeps = store.get_keeps namespace name w in
      elim (Bool-cases (same_new sm.status (accepted_new sm))) [
        | inl same ↦
            let kept : view (reconcile_site_manager kube namespace name w).1 ≡ view w =
              ground arith in
            let settled : sm ≡ accepted sm =
              λ i. record sm { status = same_eq kube namespace name sm same i } in
            subst (λ sms. Memᴰ (accepted sm) sms) (sym kept)
              (subst (λ z. Memᴰ z (view w)) settled stored)
        | inr new ↦ elim (store.writes (accepted sm) got.1) [
          | inl written ↦
              let after : view (reconcile_site_manager kube namespace name w).1
                  ≡ map (put_status sm.meta.uid (accepted_new sm)) (view w) =
                ground arith in
              subst (λ sms. Memᴰ (accepted sm) sms) (sym after)
                (subst (λ z. Memᴰ z (map (put_status sm.meta.uid (accepted_new sm)) (view w)))
                  (put_status_self sm) (map-mem sm.meta.uid (accepted_new sm) (view w) sm stored))
          | inr (fails, kept) ↦ absurd (ground arith)
        ]
      ]

  -- Begin with no resource of qubership.org, and let the webhook admit every creation and update,
  -- while the reconciler writes statuses in between. After a reconciliation without an error, of a
  -- resource that was read, the resource is stored with the status "Accepted" and its service name;
  -- and a manager that then lists the resources, outside of the testing mode, has it in its
  -- dictionary under the service name that this status shows.
  pub reconciled-Served :
      (w : W)
      → Reached kube view w
      → (namespace name : String) → (kube.get_site_manager namespace name w).0.error ≡ none
      → (reconcile_site_manager kube namespace name w).0 ≡ none
      → (m : CrManager W) (legacy : List V3.Cr) (w1 : W) → testing_dict m.sm_config ≡ none
      → m.cr_client ≡ some (new_cr_client kube)
      → kube.list_legacy (reconcile_site_manager kube namespace name w).1
        ≡ (record { found = legacy; error = none }, w1)
      → (kube.list_site_managers w1).0.error ≡ none
      → let sm = accepted (kube.get_site_manager namespace name w).0.object in
        let later = (reconcile_site_manager kube namespace name w).1 in
        Memᴰ sm (view later)
        × (dict : SmDictionary) × ((get_all_services m later).0 ≡ ok dict)
        × (get dict.services sm.status.service_name ≡ some (site_manager_object m.env sm))
  unfolding get_service_name
  reconciled-Served w before namespace name there done m legacy w1 off live first second =
      let later = (reconcile_site_manager kube namespace name w).1 in
      let (unique, own) =
        Reached-IsOrderly kube view store later (reconcile namespace name w before) in
      let stored = reconciled-Memᴰ namespace name w there done in
      let kept : view w1 ≡ view later = (let keeps = store.legacy_keeps later in ground arith) in
      let found = store.lists w1 second in
      let listed : kube.list_site_managers w1
          ≡ (record { found = view later; error = none }, (kube.list_site_managers w1).1) =
        ground arith in
      let (dict, answered, holds) =
        listed-get_all_services (view later) unique own m (new_cr_client kube) legacy later w1
          (kube.list_site_managers w1).1 off live first listed in
      (stored, dict, ap (λ p. p.0) answered, holds _ stored)
