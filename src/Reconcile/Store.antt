-- ===== src/Reconcile/Store.antt =====
-- The stored resources of qubership.org while the webhook admits changes and the reconciler writes
-- statuses. The API server is a client with a view of what it stores, under laws.
use drnavigator.Common.{
  String, false, ◌≡◌, ◌≢◌, ◌⊎◌, none, List, [], ◌∷◌, ok, ◌==◌, Memᴰ, elem, map, if◌then◌else◌,
}
use drnavigator.Api.Qubership.{SiteManager, SiteManagerStatus}
use drnavigator.Cluster.{KubeClient}
use drnavigator.Webhook.{Object, site_manager, validate_create, validate_update}
use drnavigator.Webhook.Unique.{without}
use drnavigator.Reconcile.{reconcile_site_manager}

-- The resource of a uid with another status.
unfoldable pub put_status : String → SiteManagerStatus → SiteManager → SiteManager
put_status uid status sm = if sm.meta.uid == uid then record sm { status = status } else sm

abbrev pub uids : List SiteManager → List String
uids sms = map (λ (sm : SiteManager). sm.meta.uid) sms

module _ {W : Type 0} (kube : KubeClient W) (view : W → List SiteManager) where
  -- What the API server does, of the resources that it stores. Reads without an error are up to date,
  -- and change nothing: the client of the program may read through a cache, and is taken here once that
  -- cache has what was written. An update of a status without an error is stored; after one with an
  -- error it may be stored or not.
  pub record IsStore : Type 0 where
    pub legacy_keeps : (w : W) → view (kube.list_legacy w).1 ≡ view w
    pub list_keeps : (w : W) → view (kube.list_site_managers w).1 ≡ view w
    pub lists :
        (w : W)
        → (kube.list_site_managers w).0.error ≡ none
        → (kube.list_site_managers w).0.found ≡ view w
    pub get_keeps :
        (namespace name : String) (w : W) → view (kube.get_site_manager namespace name w).1 ≡ view w
    pub gets :
        (namespace name : String) (w : W)
        → (kube.get_site_manager namespace name w).0.error ≡ none
        → Memᴰ (kube.get_site_manager namespace name w).0.object (view w)
    pub writes :
        (sm : SiteManager) (w : W)
        → (view (kube.update_site_manager_status sm w).1
            ≡ map (put_status sm.meta.uid sm.status) (view w))
          ⊎ (((kube.update_site_manager_status sm w).0 ≢ none)
              × (view (kube.update_site_manager_status sm w).1 ≡ view w))

  -- The states that are reached from one without resources, by changes that the webhook admits, by
  -- reconciliations, and by what leaves the resources as they are.
  pub data Reached : W → Type 0 where
    empty : (w : W) → view w ≡ [] → Reached w
    create :
        (sm : SiteManager) (w w' : W)
        → Reached w
        → (validate_create kube (site_manager sm) w).0 ≡ ok tt
        → elem sm.meta.uid (uids (view w)) ≡ false
        → view w' ≡ sm ∷ view w
        → Reached w'
    update :
        (old : Object) (sm : SiteManager) (w w' : W)
        → Reached w
        → (validate_update kube old (site_manager sm) w).0 ≡ ok tt
        → view w' ≡ sm ∷ without sm.meta.uid (view w)
        → Reached w'
    delete : (uid : String) (w w' : W) → Reached w → view w' ≡ without uid (view w) → Reached w'
    reconcile :
        (namespace name : String) (w : W)
        → Reached w
        → Reached (reconcile_site_manager kube namespace name w).1
    elsewhere : (w w' : W) → Reached w → view w' ≡ view w → Reached w'
