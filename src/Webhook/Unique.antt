-- ===== src/Webhook/Unique.antt =====
-- While the webhook admits every creation and update, service names stay unique.
use drnavigator.Common.{
  String, Bool, false, ◌≡◌, ◌↔◌, refl, none, List, [], ◌∷◌, ok, arith, eq_iff, Memᴰ, is_some,
}
use drnavigator.Common.Named
use drnavigator.Api.Qubership.{SiteManager, get_service_name}
use drnavigator.Cluster.{KubeClient}
use drnavigator.Webhook.{
  Object, site_manager, is_used, validate_service_name, validate_create, validate_update,
}

is_used_iff :
    (sms : List SiteManager) (name uid : String)
    → (is_used sms name uid ≡ false)
      ↔ ((sm : SiteManager) → Memᴰ sm sms → get_service_name sm ≡ name → sm.meta.uid ≡ uid)
unfolding is_used
is_used_iff sms name uid = (to sms, from sms)
  where
    to :
        (l : List SiteManager)
        → is_used l name uid ≡ false
        → (sm : SiteManager) → Memᴰ sm l
        → get_service_name sm ≡ name
        → sm.meta.uid ≡ uid
    to [] h sm m same = elim m [ ]
    to (x ∷ l) h sm (Memᴰ.head e) same =
        ground (arith, eq_iff (get_service_name x) name, eq_iff x.meta.uid uid)
    to (x ∷ l) h sm (Memᴰ.tail t) same = to l (ground arith) sm t same

    from :
        (l : List SiteManager)
        → ((sm : SiteManager) → Memᴰ sm l → get_service_name sm ≡ name → sm.meta.uid ≡ uid)
        → is_used l name uid ≡ false
    from [] h = refl
    from (x ∷ l) h = ground (
      arith,
      eq_iff (get_service_name x) name,
      eq_iff x.meta.uid uid,
      h x (Memᴰ.head refl),
      from l (λ sm t. h sm (Memᴰ.tail t)),
    )

abbrev pub uid : SiteManager → String
uid sm = sm.meta.uid

-- Two resources of one service name are the same resource, as their uids tell.
abbrev pub IsUnique : List SiteManager → Type 0
IsUnique = Named.IsUnique get_service_name uid

-- The resources without those of one uid.
abbrev pub without : String → List SiteManager → List SiteManager
without = Named.without get_service_name uid

-- One change of the stored resources: the API server stores what the webhook has accepted, while
-- the list that the webhook reads is the list of the stored resources.
pub data Step {W : Type 0} (client : KubeClient W) (w : W) (sms : List SiteManager)
    : List SiteManager → Type 0 where
  create :
      (sm : SiteManager) (w1 : W)
      → client.list_site_managers w ≡ (record { found = sms; error = none }, w1)
      → validate_create client (site_manager sm) w ≡ (ok tt, w1)
      → Step client w sms (sm ∷ sms)
  update :
      (old : Object) (sm : SiteManager) (w1 : W)
      → client.list_site_managers w ≡ (record { found = sms; error = none }, w1)
      → validate_update client old (site_manager sm) w ≡ (ok tt, w1)
      → Step client w sms (sm ∷ without sm.meta.uid sms)
  delete : (uid : String) → Step client w sms (without uid sms)

-- Any number of changes, each admitted in a state of the network of its own.
pub data Changes {W : Type 0} (client : KubeClient W) (start : List SiteManager)
    : List SiteManager → Type 0 where
  none_yet : Changes client start start
  change :
      {sms next : List SiteManager} (w : W)
      → Changes client start sms
      → Step client w sms next
      → Changes client start next

module _ {W : Type 0} (client : KubeClient W) where
  accepted_iff :
      (sms : List SiteManager) (name uid : String) (is_alias : Bool) (w w1 : W)
      → client.list_site_managers w ≡ (record { found = sms; error = none }, w1)
      → (validate_service_name client name uid is_alias w ≡ (ok tt, w1))
        ↔ (is_used sms name uid ≡ false)
  unfolding validate_service_name
  accepted_iff sms name uid is_alias w w1 listed = ground arith

  -- A creation, and an update, of a resource is accepted exactly when every listed resource of its
  -- service name has its uid.
  pub validate_create_iff :
      (sms : List SiteManager) (old : Object) (sm : SiteManager) (w w1 : W)
      → client.list_site_managers w ≡ (record { found = sms; error = none }, w1)
      → ((validate_create client (site_manager sm) w ≡ (ok tt, w1)) ↔ (
          (x : SiteManager)
          → Memᴰ x sms
          → get_service_name x ≡ get_service_name sm
          → x.meta.uid ≡ sm.meta.uid))
        × ((validate_update client old (site_manager sm) w ≡ (ok tt, w1)) ↔ (
            (x : SiteManager)
            → Memᴰ x sms
            → get_service_name x ≡ get_service_name sm
            → x.meta.uid ≡ sm.meta.uid))
  unfolding validate_create validate_update
  validate_create_iff sms old sm w w1 listed =
      let (to, from) =
        accepted_iff sms (get_service_name sm) sm.meta.uid (is_some sm.spec.alias) w w1 listed in
      let (used, free) = is_used_iff sms (get_service_name sm) sm.meta.uid in
      ((λ e. used (to e), λ h. from (free h)), (λ e. used (to e), λ h. from (free h)))

  pub Step-IsUnique :
      {w : W} {sms next : List SiteManager} → Step client w sms next → IsUnique sms → IsUnique next
  Step-IsUnique {w} {sms} (create sm w1 listed accepted) unique =
      Named.IsUnique-cons get_service_name uid sm sms unique
        ((validate_create_iff sms (site_manager sm) sm w w1 listed).0.0 accepted)
  Step-IsUnique {w} {sms} (update old sm w1 listed accepted) unique =
      Named.IsUnique-cons get_service_name uid sm (without sm.meta.uid sms)
        (Named.IsUnique-without get_service_name uid sm.meta.uid sms unique)
        (λ x m.
          (validate_create_iff sms old sm w w1 listed).1.0 accepted x
            (Named.mem-without get_service_name uid sm.meta.uid sms x m))
  Step-IsUnique {sms} (delete u) unique = Named.IsUnique-without get_service_name uid u sms unique

  -- However many resources are created, updated and deleted, if the webhook accepts each creation
  -- and update against the stored resources, no two resources have one service name, provided that
  -- none had at the start.
  pub Changes-IsUnique :
      {start sms : List SiteManager} → IsUnique start → Changes client start sms → IsUnique sms
  Changes-IsUnique u none_yet = u
  Changes-IsUnique u (change w c s) = Step-IsUnique s (Changes-IsUnique u c)
