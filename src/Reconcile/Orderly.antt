-- ===== src/Reconcile/Orderly.antt =====
-- The stored resources stay orderly: service names are unique, and each resource has its own uid.
use mathlib.Core.Path.{subst}
use mathlib.Core.List.Memᴰ.{head, tail}
use drnavigator.Common.{
  String, ◌≡◌, ◌⊎◌, refl, ap, sym, ◌∙◌, none, List, [], ◌∷◌, ok, arith, ◌==◌, Memᴰ, inl, inr, map,
  Option-cases, Bool-cases,
}
use drnavigator.Common.Named
use drnavigator.Api.Qubership.{SiteManager, SiteManagerStatus, get_service_name}
use drnavigator.Cluster.{KubeClient}
use drnavigator.Webhook.{site_manager, validate_create, validate_update, validate_service_name}
use drnavigator.Webhook.Unique.{uid, IsUnique, Step, Step-IsUnique}
use drnavigator.Webhook.Shown.{HasOwnUids}
use drnavigator.Reconcile.{reconcile_site_manager, accepted_new, same_new}
use drnavigator.Reconcile.Store.{
  put_status, uids, IsStore, Reached, empty, create, update, delete, reconcile, elsewhere,
}

-- A status changes neither the name nor the uid.
put_status-name :
    (uid : String) (status : SiteManagerStatus) (sm : SiteManager)
    → (get_service_name (put_status uid status sm) ≡ get_service_name sm)
      × ((put_status uid status sm).meta ≡ sm.meta)
unfolding put_status get_service_name
put_status-name uid status sm = elim (Bool-cases (sm.meta.uid == uid)) [
  | inl same ↦ (rw (same, put_status) refl, rw (same, put_status) refl)
  | inr other ↦ (rw (other, put_status) refl, rw (other, put_status) refl)
]

module _ (uid : String) (status : SiteManagerStatus) where
  mem-map :
      (sms : List SiteManager) (y : SiteManager)
      → Memᴰ y (map (put_status uid status) sms)
      → (x : SiteManager) × Memᴰ x sms × (y ≡ put_status uid status x)
  mem-map [] y m = elim m [ ]
  mem-map (x ∷ sms) y (head e) = (x, head refl, e)
  mem-map (x ∷ sms) y (tail m) = let (z, k, e) = mem-map sms y m in (z, tail k, e)

  pub map-mem :
      (sms : List SiteManager) (x : SiteManager)
      → Memᴰ x sms
      → Memᴰ (put_status uid status x) (map (put_status uid status) sms)
  map-mem [] x m = elim m [ ]
  map-mem (y ∷ sms) x (head e) = head (ap (put_status uid status) e)
  map-mem (y ∷ sms) x (tail m) = tail (map-mem sms x m)

  map-IsUnique :
      (sms : List SiteManager) → IsUnique sms → IsUnique (map (put_status uid status) sms)
  map-IsUnique sms unique a b k n same =
      let (x, m, e) = mem-map sms a k in
      let (y, m', e') = mem-map sms b n in
      let (name_x, meta_x) = put_status-name uid status x in
      let (name_y, meta_y) = put_status-name uid status y in
      let names : get_service_name x ≡ get_service_name y =
        sym name_x ∙ ap get_service_name (sym e) ∙ same ∙ ap get_service_name e' ∙ name_y in
      let by_uid = unique x y m m' names in
      ap (λ (z : SiteManager). z.meta.uid) e
      ∙ ap (λ m. m.uid) meta_x
      ∙ by_uid
      ∙ sym (ap (λ m. m.uid) meta_y)
      ∙ sym (ap (λ (z : SiteManager). z.meta.uid) e')

  uids-map : (sms : List SiteManager) → uids (map (put_status uid status) sms) ≡ uids sms
  uids-map [] = refl
  uids-map (x ∷ sms) =
      let (name, meta) = put_status-name uid status x in rw (meta, uids-map sms) refl

  map-HasOwnUids :
      (sms : List SiteManager) → HasOwnUids sms → HasOwnUids (map (put_status uid status) sms)
  map-HasOwnUids [] own = tt
  map-HasOwnUids (x ∷ sms) (new, own) =
      let (name, meta) = put_status-name uid status x in
      (rw (meta, uids-map sms) new, map-HasOwnUids sms own)

-- Of two resources of one name only one is stored, and each has a uid of its own.
abbrev pub IsOrderly : List SiteManager → Type 0
IsOrderly sms = IsUnique sms × HasOwnUids sms

module _ {W : Type 0} (kube : KubeClient W) (view : W → List SiteManager)
    (store : IsStore kube view) where
  -- What an admission read is the list of the stored resources.
  accepted-lists :
      (sm : SiteManager) (w : W)
      → (validate_create kube (site_manager sm) w).0 ≡ ok tt
      → (kube.list_site_managers w
          ≡ (record { found = view w; error = none }, (kube.list_site_managers w).1))
        × (validate_create kube (site_manager sm) w ≡ (ok tt, (kube.list_site_managers w).1))
  unfolding validate_create validate_service_name
  accepted-lists sm w accepted = elim (Option-cases (kube.list_site_managers w).0.error) [
    | inr (e, fails) ↦ absurd (ground arith)
    | inl works ↦ let found = store.lists w works in (ground arith, ground arith)
  ]

  reconcile-view :
      (namespace name : String) (w : W)
      → (status : SiteManagerStatus) × (uid : String) × ((view
              (reconcile_site_manager kube namespace name w).1
            ≡ view w)
          ⊎ (view (reconcile_site_manager kube namespace name w).1
              ≡ map (put_status uid status) (view w)))
  unfolding reconcile_site_manager
  reconcile-view namespace name w =
      let got = kube.get_site_manager namespace name w in
      let status = accepted_new got.0.object in
      let keeps = store.get_keeps namespace name w in
      (
        status,
        got.0.object.meta.uid,
        elim (Option-cases got.0.error) [
          | inr (e, fails) ↦ inl (ground arith)
          | inl there ↦ elim (Bool-cases (same_new got.0.object.status status)) [
            | inl same ↦ inl (ground arith)
            | inr new ↦ elim (store.writes (record (got.0.object) { status = status }) got.1) [
              | inl written ↦ inr (ground arith)
              | inr (fails, kept) ↦ inl (ground arith)
            ]
          ]
        ],
      )

  pub Reached-IsOrderly : (w : W) → Reached kube view w → IsOrderly (view w)
  unfolding validate_create validate_update
  Reached-IsOrderly w (empty u start) = subst IsOrderly (sym start) (λ a b k n same. elim k [ ], tt)
  Reached-IsOrderly w' (create sm w u' before accepted new stored) =
      let (unique, own) = Reached-IsOrderly w before in
      let (listed, admitted) = accepted-lists sm w accepted in
      subst IsOrderly (sym stored) (
        Step-IsUnique kube (Step.create sm (kube.list_site_managers w).1 listed admitted) unique,
        (new, own),
      )
  Reached-IsOrderly w' (update old sm w u' before accepted stored) =
      let (unique, own) = Reached-IsOrderly w before in
      let (listed, admitted) = accepted-lists sm w accepted in
      subst IsOrderly (sym stored) (
        Step-IsUnique kube (Step.update old sm (kube.list_site_managers w).1 listed admitted)
            unique,
        (
          Named.absent-without get_service_name uid sm.meta.uid (view w),
          Named.HasOwnUids-without get_service_name uid sm.meta.uid (view w) own,
        ),
      )
  Reached-IsOrderly w' (delete u w u' before stored) =
      let (unique, own) = Reached-IsOrderly w before in
      subst IsOrderly (sym stored) (
        Step-IsUnique kube {w = w} (Step.delete u) unique,
        Named.HasOwnUids-without get_service_name uid u (view w) own,
      )
  Reached-IsOrderly _ (reconcile namespace name w before) =
      let (unique, own) = Reached-IsOrderly w before in
      let (status, uid, way) = reconcile-view namespace name w in
      elim way [
        | inl kept ↦ subst IsOrderly (sym kept) (unique, own)
        | inr written ↦
            subst IsOrderly (sym written)
              (map-IsUnique uid status (view w) unique, map-HasOwnUids uid status (view w) own)
      ]
  Reached-IsOrderly w' (elsewhere w u' before kept) =
      subst IsOrderly (sym kept) (Reached-IsOrderly w before)
