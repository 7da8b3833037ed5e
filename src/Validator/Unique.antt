-- ===== src/Validator/Unique.antt =====
-- While the validator admits every creation and update of a legacy resource in the version v3, the
-- service names of the legacy resources stay unique, whatever becomes of the new resources.
use drnavigator.Common.{
  String, ◌≡◌, ◌≢◌, ◌⊎◌, none, some, List, [], ◌∷◌, ok, arith, Memᴰ, inl, inr, Option-cases,
}
use drnavigator.Common.Named
use drnavigator.Common.Named.{last_named}
use drnavigator.Common.Dict.{get}
use drnavigator.Model.{SmDictionary}
use drnavigator.Api.V3
use drnavigator.Api.Qubership
use drnavigator.Cluster.{CrClient}
use drnavigator.Manager.{CrManager, testing_dict, get_all_services}
use drnavigator.Manager.Convert.{legacy_object, site_manager_object, convert_to_dict}
use drnavigator.Manager.Convert.Lookup.{get-convert_to_dict}
use drnavigator.Manager.Listing.{get_all_services_live}
use drnavigator.Validator.{RuntimeObject, crv3, validate, validate_create, validate_update}
use drnavigator.Validator.Accepts.{holder, validate_v3_iff, validate-payload}

abbrev pub uid : V3.Cr → String
uid cr = cr.meta.uid

-- Two legacy resources of one service name are the same, as their uids tell.
abbrev pub IsUnique : List V3.Cr → Type 0
IsUnique = Named.IsUnique V3.get_service_name uid

abbrev pub HasOwnUids : List V3.Cr → Type 0
HasOwnUids = Named.HasOwnUids V3.get_service_name uid

-- Only a resource itself holds its name in the dictionary.
abbrev IsFree : List V3.Cr → List Qubership.SiteManager → V3.Cr → Type 0
IsFree legacy list cr =
    (u : String) → holder legacy list (V3.get_service_name cr) ≡ some u → u ≡ cr.meta.uid

-- Then it has its uid in common with every legacy resource of its name, if it has it with no new one.
free_same :
    (legacy : List V3.Cr) (list : List Qubership.SiteManager) (cr x : V3.Cr)
    → IsUnique legacy
    → ((sm : Qubership.SiteManager) → Memᴰ sm list → sm.meta.uid ≢ cr.meta.uid)
    → IsFree legacy list cr
    → Memᴰ x legacy
    → V3.get_service_name x ≡ V3.get_service_name cr
    → x.meta.uid ≡ cr.meta.uid
free_same legacy list cr x unique apart free m same =
    elim (Option-cases (last_named Qubership.get_service_name (V3.get_service_name cr) list)) [
      | inr (sm, found) ↦
          let (listed, named) =
            Named.last_named-Memᴰ Qubership.get_service_name
              (λ (s : Qubership.SiteManager). s.meta.uid) list (V3.get_service_name cr) sm found in
          absurd (apart sm listed (free sm.meta.uid (ground arith)))
      | inl none_new ↦
          let (y, found) = Named.last_named_there V3.get_service_name uid legacy x m in
          let (listed, named) =
            Named.last_named-Memᴰ V3.get_service_name uid legacy (V3.get_service_name x) y found in
          let held : holder legacy list (V3.get_service_name cr) ≡ some y.meta.uid = ground arith in
          let by_name = unique x y m listed (ground arith) in
          let by_holder = free y.meta.uid held in ground arith
    ]

module _ {W : Type 0} (m : CrManager W) (client : CrClient W) where
  -- One change of the stored resources: the API server stores what the validator has accepted,
  -- which listed the resources that were stored; the new resources change as they may.
  pub data Step (w : W) (legacy : List V3.Cr) (list : List Qubership.SiteManager)
      : List V3.Cr → List Qubership.SiteManager → Type 0 where
    create :
        (obj : RuntimeObject) (cr : V3.Cr) (w1 w2 : W)
        → client.list_legacy w ≡ (record { found = legacy; error = none }, w1)
        → client.list w1 ≡ (record { found = list; error = none }, w2)
        → obj.payload ≡ crv3 cr
        → validate_create m obj w ≡ (ok tt, w2)
        → ((sm : Qubership.SiteManager) → Memᴰ sm list → sm.meta.uid ≢ cr.meta.uid)
        → Step w legacy list (cr ∷ legacy) list
    update :
        (old obj : RuntimeObject) (cr : V3.Cr) (w1 w2 : W)
        → client.list_legacy w ≡ (record { found = legacy; error = none }, w1)
        → client.list w1 ≡ (record { found = list; error = none }, w2)
        → obj.payload ≡ crv3 cr
        → validate_update m old obj w ≡ (ok tt, w2)
        → ((sm : Qubership.SiteManager) → Memᴰ sm list → sm.meta.uid ≢ cr.meta.uid)
        → Step w legacy list (cr ∷ Named.without V3.get_service_name uid cr.meta.uid legacy) list
    delete : (u : String) → Step w legacy list (Named.without V3.get_service_name uid u legacy) list
    others : (next : List Qubership.SiteManager) → Step w legacy list legacy next

  -- Any number of changes, each admitted in a state of the network of its own.
  pub data Changes : List V3.Cr → List Qubership.SiteManager → Type 0 where
    none_yet : Changes [] []
    change :
        {legacy next : List V3.Cr} {list later : List Qubership.SiteManager} (w : W)
        → Changes legacy list
        → Step w legacy list next later
        → Changes next later

  module _ (off : testing_dict m.sm_config ≡ none) (live : m.cr_client ≡ some client) where
    accepted-IsFree :
        (obj : RuntimeObject) (cr : V3.Cr) (legacy : List V3.Cr) (list : List Qubership.SiteManager)
        (w w1 w2 : W)
        → client.list_legacy w ≡ (record { found = legacy; error = none }, w1)
        → client.list w1 ≡ (record { found = list; error = none }, w2)
        → obj.payload ≡ crv3 cr
        → validate m obj w ≡ (ok tt, w2)
        → IsFree legacy list cr
    accepted-IsFree obj cr legacy list w w1 w2 first second payload accepted =
        let (version, valid) = validate-payload m w w2 obj (crv3 cr) payload accepted in
        (validate_v3_iff m w client legacy list w1 w2 cr off live first second).0 valid

    Step-IsUnique :
        {w : W} {legacy next : List V3.Cr} {list later : List Qubership.SiteManager}
        → Step w legacy list next later
        → IsUnique legacy
        → IsUnique next
    Step-IsUnique {w} {legacy} {list = list}
          (create obj cr w1 w2 first second payload accepted apart) unique =
        let free = accepted-IsFree obj cr legacy list w w1 w2 first second payload accepted in
        Named.IsUnique-cons V3.get_service_name uid cr legacy unique
          (λ x k. free_same legacy list cr x unique apart free k)
    Step-IsUnique {w} {legacy} {list = list}
          (update old obj cr w1 w2 first second payload accepted apart) unique =
        let free = accepted-IsFree obj cr legacy list w w1 w2 first second payload accepted in
        Named.IsUnique-cons V3.get_service_name uid cr
          (Named.without V3.get_service_name uid cr.meta.uid legacy)
          (Named.IsUnique-without V3.get_service_name uid cr.meta.uid legacy unique)
          (λ x k.
            free_same legacy list cr x unique apart free
              (Named.mem-without V3.get_service_name uid cr.meta.uid legacy x k))
    Step-IsUnique {legacy = legacy} (delete u) unique =
        Named.IsUnique-without V3.get_service_name uid u legacy unique
    Step-IsUnique (others next) unique = unique

    Changes-IsUnique_legacy :
        {legacy : List V3.Cr} {list : List Qubership.SiteManager}
        → Changes legacy list
        → IsUnique legacy
    Changes-IsUnique_legacy none_yet = λ a b k n same. elim k [ ]
    Changes-IsUnique_legacy (change w before step) =
        Step-IsUnique step (Changes-IsUnique_legacy before)

    -- Begin with no resource, and let the validator admit every creation and update of a legacy
    -- resource, all of them in the version v3, with uids that the new resources do not have; the new
    -- resources change in any way. If each legacy resource has a uid of its own in the end, then the
    -- manager, which lists the resources outside of the testing mode, has under the service name of each of
    -- them either that resource, or a new one of the same service name.
    pub Changes-legacy_shown :
        {legacy : List V3.Cr} {list : List Qubership.SiteManager}
        → Changes legacy list
        → HasOwnUids legacy
        → (w w1 w2 : W) → client.list_legacy w ≡ (record { found = legacy; error = none }, w1)
        → client.list w1 ≡ (record { found = list; error = none }, w2)
        → (dict : SmDictionary) × (get_all_services m w ≡ (ok dict, w2))
          × ((cr : V3.Cr)
              → Memᴰ cr legacy
              → (get dict.services (V3.get_service_name cr) ≡ some (legacy_object m.env cr))
                ⊎ ((sm : Qubership.SiteManager) × Memᴰ sm list
                    × (Qubership.get_service_name sm ≡ V3.get_service_name cr)
                    × (get dict.services (V3.get_service_name cr)
                        ≡ some (site_manager_object m.env sm))))
    Changes-legacy_shown {legacy} {list} changes own w w1 w2 first second = (
      convert_to_dict m.env legacy list,
      get_all_services_live m w client legacy list w1 w2 off live first second,
      λ cr listed.
          (let held = get-convert_to_dict m.env legacy list (V3.get_service_name cr) in
            let last =
              Named.last_named_unique V3.get_service_name uid legacy cr
                (Changes-IsUnique_legacy changes) own listed in
            elim (Option-cases
              (last_named Qubership.get_service_name (V3.get_service_name cr) list)) [
                | inl none_new ↦ inl (ground arith)
                | inr (sm, found) ↦
                    let (there, named) =
                      Named.last_named-Memᴰ Qubership.get_service_name
                        (λ (s : Qubership.SiteManager). s.meta.uid) list (V3.get_service_name cr) sm
                        found in
                    inr (sm, there, named, ground arith)
              ]),
    )
