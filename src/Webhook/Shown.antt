-- ===== src/Webhook/Shown.antt =====
-- What the webhook is for: every resource that it admitted is found in the dictionary of the manager.
use drnavigator.Common.{◌≡◌, none, some, List, [], ok, arith, Memᴰ}
use drnavigator.Common.Dict.{get}
use drnavigator.Model.{SmDictionary}
use drnavigator.Api.V3
use drnavigator.Api.Qubership.{SiteManager, get_service_name}
use drnavigator.Cluster.{KubeClient, CrClient}
use drnavigator.Manager.{CrManager, testing_dict, get_all_services}
use drnavigator.Manager.Convert.{site_manager_object, convert_to_dict}
use drnavigator.Common.Named
use drnavigator.Manager.Convert.Lookup.{get-convert_to_dict}
use drnavigator.Manager.Listing.{get_all_services_live}
use drnavigator.Webhook.Unique.{uid, IsUnique, Changes, Changes-IsUnique}

-- Each resource has a uid of its own, as the API server gives them.
abbrev pub HasOwnUids : List SiteManager → Type 0
HasOwnUids = Named.HasOwnUids get_service_name uid

-- A manager that lists resources which are unique has each of them under its service name.
pub listed-get_all_services :
    {W : Type 0} (sms : List SiteManager)
    → IsUnique sms
    → HasOwnUids sms
    → (m : CrManager W) (client : CrClient W) (legacy : List V3.Cr) (w w1 w2 : W)
    → testing_dict m.sm_config ≡ none
    → m.cr_client ≡ some client
    → client.list_legacy w ≡ (record { found = legacy; error = none }, w1)
    → client.list w1 ≡ (record { found = sms; error = none }, w2)
    → (dict : SmDictionary) × (get_all_services m w ≡ (ok dict, w2))
      × ((sm : SiteManager)
          → Memᴰ sm sms
          → get dict.services (get_service_name sm) ≡ some (site_manager_object m.env sm))
listed-get_all_services sms unique own m client legacy w w1 w2 off live first second = (
  convert_to_dict m.env legacy sms,
  get_all_services_live m w client legacy sms w1 w2 off live first second,
  λ sm listed.
      (let last = Named.last_named_unique get_service_name uid sms sm unique own listed in
        let held = get-convert_to_dict m.env legacy sms (get_service_name sm) in ground arith),
)

-- Begin with no resource, let the webhook admit every creation and update, and let each resource
-- have a uid of its own. Then a manager that lists the resources, outside of the testing mode, has
-- each of them in its dictionary under its service name, with the defaults: no other resource of
-- either kind hides it.
pub Changes-get_all_services :
    {V W : Type 0} (kube : KubeClient V) (sms : List SiteManager)
    → Changes kube [] sms
    → HasOwnUids sms
    → (m : CrManager W) (client : CrClient W) (legacy : List V3.Cr) (w w1 w2 : W)
    → testing_dict m.sm_config ≡ none
    → m.cr_client ≡ some client
    → client.list_legacy w ≡ (record { found = legacy; error = none }, w1)
    → client.list w1 ≡ (record { found = sms; error = none }, w2)
    → (dict : SmDictionary) × (get_all_services m w ≡ (ok dict, w2))
      × ((sm : SiteManager)
          → Memᴰ sm sms
          → get dict.services (get_service_name sm) ≡ some (site_manager_object m.env sm))
Changes-get_all_services kube sms changes own m client legacy w w1 w2 off live first second =
    listed-get_all_services sms (Changes-IsUnique kube (λ a b k n same. elim k [ ]) changes) own m
      client legacy w w1 w2 off live first second
