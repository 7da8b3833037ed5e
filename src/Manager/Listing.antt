-- ===== src/Manager/Listing.antt =====
-- What `GetAllServices` returns in testing mode and otherwise.
use drnavigator.Common.{String, ◌≡◌, none, some, ok, List, elem, arith}
use drnavigator.Common.Dict.{has, elem-keys}
use drnavigator.Model.{SmDictionary, SmListResponse}
use drnavigator.Api.V3
use drnavigator.Api.Qubership
use drnavigator.Cluster.{CrClient}
use drnavigator.Manager.Convert.{convert_to_dict}
use drnavigator.Manager.{list_all, CrManager, testing_dict, get_all_services, get_services_list}

module _ {W : Type 0} (m : CrManager W) (w : W) where
  -- The lists of both kinds of resources make the dictionary.
  pub get_all_services_live :
      (client : CrClient W) (legacy : List V3.Cr) (list : List Qubership.SiteManager) (w1 w2 : W)
      → testing_dict m.sm_config ≡ none
      → m.cr_client ≡ some client
      → client.list_legacy w ≡ (record { found = legacy; error = none }, w1)
      → client.list w1 ≡ (record { found = list; error = none }, w2)
      → get_all_services m w ≡ (ok (convert_to_dict m.env legacy list), w2)
  unfolding get_all_services list_all
  get_all_services_live client legacy list w1 w2 off live first second = ground arith

  -- When the services are listed and the list is returned, it names exactly the services of the
  -- dictionary.
  pub get_services_list-elem :
      (dict : SmDictionary) (w1 : W) (resp : SmListResponse) (name : String)
      → get_all_services m w ≡ (ok dict, w1)
      → (get_services_list m w).0 ≡ ok resp
      → elem name resp.services ≡ has dict.services name
  unfolding get_services_list
  get_services_list-elem dict w1 resp name listed e = ground (arith, elem-keys dict.services name)
