-- ===== src/Manager/Convert/Lookup.antt =====
-- Which resource the dictionary holds under a name.
use drnavigator.Common.{String, ◌≡◌, refl, Option, none, some, List, [], ◌∷◌, arith}
use drnavigator.Common.Named.{last_named}
use drnavigator.Common.Dict.{Dict, get, insert, get-insert}
use drnavigator.Config.{Config}
use drnavigator.Model.{SmObject}
use drnavigator.Api.V3
use drnavigator.Api.Qubership
use drnavigator.Manager.Convert.{
  legacy_object, site_manager_object, add_legacy, add_site_managers, convert_to_dict,
}

abbrev pub effective_or {ℓ κ} : {A : Type ℓ} {B : Type κ} → (A → B) → Option A → Option B → Option B
effective_or f (some x) rest = some (f x)
effective_or f none rest = rest

module _ (env : Config) where
  get-add_legacy :
      (result : Dict SmObject) (crs : List V3.Cr) (k : String)
      → get (add_legacy env result crs) k
        ≡ effective_or (legacy_object env) (last_named V3.get_service_name k crs) (get result k)
  unfolding add_legacy
  get-add_legacy result [] k = refl
  get-add_legacy result (cr ∷ crs) k = ground (
    arith,
    get-add_legacy (insert result (V3.get_service_name cr) (legacy_object env cr)) crs k,
    get-insert result (V3.get_service_name cr) k (legacy_object env cr),
  )

  get-add_site_managers :
      (result : Dict SmObject) (sms : List Qubership.SiteManager) (k : String)
      → get (add_site_managers env result sms) k
        ≡ effective_or
            (site_manager_object env)
            (last_named Qubership.get_service_name k sms)
            (get result k)
  unfolding add_site_managers
  get-add_site_managers result [] k = refl
  get-add_site_managers result (sm ∷ sms) k = ground (
    arith,
    get-add_site_managers
        (insert result (Qubership.get_service_name sm) (site_manager_object env sm)) sms k,
    get-insert result (Qubership.get_service_name sm) k (site_manager_object env sm),
  )

  -- Under each name the dictionary holds the last new resource of that name; if there is none, the
  -- last legacy resource of that name; and otherwise nothing.
  pub get-convert_to_dict :
      (legacy : List V3.Cr) (list : List Qubership.SiteManager) (k : String)
      → get (convert_to_dict env legacy list).services k
        ≡ effective_or
            (site_manager_object env)
            (last_named Qubership.get_service_name k list)
            (effective_or (legacy_object env) (last_named V3.get_service_name k legacy) none)
  unfolding convert_to_dict get
  get-convert_to_dict legacy list k =
      ground
        (arith, get-add_site_managers (add_legacy env [] legacy) list k, get-add_legacy [] legacy k)
