-- ===== src/Webhook.antt =====
-- site-manager/internal/webhook/v3/sitemanager_webhook.go: the admission of the resources of
-- qubership.org.
pub mod Unique
pub mod Shown
use drnavigator.Common.{
  String, Bool, true, false, Option, none, some, List, [], ◌∷◌, Result, ok, err, ◌==◌, ◌&&◌, not,
  ◌+++◌, is_some, if◌then◌else◌,
}
use drnavigator.Common.Action.{Action, pure, raise}
use drnavigator.Api.Qubership.{SiteManager, get_service_name}
use drnavigator.Cluster.{KubeClient}

abbrev pub service_name_exists_message : String → Bool → String
service_name_exists_message name is_alias =
    "Can't use service "
    +++ (if is_alias then "alias" else "with calculated name")
    +++ " "
    +++ name
    +++ ", this name is used for another service"

-- The dynamic type of a `runtime.Object`: a resource of this group, or another type by its name.
pub data Object : Type 0 where
  site_manager : SiteManager → Object
  other : String → Object

-- The loop over the listed resources: one of them has the name and another uid.
unfoldable pub is_used : List SiteManager → String → String → Bool
is_used [] name uid = false
is_used (sm ∷ sms) name uid =
    if get_service_name sm == name && not (sm.meta.uid == uid) then true else is_used sms name uid

module _ {W : Type 0} (client : KubeClient W) where
  unfoldable pub validate_service_name : String → String → Bool → Action W String (Unit {0})
  unfolding is_used
  validate_service_name name uid is_alias w =
      let (listed, w1) = client.list_site_managers w in
      elim listed.error [
        | some e ↦ raise e w1
        | none ↦
            if is_used listed.found name uid
            then raise (service_name_exists_message name is_alias) w1
            else pure tt w1
      ]

  abbrev check : SiteManager → Action W String (Unit {0})
  check sm = validate_service_name (get_service_name sm) sm.meta.uid (is_some sm.spec.alias)

  unfoldable pub validate_create : Object → Action W String (Unit {0})
  validate_create (site_manager sm) = check sm
  validate_create (other name) = raise ("expected a SiteManager object but got " +++ name)

  unfoldable pub validate_update : Object → Object → Action W String (Unit {0})
  validate_update old_obj (site_manager sm) = check sm
  validate_update old_obj (other name) =
      raise ("expected a SiteManager object for the newObj but got " +++ name)

  unfoldable pub validate_delete : Object → Action W String (Unit {0})
  validate_delete obj = pure tt
