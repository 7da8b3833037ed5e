-- ===== src/Manager/Collect.antt =====
-- site-manager/pkg/service/cr_manager.go: `collectServicesStatuses`. The request for the status of
-- one service is the parameter `request`; `resultStatus.Services`, which the code changes in place,
-- is a part of the state. The fuel bounds the depth of the recursion.
pub mod Cases
pub mod Measure
pub mod Ends
pub mod Reached
pub mod Failure
pub mod Keeps
pub mod Requests
pub mod Agree
use drnavigator.Common.{
  ℕ, zero, suc, String, Bool, false, Option, none, some, List, [], ◌∷◌, Result, ok, err, items,
  if◌then◌else◌,
}
use drnavigator.Common.Action.{Action, ◌>>=◌, ◌>>◌, pure, raise}
use drnavigator.Common.Dict.{Dict, get, insert}
use drnavigator.Model.{SmError, SmObject, SmDictionary, SmStatus, SmStatusDeps}

-- How a method of the manager stops without a result: by returning an error, by a dereference of
-- nil, or, in the model only, for want of fuel.
pub data Stop : Type 0 where
  failed : SmError → Stop
  nil_dereference : Stop
  out_of_fuel : Stop

abbrev pub undefined_service : SmError
undefined_service = record {
  message = "run-service value should be defined and have String type";
  service = none;
  problem_cr = none;
  is_internal_server_error = false;
}

abbrev pub unknown_service : String → SmError
unknown_service name = record {
  message = "Service doesn't exist";
  service = some name;
  problem_cr = none;
  is_internal_server_error = false;
}

unfoldable pub get_service_object : Option String → SmDictionary → Result SmError SmObject
get_service_object none dict = err undefined_service
get_service_object (some name) dict = elim (get dict.services name) [
  | some obj ↦ ok obj
  | none ↦ err (unknown_service name)
]

pub record Progress (W : Type 0) : Type 0 where
  pub result : Dict SmStatus
  pub world : W

-- The error branch of the loop; its log line dereferences the parent.
pub blame : SmError → Option String → Stop
blame e none = nil_dereference
blame e (some parent) = failed (record {
  message = "Dependency defined in CR doesn't exist";
  service = e.service;
  problem_cr = some parent;
  is_internal_server_error = false;
})

-- What `getServiceStatus` returns: a status and an error or nil.
pub record Fetch : Type 0 where
  pub status : SmStatus
  pub error : Option SmError

abbrev pub deps_of : SmObject → SmStatusDeps
deps_of obj = record { after = obj.after; before = obj.before }

abbrev pub Visit : Type 0 → Type 0
Visit W = List String → Option String → Action (Progress W) Stop (Unit {0})

module _ {W : Type 0} where
  -- The status of a service is stored, also beside an error.
  abbrev pub stored : String → Fetch × W → Progress W → Progress W
  stored service (fetch, w) s = record { result = insert s.result service fetch.status; world = w }

  -- With dependencies, the status is stored once more, with the two lists of the service.
  abbrev pub noted : String → SmObject → Fetch × W → Progress W → Progress W
  noted service obj (fetch, w) s = record {
    result =
        insert (insert s.result service fetch.status) service
          (record (fetch.status) { deps = some (deps_of obj) });
    world = w;
  }

module _ {W : Type 0} (request : SmObject → W → Fetch × W) (dict : SmDictionary)
    (with_deps : Bool) where
  -- The calls for the dependencies, once the status is stored; `again` is the recursive call.
  pub follow : Visit W → String → SmObject → Action (Progress W) Stop (Unit {0})
  follow again service obj = do
    again (items obj.after) (some service)
    again (items obj.before) (some service)

  -- A service that has no status yet.
  pub visit_new : Visit W → String → SmObject → Action (Progress W) Stop (Unit {0})
  unfolding follow
  visit_new again service obj s =
      let answer = request obj s.world in
      elim answer.0.error [
        | some e ↦ raise (failed e) (stored service answer s)
        | none ↦
            if with_deps
            then follow again service obj (noted service obj answer s)
            else pure tt (stored service answer s)
      ]

  -- The body of the loop.
  pub visit : Visit W → Option String → String → Action (Progress W) Stop (Unit {0})
  unfolding visit_new blame get_service_object
  visit again parent service s = elim (get_service_object (some service) dict) [
    | err e ↦ raise (blame e parent) s
    | ok obj ↦ elim (get s.result service) [
      | some _ ↦ pure tt s
      | none ↦ visit_new again service obj s
    ]
  ]

  -- The loop over the services.
  pub visit_all : Visit W → Visit W
  visit_all again [] parent s = pure tt s
  visit_all again (service ∷ services) parent s =
      (visit again parent service >> visit_all again services parent) s

  unfoldable pub collect_services_statuses : ℕ → Visit W
  unfolding visit_all visit
  collect_services_statuses zero services parent s = raise out_of_fuel s
  collect_services_statuses (suc fuel) services parent s =
      visit_all (collect_services_statuses fuel) services parent s
