-- ===== src/Start/Schemes.antt =====
-- The schemes of the Kubernetes libraries: `AddToScheme` of site-manager/api/legacy/v1, v2 and v3 and
-- of site-manager/api/v3, and `init` of site-manager/cmd/main.go. The calls on `runtime.Scheme` are
-- parameters; a panic in one is an error.
pub mod Table
pub mod Complete
pub mod Initial
use drnavigator.Common.{String, Result, List, [], ◌∷◌}
use drnavigator.Common.Action.{Action, ◌>>=◌, ◌>>◌, pure, raise, continue}
use drnavigator.Config.{Config}

pub record GroupVersion : Type 0 where
  pub group : String
  pub version : String

pub record GroupVersionKind : Type 0 where
  pub group : String
  pub version : String
  pub kind : String

-- `GroupVersion.WithKind`
abbrev pub with_kind : GroupVersion → String → GroupVersionKind
with_kind gv kind = record { group = gv.group; version = gv.version; kind = kind }

-- A type of Go, by the path of its package and its name.
pub record GoType : Type 0 where
  pub path : String
  pub name : String

abbrev pub cr_v1 : GoType
cr_v1 = record { path = "site-manager/api/legacy/v1"; name = "CR" }

abbrev pub cr_list_v1 : GoType
cr_list_v1 = record { path = "site-manager/api/legacy/v1"; name = "CRList" }

abbrev pub cr_v2 : GoType
cr_v2 = record { path = "site-manager/api/legacy/v2"; name = "CR" }

abbrev pub cr_list_v2 : GoType
cr_list_v2 = record { path = "site-manager/api/legacy/v2"; name = "CRList" }

abbrev pub cr_v3 : GoType
cr_v3 = record { path = "site-manager/api/legacy/v3"; name = "CR" }

abbrev pub cr_list_v3 : GoType
cr_list_v3 = record { path = "site-manager/api/legacy/v3"; name = "CRList" }

abbrev pub site_manager_type : GoType
site_manager_type = record { path = "site-manager/api/v3"; name = "SiteManager" }

abbrev pub site_manager_list_type : GoType
site_manager_list_type = record { path = "site-manager/api/v3"; name = "SiteManagerList" }

abbrev pub Step : Type 0 → Type 0
Step S = Action S String (Unit {0})

-- The calls that add types to a scheme: `clientgoscheme.AddToScheme`, `AddKnownTypeWithName`,
-- `metav1.AddToGroupVersion`, and `AddToScheme` of a `scheme.Builder` with its types.
pub record SchemeCalls (S : Type 0) : Type 0 where
  pub client_go : Step S
  pub add_known_type_with_name : GroupVersionKind → GoType → Step S
  pub add_to_group_version : GroupVersion → Step S
  pub builder_add_to_scheme : GroupVersion → List GoType → Step S

module _ {S : Type 0} (calls : SchemeCalls S) (env : Config) where
  unfoldable pub add_to_scheme_v1 : Step S
  add_to_scheme_v1 = do
    let gv : GroupVersion = record { group = env.cr_group; version = "v1" }
    calls.add_known_type_with_name (with_kind gv env.cr_kind) cr_v1
    calls.add_known_type_with_name (with_kind gv env.cr_kind_list) cr_list_v1
    calls.add_to_group_version gv

  unfoldable pub add_to_scheme_v2 : Step S
  add_to_scheme_v2 = do
    let gv : GroupVersion = record { group = env.cr_group; version = "v2" }
    calls.add_known_type_with_name (with_kind gv env.cr_kind) cr_v2
    calls.add_known_type_with_name (with_kind gv env.cr_kind_list) cr_list_v2
    calls.add_to_group_version gv

  unfoldable pub add_to_scheme_v3 : Step S
  add_to_scheme_v3 = do
    let gv : GroupVersion = record { group = env.cr_group; version = "v3" }
    calls.add_known_type_with_name (with_kind gv env.cr_kind) cr_v3
    calls.add_known_type_with_name (with_kind gv env.cr_kind_list) cr_list_v3
    calls.add_to_group_version gv

-- `GroupVersion` of site-manager/api/v3.
abbrev pub group_version : GroupVersion
group_version = record { group = "qubership.org"; version = "v3" }

-- `SchemeBuilder.AddToScheme`, after the types are registered with the builder.
unfoldable pub add_to_scheme : {S : Type 0} → SchemeCalls S → Step S
add_to_scheme calls =
    calls.builder_add_to_scheme group_version (site_manager_type ∷ site_manager_list_type ∷ [])

-- `init` of main.go on the scheme: every error is a panic.
unfoldable pub init_scheme :
    {S : Type 0} → SchemeCalls S → Result String Config → Action S String Config
init_scheme calls init_config = continue init_config (λ env. do
  calls.client_go
  add_to_scheme_v1 calls env
  add_to_scheme_v2 calls env
  add_to_scheme_v3 calls env
  add_to_scheme calls
  pure env)
