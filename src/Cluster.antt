-- ===== src/Cluster.antt =====
-- site-manager/pkg/client/cr/cr_client.go, over the client of controller-runtime, which is a
-- parameter. The state `W` is that of the cluster and the network.
use drnavigator.Common.{String, Bool, Option, List, GoError}
use drnavigator.Api.V3
use drnavigator.Api.Qubership

-- An error of the Kubernetes API, with what `errors.IsNotFound` says of it.
pub record KubeError : Type 0 where
  pub message : String
  pub is_not_found : Bool

pub record Listed (A : Type 0) : Type 0 where
  pub found : List A
  pub error : GoError

pub record Fetched (A : Type 0) : Type 0 where
  pub object : A
  pub error : Option KubeError

-- The calls of `client.Client` that the program makes.
pub record KubeClient (W : Type 0) : Type 0 where
  pub list_legacy : W → Listed V3.Cr × W
  pub get_legacy : String → String → W → Fetched V3.Cr × W
  pub update_legacy_status : V3.Cr → W → GoError × W
  pub list_site_managers : W → Listed Qubership.SiteManager × W
  pub get_site_manager : String → String → W → Fetched Qubership.SiteManager × W
  pub update_site_manager_status : Qubership.SiteManager → W → GoError × W

-- The interface `CRClient`.
pub record CrClient (W : Type 0) : Type 0 where
  pub list_legacy : W → Listed V3.Cr × W
  pub get : String → String → W → Fetched V3.Cr × W
  pub update_status : V3.Cr → W → GoError × W
  pub list : W → Listed Qubership.SiteManager × W

-- `NewCRClient`: every method hands its arguments on.
abbrev pub new_cr_client : {W : Type 0} → KubeClient W → CrClient W
new_cr_client kube = record {
  list_legacy = kube.list_legacy;
  get = kube.get_legacy;
  update_status = kube.update_legacy_status;
  list = kube.list_site_managers;
}
