-- ===== src/Reconcile.antt =====
-- The reconcilers: site-manager/internal/controller/legacy/cr_controller.go for the legacy resources,
-- site-manager/internal/controller/sitemanager_controller.go for those of qubership.org. The result
-- `ctrl.Result{}` is empty on every path, so a reconciler returns its error.
pub mod Legacy
pub mod SiteManager
pub mod Store
pub mod Orderly
pub mod Served
use drnavigator.Common.{String, Bool, Option, none, some, GoError, ◌==◌, ◌&&◌, if◌then◌else◌}
use drnavigator.Api.V3
use drnavigator.Api.Qubership
use drnavigator.Cluster.{CrClient, KubeClient}

-- `reflect.DeepEqual` of two statuses.
abbrev same_legacy : V3.CrStatus → V3.CrStatus → Bool
same_legacy a b = a.summary == b.summary && a.service_name == b.service_name

abbrev pub same_new : Qubership.SiteManagerStatus → Qubership.SiteManagerStatus → Bool
same_new a b = a.summary == b.summary && a.service_name == b.service_name

abbrev pub accepted_legacy : V3.Cr → V3.CrStatus
accepted_legacy cr = record { summary = "Accepted"; service_name = V3.get_service_name cr }

abbrev pub accepted_new : Qubership.SiteManager → Qubership.SiteManagerStatus
accepted_new sm = record { summary = "Accepted"; service_name = Qubership.get_service_name sm }

unfoldable pub reconcile_legacy : {W : Type 0} → CrClient W → String → String → W → GoError × W
reconcile_legacy client namespace name w =
    let (got, w1) = client.get namespace name w in
    elim got.error [
      | some e ↦ if e.is_not_found then (none, w1) else (some e.message, w1)
      | none ↦
          if same_legacy got.object.status (accepted_legacy got.object)
          then (none, w1)
          else client.update_status (record (got.object) { status = accepted_legacy got.object }) w1
    ]

unfoldable pub reconcile_site_manager :
    {W : Type 0} → KubeClient W → String → String → W → GoError × W
reconcile_site_manager client namespace name w =
    let (got, w1) = client.get_site_manager namespace name w in
    elim got.error [
      | some e ↦ if e.is_not_found then (none, w1) else (some e.message, w1)
      | none ↦
          if same_new got.object.status (accepted_new got.object)
          then (none, w1)
          else client.update_site_manager_status
              (record (got.object) { status = accepted_new got.object }) w1
    ]
