-- ===== src/Start/Setup.antt =====
-- The registrations of Site-Manager: `SetupCRReconciler` of internal/controller/legacy,
-- `SetupWithManager` of internal/controller, `SetupSiteManagerWebhookWithManager` of
-- internal/webhook/v3 and `SetupWebhookWithManager` of api/legacy/v1, v2 and v3, all under
-- site-manager/. The builders of controller-runtime are parameters.
pub mod Accepted
use drnavigator.Common.{String, none, some, GoError, ◌+++◌}
use drnavigator.Start.{
  Registration, legacy_reconciler, site_manager_reconciler, site_manager_webhook, webhook_v1,
  webhook_v2, webhook_v3,
}
use drnavigator.Start.Schemes.{GoType, cr_v1, cr_v2, cr_v3, site_manager_type}

-- `NewControllerManagedBy(mgr).For(object).Named(name).Complete(reconciler)` and
-- `WebhookManagedBy(mgr).For(object).WithValidator(validator).Complete()`, for an object of a type.
pub record Builders (W : Type 0) : Type 0 where
  pub controller_managed_by : GoType → String → W → GoError × W
  pub webhook_managed_by : GoType → W → GoError × W

-- The error of a builder in the words of the program.
abbrev pub in_words : {W : Type 0} → String → GoError × W → GoError × W
in_words version (none, w) = (none, w)
in_words version (some e, w) =
    (some ("error initializing cr validator for " +++ version +++ " version: " +++ e), w)

module _ {W : Type 0} (builders : Builders W) where
  unfoldable pub setup_cr_reconciler : W → GoError × W
  setup_cr_reconciler = builders.controller_managed_by cr_v3 "sitemanager-legacy"

  unfoldable pub setup_with_manager : W → GoError × W
  setup_with_manager = builders.controller_managed_by site_manager_type "sitemanager"

  unfoldable pub setup_site_manager_webhook_with_manager : W → GoError × W
  setup_site_manager_webhook_with_manager = builders.webhook_managed_by site_manager_type

  unfoldable pub setup_webhook_with_manager_v1 : W → GoError × W
  setup_webhook_with_manager_v1 w = in_words "v1" (builders.webhook_managed_by cr_v1 w)

  unfoldable pub setup_webhook_with_manager_v2 : W → GoError × W
  setup_webhook_with_manager_v2 w = in_words "v2" (builders.webhook_managed_by cr_v2 w)

  unfoldable pub setup_webhook_with_manager_v3 : W → GoError × W
  setup_webhook_with_manager_v3 w = in_words "v3" (builders.webhook_managed_by cr_v3 w)

  -- The calls that `ServeApp` makes.
  unfoldable pub register : Registration → W → GoError × W
  register legacy_reconciler = setup_cr_reconciler
  register site_manager_reconciler = setup_with_manager
  register site_manager_webhook = setup_site_manager_webhook_with_manager
  register webhook_v1 = setup_webhook_with_manager_v1
  register webhook_v2 = setup_webhook_with_manager_v2
  register webhook_v3 = setup_webhook_with_manager_v3
