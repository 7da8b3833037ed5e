-- ===== src/Start/Setup/Accepted.antt =====
-- The registrations with a manager whose scheme `init` has filled.
use drnavigator.Common.{
  String, Bool, true, false, none, ◌≡◌, List, [], ◌∷◌, Result, ok, arith, inl, inr, refl, GoError,
  ◌==◌, ap, ◌∙◌,
}
use drnavigator.Config.{Config}
use drnavigator.Utils.{Files, contains}
use drnavigator.Start.{
  legacy_reconciler, site_manager_reconciler, site_manager_webhook, webhook_v1, webhook_v2,
  webhook_v3, CommandLine, Platform, Parts, register_controllers, register_webhooks,
}
use drnavigator.Start.Schemes.{
  GroupVersionKind, GoType, SchemeCalls, init_scheme, cr_v1, cr_v2, cr_v3, site_manager_type,
}
use drnavigator.Start.Schemes.Table.{Entry, kinds_of}
use drnavigator.Start.Schemes.Complete.{table_of}
use drnavigator.Start.Schemes.Initial.{IsScheme, init_scheme_ends}
use drnavigator.Start.Setup.{
  Builders, register, in_words, setup_cr_reconciler, setup_with_manager,
  setup_site_manager_webhook_with_manager, setup_webhook_with_manager_v1,
  setup_webhook_with_manager_v2, setup_webhook_with_manager_v3,
}

-- What controller-runtime documents of the builders: an object whose type the scheme of the manager
-- has under one kind is accepted, in a controller if its name is new. `table` shows the scheme, which
-- no call changes, and `names` the controllers.
pub record IsRuntime {W : Type 0} (builders : Builders W) (table : W → List Entry)
    (names : W → List String) : Type 0 where
  pub controllers :
      (t : GoType) (name : String) (w : W) (k : GroupVersionKind)
      → kinds_of (table w) t ≡ k ∷ []
      → contains (λ n m. n == m) (names w) name ≡ false
      → ((builders.controller_managed_by t name w).0 ≡ none)
        × (table (builders.controller_managed_by t name w).1 ≡ table w)
        × (names (builders.controller_managed_by t name w).1 ≡ name ∷ names w)
  pub webhooks :
      (t : GoType) (w : W) (k : GroupVersionKind)
      → kinds_of (table w) t ≡ k ∷ []
      → ((builders.webhook_managed_by t w).0 ≡ none)
        × (table (builders.webhook_managed_by t w).1 ≡ table w)

kinds_lem :
    {table table' : List Entry} (t : GoType) {kinds : List GroupVersionKind}
    → table ≡ table'
    → kinds_of table' t ≡ kinds
    → kinds_of table t ≡ kinds
kinds_lem t same shown = rw same shown

module _ (env : Config) where
  site_manager-kinds_of :
      kinds_of (table_of env) site_manager_type
      ≡ record { group = "qubership.org"; version = "v3"; kind = "SiteManager" } ∷ []
  unfolding kinds_of
  site_manager-kinds_of = refl

  cr_v1-kinds_of :
      kinds_of (table_of env) cr_v1
      ≡ record { group = env.cr_group; version = "v1"; kind = env.cr_kind } ∷ []
  unfolding kinds_of
  cr_v1-kinds_of = refl

  cr_v2-kinds_of :
      kinds_of (table_of env) cr_v2
      ≡ record { group = env.cr_group; version = "v2"; kind = env.cr_kind } ∷ []
  unfolding kinds_of
  cr_v2-kinds_of = refl

  cr_v3-kinds_of :
      kinds_of (table_of env) cr_v3
      ≡ record { group = env.cr_group; version = "v3"; kind = env.cr_kind } ∷ []
  unfolding kinds_of
  cr_v3-kinds_of = refl

module _ {W : Type 0} (builders : Builders W) (table : W → List Entry) (names : W → List String)
    (law : IsRuntime builders table names) where
  -- The type of an object is in the scheme under one kind.
  abbrev Shows : W → GoType → GroupVersionKind → Type 0
  Shows w t k = kinds_of (table w) t ≡ k ∷ []

  pair_lem : (p : GoError × W) → p.0 ≡ none → p ≡ (none, p.1)
  pair_lem p good = rw good refl

  reconcilers_lem :
      (w : W) (k l : GroupVersionKind)
      → Shows w cr_v3 k
      → Shows w site_manager_type l
      → names w ≡ []
      → (w1 : W) × (w2 : W) × (register builders legacy_reconciler w ≡ (none, w1))
        × (register builders site_manager_reconciler w1 ≡ (none, w2))
        × (table w2 ≡ table w)
  unfolding register setup_cr_reconciler setup_with_manager contains
  reconcilers_lem w k l cr sm fresh =
      let (e1, t1, n1) = law.controllers cr_v3 "sitemanager-legacy" w k cr (rw fresh refl) in
      let w1 = (builders.controller_managed_by cr_v3 "sitemanager-legacy" w).1 in
      let (e2, t2, n2) =
        law.controllers site_manager_type "sitemanager" w1 l (rw t1 sm) (rw (n1, fresh) refl) in
      (w1, _, pair_lem _ e1, pair_lem _ e2, t2 ∙ t1)

  webhook_lem :
      (w : W) (k : GroupVersionKind)
      → Shows w site_manager_type k
      → (w1 : W) × (register builders site_manager_webhook w ≡ (none, w1))
  unfolding register setup_site_manager_webhook_with_manager
  webhook_lem w k sm = (_, pair_lem _ (law.webhooks site_manager_type w k sm).0)

  webhooks_lem :
      (w : W) (k l m : GroupVersionKind)
      → Shows w cr_v1 k
      → Shows w cr_v2 l
      → Shows w cr_v3 m
      → (w1 w2 w3 : W) × (register builders webhook_v1 w ≡ (none, w1))
        × (register builders webhook_v2 w1 ≡ (none, w2))
        × (register builders webhook_v3 w2 ≡ (none, w3))
  unfolding register setup_webhook_with_manager_v1 setup_webhook_with_manager_v2
      setup_webhook_with_manager_v3
  webhooks_lem w k l m v1 v2 v3 =
      let (e1, t1) = law.webhooks cr_v1 w k v1 in
      let w1 = (builders.webhook_managed_by cr_v1 w).1 in
      let (e2, t2) = law.webhooks cr_v2 w1 l (rw t1 v2) in
      let w2 = (builders.webhook_managed_by cr_v2 w1).1 in
      let (e3, t3) = law.webhooks cr_v3 w2 m (rw (t2, t1) v3) in
      let w3 = (builders.webhook_managed_by cr_v3 w2).1 in
      (
        w1,
        w2,
        w3,
        ap (in_words "v1") (pair_lem _ e1),
        ap (in_words "v2") (pair_lem _ e2),
        ap (in_words "v3") (pair_lem _ e3),
      )

module _ {W R : Type 0} (platform : Platform W R) (parts : Parts W) (cmd : CommandLine)
    (files : Files) (env : Config) where
  register_controllers-ok :
      (w w1 w2 w3 : W)
      → platform.register legacy_reconciler w ≡ (none, w1)
      → platform.register site_manager_reconciler w1 ≡ (none, w2)
      → platform.register site_manager_webhook w2 ≡ (none, w3)
      → (register_controllers platform parts cmd files env w).0 ≡ ok tt
  unfolding register_controllers
  register_controllers-ok w w1 w2 w3 e1 e2 e3 = ground arith

  register_webhooks-ok :
      (w w1 w2 w3 : W)
      → platform.register webhook_v1 w ≡ (none, w1)
      → platform.register webhook_v2 w1 ≡ (none, w2)
      → platform.register webhook_v3 w2 ≡ (none, w3)
      → (register_webhooks platform parts cmd files env w).0 ≡ ok tt
  unfolding register_webhooks
  register_webhooks-ok w w1 w2 w3 e1 e2 e3 = ground arith

module _ {S : Type 0} (calls : SchemeCalls S) (entries : S → List Entry)
    (reserved own : String → Bool) (new : S) (law : IsScheme calls entries reserved own new)
    (ours : own "qubership.org" ≡ true) (free : reserved "SiteManager" ≡ false)
    (free_list : reserved "SiteManagerList" ≡ false) (init_config : Result String Config)
    (theirs : (env : Config) → init_config ≡ ok env → own env.cr_group ≡ true) where
  filled_lem :
      (env : Config)
      → (init_scheme calls init_config new).0 ≡ ok env
      → entries (init_scheme calls init_config new).1 ≡ table_of env
  filled_lem env done =
      elim (init_scheme_ends calls entries reserved own new law ours free free_list init_config
        theirs) [
          | inl (env', read, fits, good, filled) ↦
              let one : env' ≡ env = ground arith in rw one at filled
          | inr (unfit, e, bad) ↦ absurd (ground arith)
        ]

  -- Let the scheme and the builders do what their libraries document. Once `init` has returned, a
  -- manager that has its scheme and no controller accepts every registration of `ServeApp`, whichever
  -- webhooks are enabled: those of the reconcilers and, while the scheme stays the same, later those
  -- of the legacy webhooks.
  pub init_scheme-register :
      {W R : Type 0} (platform : Platform W R) (parts : Parts W) (cmd : CommandLine) (files : Files)
      (env : Config) (builders : Builders W) (table : W → List Entry) (names : W → List String)
      (w later : W)
      → (init_scheme calls init_config new).0 ≡ ok env
      → platform.register ≡ register builders
      → IsRuntime builders table names
      → table w ≡ entries (init_scheme calls init_config new).1
      → names w ≡ []
      → table later ≡ table w
      → ((register_controllers platform parts cmd files env w).0 ≡ ok tt)
        × ((register_webhooks platform parts cmd files env later).0 ≡ ok tt)
  init_scheme-register platform parts cmd files env builders table names w later done same runtime
        shown fresh kept =
      let full : table w ≡ table_of env = shown ∙ filled_lem env done in
      let (w1, w2, e1, e2, unchanged) =
        reconcilers_lem builders table names runtime w _ _ (kinds_lem _ full (cr_v3-kinds_of env))
          (kinds_lem _ full (site_manager-kinds_of env)) fresh in
      let (w3, e3) =
        webhook_lem builders table names runtime w2 _
          (kinds_lem _ (unchanged ∙ full) (site_manager-kinds_of env)) in
      let (l1, l2, l3, f1, f2, f3) =
        webhooks_lem builders table names runtime later _ _ _
          (kinds_lem _ (kept ∙ full) (cr_v1-kinds_of env))
          (kinds_lem _ (kept ∙ full) (cr_v2-kinds_of env))
          (kinds_lem _ (kept ∙ full) (cr_v3-kinds_of env)) in
      (
        register_controllers-ok platform parts cmd files env w w1 w2 w3 (rw same e1) (rw same e2)
            (rw same e3),
        register_webhooks-ok platform parts cmd files env later l1 l2 l3 (rw same f1) (rw same f2)
            (rw same f3),
      )
