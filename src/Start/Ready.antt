-- ===== src/Start/Ready.antt =====
-- What holds of the program once it has started.
use mathlib.Core.Path.{subst}
use drnavigator.Common.{
  String, true, ◌≡◌, ◌≢◌, ◌⊎◌, Option, none, some, Result, ok, err, arith, inl, inr, Bool-cases,
  if◌then◌else◌,
}
use drnavigator.Common.Action.{Action, >>=-eq-ok}
use drnavigator.Config.{Config}
use drnavigator.Model.{SmConfig}
use drnavigator.Utils.{Files}
use drnavigator.Cluster.{CrClient, new_cr_client}
use drnavigator.Manager.{CrManager}
use drnavigator.Manager.Setup.{new_cr_manager, new_cr_manager-IsReady, new_cr_manager_env}
use drnavigator.Manager.Status.{IsReady}
use drnavigator.Start.{
  Exit, tasks_of, CommandLine, Flags, Platform, Parts, Program, make_manager, set_up_live,
  serve_app, or_exit, or_fail, try_step, token_of, get_kube_config, webhook_server, runtime_options,
  register_controllers, register_webhooks, read_flags, load_sm_config,
}

module _ {W A : Type 0} where
  or_exit-eq-ok :
      (message : String) (r : Result String A) (w w' : W) (a : A)
      → or_exit message r w ≡ (ok a, w')
      → (r ≡ ok a) × (w ≡ w')
  or_exit-eq-ok message (ok x) w w' a e = ground arith
  or_exit-eq-ok message (err x) w w' a e = ground arith

module _ {W R : Type 0} (platform : Platform W R) (parts : Parts W) (cmd : CommandLine)
    (files : Files) (env : Config) where
  make_manager-IsReady :
      (sm_config : SmConfig) (flags : Flags) (client : Option (CrClient W)) (w w' : W)
      (m : CrManager W)
      → (sm_config.testing.enabled ≡ true) ⊎ (client ≢ none)
      → make_manager platform parts cmd files env sm_config flags client w ≡ (ok m, w')
      → IsReady m × (m.env ≡ env)
  unfolding make_manager
  make_manager-IsReady sm_config flags client w w' m given made =
      let (x, u, watched, built) =
        >>=-eq-ok (or_fail "unable to initialize token watcher" platform.new_watcher) _ made in
      let (same, stays) =
        or_exit-eq-ok "unable to initialize cr manager service"
          (new_cr_manager files parts.make_client parts.codecs env sm_config client
            (token_of platform parts cmd files env sm_config flags))
          u w' m built in
      (
        new_cr_manager-IsReady files parts.make_client parts.codecs env sm_config client _ m given
            same,
        new_cr_manager_env files parts.make_client parts.codecs env sm_config client _ m same,
      )

  abbrev IsMade : CrManager W → Type 0
  IsMade m = IsReady m × (m.env ≡ env)

  set_up_live-IsReady :
      (sm_config : SmConfig) (flags : Flags) (w w' : W) (m : CrManager W)
      → set_up_live platform parts cmd files env sm_config flags w ≡ (ok m, w')
      → IsMade m
  unfolding set_up_live
  set_up_live-IsReady sm_config flags w w' m made =
      let (config, u1, e1, r1) =
        >>=-eq-ok (try_step "error creating kube client" (get_kube_config platform files env)) _
          made in
      let (server, u2, e2, r2) = >>=-eq-ok (webhook_server platform flags) _ r1 in
      let (kube, u3, e3, r3) =
        >>=-eq-ok
          (try_step "unable to start manager"
            (platform.new_manager config (runtime_options env flags server)))
          _ r2 in
      let (t4, u4, e4, r4) = >>=-eq-ok (register_controllers platform parts cmd files env) _ r3 in
      let (m', u5, e5, r5) =
        >>=-eq-ok
          (make_manager platform parts cmd files env sm_config flags (some (new_cr_client kube))) _
          r4 in
      let (t6, u6, e6, r6) = >>=-eq-ok (register_webhooks platform parts cmd files env) _ r5 in
      let same : m' ≡ m = ground arith in
      subst IsMade same (
        make_manager-IsReady sm_config flags (some (new_cr_client kube)) u4 u5 m'
          (inr (λ e. ground arith)) e5)

  abbrev pub made_manager : SmConfig → Flags → Action W Exit (CrManager W)
  made_manager sm_config flags =
      if sm_config.testing.enabled
      then make_manager platform parts cmd files env sm_config flags none
      else set_up_live platform parts cmd files env sm_config flags

  made_manager-IsReady :
      (sm_config : SmConfig) (flags : Flags) (w w' : W) (m : CrManager W)
      → made_manager sm_config flags w ≡ (ok m, w')
      → IsMade m
  made_manager-IsReady sm_config flags w w' m made = elim (Bool-cases sm_config.testing.enabled) [
    | inl on ↦ make_manager-IsReady sm_config flags none w w' m (inl on) (ground arith)
    | inr off ↦ set_up_live-IsReady sm_config flags w w' m (ground arith)
  ]

  module _ (decode : String → Result String SmConfig) (w w' : W) (p : Program W)
      (made : serve_app platform parts cmd files env decode w ≡ (ok p, w')) where
    -- What a program that has started is made of.
    pub serve_app_parts :
        (u1 u2 : W) × (read_flags cmd files env w ≡ (ok p.flags, u1))
        × (load_sm_config files decode env u1 ≡ (ok p.sm_config, u2))
        × (made_manager p.sm_config p.flags u2 ≡ (ok p.manager, w'))
        × (p.tasks ≡ tasks_of platform parts cmd files env p.sm_config)
    unfolding serve_app
    serve_app_parts =
        let (flags, u1, e1, r1) = >>=-eq-ok (read_flags cmd files env) _ made in
        let (sm_config, u2, e2, r2) = >>=-eq-ok (load_sm_config files decode env) _ r1 in
        let (m, u3, e3, r3) = >>=-eq-ok (made_manager sm_config flags) _ r2 in
        (u1, u2, ground arith, ground arith, ground arith, ground arith)

    -- The manager of a program that has started can list the services, and has the settings of the
    -- program.
    pub serve_app-IsReady : IsMade p.manager
    serve_app-IsReady =
        let (u1, u2, e1, e2, e3, e4) = serve_app_parts in
        made_manager-IsReady p.sm_config p.flags u2 w' p.manager e3
