-- ===== src/Start/Modes.antt =====
-- What is started, and what the testing mode leaves out.
use mathlib.Core.List.Memᴰ.{head, tail}
use drnavigator.Common.{
  String, Bool, true, false, not, ◌≡◌, ◌↔◌, none, some, Result, ok, arith, inl, inr, refl, Memᴰ, [],
  ◌∷◌, ◌++◌, ◌&&◌, if◌then◌else◌, Bool-cases,
}
use drnavigator.Config.{Config}
use drnavigator.Model.{SmConfig}
use drnavigator.Utils.{Files}
use drnavigator.Start.{
  CommandLine, Flags, Platform, Parts, Program, token_watcher, main_server, runtime_manager,
  serve_app, tasks_of, read_flags, load_sm_config, make_manager,
}
use drnavigator.Start.Ready.{serve_app_parts, made_manager}
use drnavigator.Manager.{CrManager, get_all_services}
use drnavigator.Manager.Setup.{new_cr_manager}

tasks-Memᴰ :
    (testing auth : Bool)
    → let tasks =
        (if not testing && auth then token_watcher ∷ [] else [])
        ++ (main_server ∷ (if testing then [] else runtime_manager ∷ [])) in
      Memᴰ main_server tasks
      × (Memᴰ token_watcher tasks ↔ ((testing ≡ false) × (auth ≡ true)))
      × (Memᴰ runtime_manager tasks ↔ (testing ≡ false))
tasks-Memᴰ true auth = (
  head refl,
  (
    λ h. elim h [ head e ↦ absurd (ground arith) | tail t ↦ elim t [ ] ],
    λ h. absurd (ground arith),
  ),
  (
    λ h. elim h [ head e ↦ absurd (ground arith) | tail t ↦ elim t [ ] ],
    λ h. absurd (ground arith),
  ),
)
tasks-Memᴰ false true = (
  tail (head refl),
  (λ h. (refl, refl), λ h. head refl),
  (λ h. refl, λ h. tail (tail (head refl))),
)
tasks-Memᴰ false false = (
  head refl,
  (
    λ h. elim h [
      | head e ↦ absurd (ground arith)
      | tail t ↦ elim t [ head e ↦ absurd (ground arith) | tail u ↦ elim u [ ] ]
    ],
    λ h. absurd (ground arith),
  ),
  (λ h. refl, λ h. tail (head refl)),
)

module _ {W R : Type 0} (platform : Platform W R) (parts : Parts W) (cmd : CommandLine)
    (files : Files) (env : Config) (sm_config : SmConfig) where
  tasks_of-Memᴰ :
      Memᴰ main_server (tasks_of platform parts cmd files env sm_config)
      × (Memᴰ token_watcher (tasks_of platform parts cmd files env sm_config)
          ↔ ((sm_config.testing.enabled ≡ false) × (env.back_http_auth ≡ true)))
      × (Memᴰ runtime_manager (tasks_of platform parts cmd files env sm_config)
          ↔ (sm_config.testing.enabled ≡ false))
  unfolding tasks_of
  tasks_of-Memᴰ = elim (Bool-cases sm_config.testing.enabled) [
    | inl on ↦ ground (arith, tasks-Memᴰ true env.back_http_auth)
    | inr live ↦ ground (arith, tasks-Memᴰ false env.back_http_auth)
  ]

  tasks_of-testing :
      sm_config.testing.enabled ≡ true
      → tasks_of platform parts cmd files env sm_config ≡ main_server ∷ []
  unfolding tasks_of
  tasks_of-testing on = ground arith

  made_manager-testing :
      (flags : Flags) (w w' : W) (m : CrManager W)
      → sm_config.testing.enabled ≡ true
      → made_manager platform parts cmd files env sm_config flags w ≡ (ok m, w')
      → (w' ≡ (platform.new_watcher w).1) × (m.cr_client ≡ none) × (m.sm_config ≡ some sm_config)
  unfolding make_manager new_cr_manager
  made_manager-testing flags w w' m on made = ground arith

get_all_services-testing :
    {W : Type 0} (m : CrManager W) (sm_config : SmConfig) (u : W)
    → sm_config.testing.enabled ≡ true
    → m.sm_config ≡ some sm_config
    → get_all_services m u ≡ (ok sm_config.testing.sm_dict, u)
unfolding get_all_services
get_all_services-testing m sm_config u on given = ground arith

module _ {W : Type 0} (files : Files) (env : Config) (w : W) {w' : W} where
  read_flags_world :
      (cmd : CommandLine) {f : Flags} → read_flags cmd files env w ≡ (ok f, w') → w' ≡ w
  unfolding read_flags
  read_flags_world cmd read = ground arith

  load_sm_config_world :
      (decode : String → Result String SmConfig) {c : SmConfig}
      → load_sm_config files decode env w ≡ (ok c, w')
      → w' ≡ w
  unfolding load_sm_config
  load_sm_config_world decode read = ground arith

module _ {W R : Type 0} (platform : Platform W R) (parts : Parts W) (cmd : CommandLine)
    (files : Files) (env : Config) (decode : String → Result String SmConfig) (w w' : W)
    (p : Program W) where
  -- A program that has started serves the main API. It watches the token exactly when it is not in
  -- the testing mode and authenticates itself to services, and runs the manager of controller-runtime
  -- exactly when it is not in the testing mode.
  pub serve_app-Memᴰ :
      serve_app platform parts cmd files env decode w ≡ (ok p, w')
      → Memᴰ main_server p.tasks
        × (Memᴰ token_watcher p.tasks
            ↔ ((p.sm_config.testing.enabled ≡ false) × (env.back_http_auth ≡ true)))
        × (Memᴰ runtime_manager p.tasks ↔ (p.sm_config.testing.enabled ≡ false))
  serve_app-Memᴰ made =
      let (u1, u2, e1, e2, e3, same) =
        serve_app_parts platform parts cmd files env decode w w' p made in
      rw same (tasks_of-Memᴰ platform parts cmd files env p.sm_config)

  -- In the testing mode the set-up, up to the start of the goroutines, does nothing outside but make a
  -- watcher of files, to which it adds no path. The main API is all that is then started: neither the
  -- goroutine that watches the token's file nor the manager of controller-runtime is. The manager of
  -- the resources has no client for the cluster, and lists the services of the configuration without
  -- a step outside.
  pub serve_app-testing :
      serve_app platform parts cmd files env decode w ≡ (ok p, w')
      → p.sm_config.testing.enabled ≡ true
      → (w' ≡ (platform.new_watcher w).1)
        × (p.tasks ≡ main_server ∷ [])
        × (p.manager.cr_client ≡ none)
        × ((u : W) → get_all_services p.manager u ≡ (ok p.sm_config.testing.sm_dict, u))
  serve_app-testing made on =
      let (u1, u2, e1, e2, e3, same) =
        serve_app_parts platform parts cmd files env decode w w' p made in
      let e1' = read_flags_world files env w cmd e1 in
      let e2' = load_sm_config_world files env u1 decode e2 in
      let (left, alone, given) =
        made_manager-testing platform parts cmd files env p.sm_config p.flags u2 w' p.manager on
          e3 in
      (
        rw (← e1', ← e2') left,
        rw same (tasks_of-testing platform parts cmd files env p.sm_config on),
        alone,
        λ u. get_all_services-testing p.manager p.sm_config u on given,
      )
