-- ===== src/Start/Threads.antt =====
-- site-manager/cmd/main.go: the goroutines of the token watcher and of the main API side by side. A
-- request to a service, a list of the resources and a review of a token is one step of the main API;
-- before each such step the watcher, and what else there is, may take any turns.
pub mod Tokens
pub mod Alone
use drnavigator.Common.{String, some, Result, ok, err, List, [], ◌∷◌}
use drnavigator.Common.Num.{ℤ}
use drnavigator.Config.{Config}
use drnavigator.Model.{SmConfig, SmRequest}
use drnavigator.Utils.{Files}
use drnavigator.Http.{Request, HttpClient}
use drnavigator.Cluster.{KubeClient, new_cr_client}
use drnavigator.Token.{
  Event, Delivery, event, watch_error, Outside, TokenWatcher, read_token, watch, handle_event,
  get_token, validate_token,
}
use drnavigator.Manager.{CrManager}
use drnavigator.Manager.Setup.{TlsConfig, Codecs, new_cr_manager}
use drnavigator.Manager.Collect.{Stop}
use drnavigator.App.{Response, KeyAuth}
use drnavigator.App.Server.{Endpoint, Call, handle}

-- Where the goroutine of the watcher is in `Start`.
pub data Phase : Type 0 where
  not_started : Phase
  reads : Phase
  adds_watch : Phase
  listens : Phase
  stopped : String → Phase

-- A turn that is taken beside the main API: the watcher goes on, it receives something, or the world
-- outside of the program changes.
pub data Turn (V : Type 0) : Type 0 where
  goes_on : Turn V
  receives : Delivery → Turn V
  elsewhere : (V → V) → Turn V

-- The watcher and its goroutine, the turns that are to be taken before each of the next steps, and
-- the requests that were sent, the last one first.
pub record Machine (V : Type 0) : Type 0 where
  pub watcher : TokenWatcher V
  pub phase : Phase
  pub schedule : List (List (Turn V))
  pub sent : List Request

module _ {V : Type 0} (out : Outside V) (env : Config) (sm_config : SmConfig)
    (token_path : String) where
  -- What the goroutine does after a step of the watcher.
  abbrev pub after : Phase → Result String (Unit {0}) × TokenWatcher V → Machine V → Machine V
  after next (ok t, tw) s = record s { watcher = tw; phase = next }
  after next (err e, tw) s = record s { watcher = tw; phase = stopped e }

  -- An error of an event ends the goroutine, which closes the watcher before.
  abbrev pub closing : Result String (Unit {0}) × TokenWatcher V → Machine V → Machine V
  closing (ok t, tw) s = record s { watcher = tw }
  closing (err e, tw) s = record s {
    watcher = record tw { world = out.close tw.world };
    phase = stopped e;
  }

  unfoldable pub hear : Delivery → Machine V → Machine V
  hear (watch_error e) s = s
  hear (event ev) s = closing (handle_event out env sm_config token_path ev s.watcher) s

  unfoldable pub take_turn : Turn V → Machine V → Machine V
  take_turn goes_on s = elim s.phase [
    | reads ↦ after adds_watch (read_token out env sm_config token_path s.watcher) s
    | adds_watch ↦ after listens (watch out env sm_config token_path token_path s.watcher) s
    | _ ↦ s
  ]
  take_turn (receives d) s = elim s.phase [ listens ↦ hear d s | _ ↦ s ]
  take_turn (elsewhere f) s = record s {
    watcher = record (s.watcher) { world = f s.watcher.world };
  }

  unfoldable pub take_turns : List (Turn V) → Machine V → Machine V
  take_turns [] s = s
  take_turns (t ∷ ts) s = take_turns ts (take_turn t s)

  -- The turns before the next step.
  unfoldable pub interrupted : Machine V → Machine V
  interrupted s = elim s.schedule [
    | [] ↦ s
    | ts ∷ later ↦ take_turns ts (record s { schedule = later })
  ]

  -- A step of the main API on the world that it shares with the watcher.
  unfoldable pub shared : {A : Type 0} → (V → A × V) → Machine V → A × Machine V
  shared step s =
      let s1 = interrupted s in
      let (a, v) = step s1.watcher.world in
      (a, record s1 { watcher = record (s1.watcher) { world = v } })

  -- A request is also noted.
  unfoldable pub shared_client : HttpClient V → HttpClient (Machine V)
  shared_client client = record {
    check_url = client.check_url;
    do_request = λ req s.
        (let (answer, s1) = shared (client.do_request req) s in
          (answer, record s1 { sent = req ∷ s1.sent }));
  }

  abbrev pub shared_kube : KubeClient V → KubeClient (Machine V)
  shared_kube kube = record {
    list_legacy = shared kube.list_legacy;
    get_legacy = λ namespace name. shared (kube.get_legacy namespace name);
    update_legacy_status = λ cr. shared (kube.update_legacy_status cr);
    list_site_managers = shared kube.list_site_managers;
    get_site_manager = λ namespace name. shared (kube.get_site_manager namespace name);
    update_site_manager_status = λ sm. shared (kube.update_site_manager_status sm);
  }

  abbrev pub shared_outside : Outside (Machine V)
  shared_outside = record {
    read_file = λ path. shared (out.read_file path);
    add_watch = λ path. shared (out.add_watch path);
    close = λ s. record s { watcher = record (s.watcher) { world = out.close s.watcher.world } };
    review = λ token. shared (out.review token);
  }

  -- The token that the manager reads.
  abbrev pub held_token : Machine V → String
  held_token s =
      get_token shared_outside env sm_config token_path
        (record { current_token = s.watcher.current_token; world = s })

  -- The manager of the program, whose clients share the world with the watcher.
  abbrev pub shared_manager :
      Files
      → (TlsConfig → ℤ → HttpClient V)
      → Codecs
      → KubeClient V
      → Result String (CrManager (Machine V))
  shared_manager files make_client codecs kube =
      new_cr_manager files (λ tls timeout. shared_client (make_client tls timeout)) codecs env
        sm_config (some (new_cr_client (shared_kube kube))) held_token

  -- The main API answers calls, one after the other.
  unfoldable pub serve_calls :
      KeyAuth (Machine V)
      → (String → Result String SmRequest)
      → (V → Result Stop Response × V)
      → CrManager (Machine V)
      → List (Endpoint × Call)
      → Machine V
      → Machine V
  serve_calls key_auth decode page m [] s = s
  serve_calls key_auth decode page m ((endpoint, call) ∷ calls) s =
      let (r, s1) =
        handle key_auth env (validate_token shared_outside env sm_config token_path) decode
          (shared page) m endpoint call s in
      serve_calls key_auth decode page m calls s1
