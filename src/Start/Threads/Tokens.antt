-- ===== src/Start/Threads/Tokens.antt =====
-- Which tokens the requests of the program bear, while the watcher of the token takes turns.
use mathlib.Core.Path.{subst}
use drnavigator.Common.{
  String, true, false, ◌≡◌, ◌⊎◌, refl, sym, some, Result, ok, err, List, [], ◌∷◌, All, arith, inl,
  inr, Bool-cases, Result-cases,
}
use drnavigator.Common.Num.{ℤ}
use drnavigator.Config.{Config}
use drnavigator.Model.{SmConfig, SmRequest}
use drnavigator.Utils.{Files}
use drnavigator.Http.{Request, HttpClient, bearer}
use drnavigator.Cluster.{KubeClient, CrClient, new_cr_client}
use drnavigator.Token.{
  Delivery, event, watch_error, Outside, TokenWatcher, read_token, watch, handle_event, get_token,
  validate_token,
}
use drnavigator.Token.Watch.{
  WasRead, read_token-WasRead, watch_keeps, handle_event-fresh, handle_event_fails,
}
use drnavigator.Token.Validate.{validate_token-Keeps}
use drnavigator.Manager.{CrManager}
use drnavigator.Manager.Setup.{TlsConfig, Codecs, new_cr_manager-build, build}
use drnavigator.Manager.Collect.{Stop}
use drnavigator.Manager.Keeps.{Keeps, ClientsKeep, BearsToken}
use drnavigator.App.{Response, KeyAuth}
use drnavigator.App.Auth.{IsKeyAuth}
use drnavigator.App.Server.{Endpoint, Call}
use drnavigator.App.Keeps.{handle-Keeps}
use drnavigator.Start.Threads.{
  Phase, not_started, reads, adds_watch, listens, stopped, Turn, goes_on, receives, elsewhere,
  Machine, after, closing, hear, take_turn, take_turns, interrupted, shared, shared_client,
  shared_kube, shared_outside, held_token, shared_manager, serve_calls,
}

module _ {V : Type 0} (out : Outside V) (env : Config) (sm_config : SmConfig)
    (token_path first : String) where
  -- The text is what the file held in some state, or what was held at first.
  abbrev pub IsHeld : String → Type 0
  IsHeld token = WasRead out env sm_config token_path token ⊎ (token ≡ first)

  -- A token that the program may send: in the testing mode, the token of that; otherwise one that
  -- was held.
  abbrev pub IsKnown : String → Type 0
  IsKnown token =
      ((sm_config.testing.enabled ≡ true) × (token ≡ sm_config.testing.token))
      ⊎ ((sm_config.testing.enabled ≡ false) × IsHeld token)

  -- The request bears such a token if the program authenticates itself, and none otherwise.
  abbrev pub IsHonest : Request → Type 0
  IsHonest req =
      (token : String) × IsKnown token × (req.authorization ≡ bearer token env.back_http_auth)

  abbrev IsSound : Machine V → Type 0
  IsSound s = IsHeld s.watcher.current_token × All IsHonest s.sent

  read_token-IsHeld :
      (tw : TokenWatcher V)
      → IsHeld tw.current_token
      → IsHeld (read_token out env sm_config token_path tw).1.current_token
  unfolding read_token
  read_token-IsHeld tw h = elim (Result-cases (read_token out env sm_config token_path tw).0) [
    | inl (e, fails) ↦ subst (λ t. IsHeld t) (ground arith) h
    | inr (t, works) ↦ inl (read_token-WasRead out env sm_config token_path tw (ground arith))
  ]

  handle_event-IsHeld :
      (ev : drnavigator.Token.Event) (tw : TokenWatcher V)
      → IsHeld tw.current_token
      → IsHeld (handle_event out env sm_config token_path ev tw).1.current_token
  handle_event-IsHeld ev tw h =
      elim (Result-cases (handle_event out env sm_config token_path ev tw).0) [
        | inl (e, fails) ↦
            subst (λ t. IsHeld t)
              (sym (handle_event_fails out env sm_config token_path ev tw e fails)) h
        | inr (t, works) ↦ elim (handle_event-fresh out env sm_config token_path ev tw works) [
          | inl (touched, read) ↦ inl read
          | inr (idle, same) ↦ subst (λ (u : TokenWatcher V). IsHeld u.current_token) (sym same) h
        ]
      ]

  after-IsSound :
      (next : Phase) (p : Result String (Unit {0}) × TokenWatcher V) (s : Machine V)
      → IsHeld p.1.current_token
      → IsSound s
      → IsSound (after out env sm_config token_path next p s)
  after-IsSound next (ok t, tw) s held (h, sent) = (held, sent)
  after-IsSound next (err e, tw) s held (h, sent) = (held, sent)

  closing-IsSound :
      (p : Result String (Unit {0}) × TokenWatcher V) (s : Machine V)
      → IsHeld p.1.current_token
      → IsSound s
      → IsSound (closing out env sm_config token_path p s)
  closing-IsSound (ok t, tw) s held (h, sent) = (held, sent)
  closing-IsSound (err e, tw) s held (h, sent) = (held, sent)

  hear-IsSound :
      (d : Delivery) (s : Machine V) → IsSound s → IsSound (hear out env sm_config token_path d s)
  unfolding hear
  hear-IsSound (watch_error e) s h = h
  hear-IsSound (event ev) s h =
      closing-IsSound (handle_event out env sm_config token_path ev s.watcher) s
        (handle_event-IsHeld ev s.watcher h.0) h

  goes_on-IsSound :
      (phase : Phase) (s : Machine V)
      → s.phase ≡ phase
      → IsSound s
      → IsSound (take_turn out env sm_config token_path goes_on s)
  unfolding take_turn
  goes_on-IsSound not_started s here h = rw (here, take_turn) h
  goes_on-IsSound reads s here h =
      rw (here, take_turn) (after-IsSound adds_watch _ s (read_token-IsHeld s.watcher h.0) h)
  goes_on-IsSound adds_watch s here h =
      rw (here, take_turn)
        (after-IsSound listens _ s
          (subst (λ t. IsHeld t)
            (sym (watch_keeps out env sm_config token_path token_path s.watcher)) h.0)
          h)
  goes_on-IsSound listens s here h = rw (here, take_turn) h
  goes_on-IsSound (stopped e) s here h = rw (here, take_turn) h

  receives-IsSound :
      (phase : Phase) (d : Delivery) (s : Machine V)
      → s.phase ≡ phase
      → IsSound s
      → IsSound (take_turn out env sm_config token_path (receives d) s)
  unfolding take_turn
  receives-IsSound not_started d s here h = rw (here, take_turn) h
  receives-IsSound reads d s here h = rw (here, take_turn) h
  receives-IsSound adds_watch d s here h = rw (here, take_turn) h
  receives-IsSound listens d s here h = rw (here, take_turn) (hear-IsSound d s h)
  receives-IsSound (stopped e) d s here h = rw (here, take_turn) h

  take_turns-IsSound :
      (ts : List (Turn V)) (s : Machine V)
      → IsSound s
      → IsSound (take_turns out env sm_config token_path ts s)
  unfolding take_turns take_turn
  take_turns-IsSound [] s h = h
  take_turns-IsSound (goes_on ∷ ts) s h = take_turns-IsSound ts _ (goes_on-IsSound s.phase s refl h)
  take_turns-IsSound (receives d ∷ ts) s h =
      take_turns-IsSound ts _ (receives-IsSound s.phase d s refl h)
  take_turns-IsSound (elsewhere f ∷ ts) s h = take_turns-IsSound ts _ h

  interrupted-IsSound :
      (schedule : List (List (Turn V))) (s : Machine V)
      → s.schedule ≡ schedule
      → IsSound s
      → IsSound (interrupted out env sm_config token_path s)
  unfolding interrupted
  interrupted-IsSound [] s here h = rw (here, interrupted) h
  interrupted-IsSound (ts ∷ later) s here h =
      rw (here, interrupted) (take_turns-IsSound ts (record s { schedule = later }) h)

  shared-Keeps :
      {A : Type 0} (step : V → A × V) → Keeps IsSound (shared out env sm_config token_path step)
  unfolding shared
  shared-Keeps step s h = interrupted-IsSound s.schedule s refl h

  shared_client-Keeps :
      (client : HttpClient V) (req : Request)
      → IsHonest req
      → Keeps IsSound ((shared_client out env sm_config token_path client).do_request req)
  unfolding shared_client
  shared_client-Keeps client req honest s h =
      let (held, sent) = shared-Keeps (client.do_request req) s h in (held, (honest, sent))

  -- The token that the manager reads in a sound state may be sent.
  held_token-IsKnown :
      (s : Machine V) → IsSound s → IsKnown (held_token out env sm_config token_path s)
  unfolding get_token
  held_token-IsKnown s h = elim (Bool-cases sm_config.testing.enabled) [
    | inl on ↦ inl (on, rw (on, get_token) refl)
    | inr off ↦ inr (off, subst (λ t. IsHeld t) (ground arith) h.0)
  ]

  serve_calls-Keeps :
      (key_auth : KeyAuth (Machine V))
      → IsKeyAuth key_auth
      → (decode : String → Result String SmRequest) (page : V → Result Stop Response × V)
        (m : CrManager (Machine V))
      → ClientsKeep IsSound m
      → (calls : List (Endpoint × Call)) (s : Machine V) → IsSound s
      → IsSound (serve_calls out env sm_config token_path key_auth decode page m calls s)
  unfolding serve_calls
  serve_calls-Keeps key_auth law decode page m clients [] s h = h
  serve_calls-Keeps key_auth law decode page m clients ((endpoint, call) ∷ calls) s h =
      serve_calls-Keeps key_auth law decode page m clients calls _ (
        handle-Keeps IsSound key_auth law env
          (validate_token (shared_outside out env sm_config token_path) env sm_config token_path)
          (λ key.
            validate_token-Keeps (shared_outside out env sm_config token_path) env sm_config
              token_path IsSound key (shared-Keeps (out.review key)))
          decode (shared out env sm_config token_path page) m clients (shared-Keeps page) endpoint
          call s h)

  module _ (files : Files) (make_client : TlsConfig → ℤ → HttpClient V) (codecs : Codecs)
      (kube : KubeClient V) where
    abbrev made : TlsConfig → CrManager (Machine V)
    made tls =
        build files
          (λ tls timeout. shared_client out env sm_config token_path (make_client tls timeout))
          codecs env sm_config
          (some (new_cr_client (shared_kube out env sm_config token_path kube)))
          (held_token out env sm_config token_path) tls

    only_client :
        (tls : TlsConfig) (client : CrClient (Machine V))
        → (made tls).cr_client ≡ some client
        → new_cr_client (shared_kube out env sm_config token_path kube) ≡ client
    only_client tls client given = elim (Bool-cases sm_config.testing.enabled) [
      | inl on ↦ absurd (ground arith)
      | inr off ↦ ground arith
    ]

    bears-IsHonest :
        (tls : TlsConfig) (req : Request) → BearsToken IsSound (made tls) req → IsHonest req
    bears-IsHonest tls req (now, sound, bears) =
        (held_token out env sm_config token_path now, held_token-IsKnown now sound, bears)

    built-ClientsKeep : (tls : TlsConfig) → ClientsKeep IsSound (made tls)
    built-ClientsKeep tls = record {
      lists_legacy = λ client given.
          subst (λ (c : CrClient (Machine V)). Keeps IsSound c.list_legacy)
            (only_client tls client given) (shared-Keeps kube.list_legacy);
      lists = λ client given.
          subst (λ (c : CrClient (Machine V)). Keeps IsSound c.list) (only_client tls client given)
            (shared-Keeps kube.list_site_managers);
      gets = λ req bears.
          shared_client-Keeps (make_client tls env.get_request_timeout) req
            (bears-IsHonest tls req bears);
      posts = λ req bears.
          shared_client-Keeps (make_client tls env.post_request_timeout) req
            (bears-IsHonest tls req bears);
    }

    -- While the watcher of the token takes turns before any step of the main API, each request that
    -- the API sends to a service bears no token if the program does not authenticate itself. If it does,
    -- the token is that of the testing mode, in that mode; otherwise it is a text that the token's file
    -- held, or the token that was held before the first call.
    pub serve_calls-IsHonest :
        (m : CrManager (Machine V))
        → shared_manager out env sm_config token_path files make_client codecs kube ≡ ok m
        → (key_auth : KeyAuth (Machine V)) → IsKeyAuth key_auth
        → (decode : String → Result String SmRequest) (page : V → Result Stop Response × V)
          (calls : List (Endpoint × Call)) (s : Machine V)
        → s.watcher.current_token ≡ first
        → s.sent ≡ []
        → All IsHonest
            (serve_calls out env sm_config token_path key_auth decode page m calls s).sent
    serve_calls-IsHonest m given key_auth law decode page calls s start nothing =
        let (tls, same) =
          new_cr_manager-build files
            (λ tls timeout. shared_client out env sm_config token_path (make_client tls timeout))
            codecs env sm_config
            (some (new_cr_client (shared_kube out env sm_config token_path kube)))
            (held_token out env sm_config token_path) m given in
        (serve_calls-Keeps key_auth law decode page m
          (subst (λ n. ClientsKeep IsSound n) (sym same) (built-ClientsKeep tls)) calls s
          (inr start, subst (λ l. All IsHonest l) (sym nothing) tt)).1
