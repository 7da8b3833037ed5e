-- ===== src/Geo/Serve/Started.antt =====
-- What holds of the monitor once it has started.
use mathlib.Core.Path.{subst}
use mathlib.Core.List.Memᴰ.{head, tail}
use drnavigator.Common.{
  ℕ, suc, String, Bool, true, false, ◌≡◌, ◌≢◌, ◌↔◌, refl, sym, Option, none, some, List, [], Result,
  ok, err, GoError, arith, Memᴰ, All, if◌then◌else◌,
}
use drnavigator.Common.Action.{>>=-eq-ok}
use drnavigator.Geo.Peer.{Peer}
use drnavigator.Geo.Peers.{PeersMetrics, Levels, ping_rounds}
use drnavigator.Geo.Peers.Measured.{IsMeasured, Shows, Keeps, ping_rounds-IsMeasured}
use drnavigator.Geo.Logger.{Level, simple_logger}
use drnavigator.Geo.Client.{Net, http_client}
use drnavigator.Geo.Config.{GeoConfig, get_config, IsInitialised, get_config-IsInitialised}
use drnavigator.Geo.Settings.{Settings, BgpSettings, read_settings, read_bgp}
use drnavigator.Geo.Serve.{
  exit_with, or_panic, Environment, Platform, Monitor, serve, serve_app, given, prefixed,
  register_metrics, read_ping, Ping, set_up, registered, bgp_peer, bgp_route, maybe_bgp, set_up_bgp,
  wants_bgp, get_client_set,
}

All-Memᴰ {ℓ κ} : {A : Type ℓ} (P : A → Type κ) {x : A} {xs : List A} → All P xs → Memᴰ x xs → P x
All-Memᴰ P all (head same) = subst P (sym same) all.0
All-Memᴰ P all (tail m) = All-Memᴰ P all.1 m

if-Memᴰ : {A : Type 0} (b : Bool) (xs : List A) (x : A) → Memᴰ x (if b then xs else []) → Memᴰ x xs
if-Memᴰ true xs x m = m
if-Memᴰ false xs x m = elim m [ ]

or_panic-eq-ok :
    {W A : Type 0} (r : Result String A) (w w' : W) (a : A) → or_panic r w ≡ (ok a, w') → r ≡ ok a
or_panic-eq-ok (ok x) w w' a e = ground arith
or_panic-eq-ok (err x) w w' a e = absurd (ground arith)

module _ {W R C : Type 0} (platform : Platform W R C) (env : Environment) where
  abbrev pub settings_read : Result String Settings
  settings_read = read_settings env.lookup env.is_ip env.parse_bool env.atoi

  set_up_bgp-read_bgp :
      (w w' : W) {b : BgpSettings} {c : C}
      → set_up_bgp platform env w ≡ (ok (b, c), w')
      → read_bgp env.lookup env.is_ip env.parse_bool env.atoi ≡ ok b
  unfolding set_up_bgp
  set_up_bgp-read_bgp w w' {b} {c} made =
      let (t1, u1, e1, r1) =
        >>=-eq-ok
          (registered "Can't regist bgp_peer prometheus metric: " (platform.register bgp_peer)) _
          made in
      let (t2, u2, e2, r2) =
        >>=-eq-ok
          (registered "Can't regist bgp_route prometheus metric: " (platform.register bgp_route)) _
          r1 in
      let (b', u3, e3, r3) =
        >>=-eq-ok (given (read_bgp env.lookup env.is_ip env.parse_bool env.atoi)) _ r2 in
      let (c', u4, e4, r4) =
        >>=-eq-ok (prefixed "Can't get clientSet: " (get_client_set platform env)) _ r3 in
      ground arith

  -- A monitor that is set up.
  abbrev IsSetUp : GeoConfig W → Monitor W C → Type 0
  IsSetUp cfg p =
      (settings_read ≡ ok p.settings)
      × (p.port ≡ cfg.port)
      × (p.pinged ≡ (if p.settings.ping_peers then cfg.peers else []))
      × ((p.settings.bgp ≢ none) ↔ (p.bgp_client ≢ none))

  maybe_bgp-none :
      (u w' : W) → maybe_bgp platform env u ≡ (ok none, w') → wants_bgp platform env ≡ false
  unfolding maybe_bgp
  maybe_bgp-none u w' made = ground arith

  maybe_bgp-some :
      (u w' : W) (b : BgpSettings) (c : C)
      → maybe_bgp platform env u ≡ (ok (some (b, c)), w')
      → (wants_bgp platform env ≡ true)
        × (read_bgp env.lookup env.is_ip env.parse_bool env.atoi ≡ ok b)
  unfolding maybe_bgp
  maybe_bgp-some u w' b c made =
      let set : set_up_bgp platform env u ≡ (ok (b, c), w') = ground arith in
      (ground arith, set_up_bgp-read_bgp u w' set)

  set_up-IsSetUp :
      (cfg : GeoConfig W) (ping : Ping) (bgp : Option (BgpSettings × C)) (u w' : W)
      → read_ping platform env ≡ ok ping
      → maybe_bgp platform env u ≡ (ok bgp, w')
      → IsSetUp cfg (set_up platform env cfg ping bgp)
  unfolding set_up read_ping maybe_bgp read_settings
  set_up-IsSetUp cfg ping none u w' read made =
      let off = maybe_bgp-none u w' made in
      (ground arith, refl, refl, (λ h e. h refl, λ h e. h refl))
  set_up-IsSetUp cfg ping (some (b, c)) u w' read made =
      let (on, works) = maybe_bgp-some u w' b c made in
      (ground arith, refl, refl, (λ h e. ground arith, λ h e. ground arith))

  serve-IsSetUp :
      (cfg : GeoConfig W) (w w' : W) (p : Monitor W C)
      → serve platform env cfg w ≡ (ok p, w')
      → IsSetUp cfg p
  unfolding serve
  serve-IsSetUp cfg w w' p made =
      let (t, u1, e1, r1) = >>=-eq-ok (register_metrics platform env) _ made in
      let (ping, u2, e2, r2) = >>=-eq-ok (given (read_ping platform env)) _ r1 in
      let (bgp, u3, e3, r3) = >>=-eq-ok (maybe_bgp platform env) _ r2 in
      let same : set_up platform env cfg ping bgp ≡ p = ground arith in
      subst (λ q. IsSetUp cfg q) same (set_up-IsSetUp cfg ping bgp u2 u3 (ground arith) e3)

  module _ (net : Net W) (parse_request_uri : String → GoError)
      (decode : String → Result String (GeoConfig W)) (open_file : String → Result String String)
      (config_flag : Result String String) (w w' : W) (p : Monitor W C)
      (made : serve_app platform env net parse_request_uri decode open_file config_flag w
        ≡ (ok p, w')) where
    -- A monitor that has started has read its configuration from the file that the flag names, with
    -- the settings of the environment and a log level that PAAS_DEBUG allows. It listens at the port of the configuration, pings all of its
    -- peers or, if PAAS_PING_PEERS says so, none of them, and has a client for BGP exactly if it has
    -- settings for it.
    pub serve_app-get_config :
        (path : String) × (cfg : GeoConfig W) × (level : Level) × (config_flag ≡ ok path)
        × (get_config parse_request_uri (http_client net) decode (open_file path) ≡ ok cfg)
        × (simple_logger env.lookup env.parse_bool env.build_logger ≡ ok level)
        × (settings_read ≡ ok p.settings)
        × (p.port ≡ cfg.port)
        × (p.pinged ≡ (if p.settings.ping_peers then cfg.peers else []))
        × ((p.settings.bgp ≢ none) ↔ (p.bgp_client ≢ none))
    unfolding serve_app
    serve_app-get_config =
        let (path, u1, e1, r1) =
          >>=-eq-ok (exit_with "error getting configuration file: " (given config_flag)) _ made in
        let (cfg, u2, e2, r2) =
          >>=-eq-ok
            (exit_with "error getting configuration file: "
              (given (get_config parse_request_uri (http_client net) decode (open_file path))))
            _ r1 in
        let (level, u3, e3, r3) =
          >>=-eq-ok (or_panic (simple_logger env.lookup env.parse_bool env.build_logger)) _ r2 in
        let served : serve platform env cfg u3 ≡ (ok p, w') = ground arith in
        let (settings, port, peers, bgp) = serve-IsSetUp cfg u3 w' p served in
        (
          path,
          cfg,
          level,
          ground arith,
          ground arith,
          or_panic-eq-ok _ u2 u3 level e3,
          settings,
          port,
          peers,
          bgp,
        )

    -- Each peer that a monitor pings has the client of the program; so any number of rounds ends
    -- without a dereference of nil, and after the last of them the three series of the peer hold what
    -- that round measured, and the series of other peers are as they were.
    pub serve_app-ping_rounds :
        (n : Peer W)
        → Memᴰ n p.pinged
        → (k : ℕ) (g : PeersMetrics) (now : W)
        → (g' : PeersMetrics) × (later : W) × (before : W) × (l : Levels) × (ping_rounds env.is_ip
              (suc k)
              n
              g
              now
            ≡ some (g', later))
          × IsMeasured env.is_ip (http_client net) n before l
          × Shows env.is_ip n l g'
          × Keeps env.is_ip n g g'
    serve_app-ping_rounds n pinged k g now =
        let (path, cfg, level, flag, configured, logs, settings, port, peers, bgp) =
          serve_app-get_config in
        let all =
          get_config-IsInitialised parse_request_uri (http_client net) decode (open_file path) cfg
            configured in
        let listed =
          if-Memᴰ p.settings.ping_peers cfg.peers n (subst (λ l. Memᴰ n l) peers pinged) in
        let (has_client, protocol, svc, pod) =
          All-Memᴰ (IsInitialised parse_request_uri (http_client net)) all listed in
        ping_rounds-IsMeasured env.is_ip k (http_client net) n g now has_client
