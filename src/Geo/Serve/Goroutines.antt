-- ===== src/Geo/Serve/Goroutines.antt =====
-- The checks of the peers in a monitor that has started, whose goroutines take turns.
use mathlib.Core.Path.{subst}
use drnavigator.Common.{
  String, Bool, true, false, ◌≡◌, ◌∙◌, sym, some, List, [], ◌∷◌, Result, ok, GoError, All,
  if◌then◌else◌,
}
use drnavigator.Geo.Peer.{Peer, PeerClient}
use drnavigator.Geo.Peers.{PeersMetrics}
use drnavigator.Geo.Peers.Turns.{Goroutine, Event, Running, run, spawn}
use drnavigator.Geo.Peers.Interleaved.{
  Tracks, AllTrack, peers_of, run-AllTrack, spawn-AllTrack, peers_of-spawn,
}
use drnavigator.Geo.Peers.Progress.{AllAfter, turns, run-AllAfter, spawn-AllAfter}
use drnavigator.Geo.Client.{Net, http_client}
use drnavigator.Geo.Config.{
  GeoConfig, AreDistinct, IsInitialised, get_config-IsInitialised, get_config-AreDistinct,
}
use drnavigator.Geo.Serve.{Environment, Platform, Monitor, serve_app}
use drnavigator.Geo.Serve.Started.{serve_app-get_config}

if-AreDistinct :
    {W : Type 0} (b : Bool) (ns : List (Peer W))
    → AreDistinct ns
    → AreDistinct (if b then ns else [])
if-AreDistinct true ns distinct = distinct
if-AreDistinct false ns distinct = tt

have_client :
    {W : Type 0} (parse : String → GoError) (client : PeerClient W) (b : Bool) (ns : List (Peer W))
    → All (IsInitialised parse client) ns
    → All (λ (n : Peer W). n.client ≡ some client) (if b then ns else [])
have_client parse client false ns all = tt
have_client parse client true [] all = tt
have_client parse client true (n ∷ ns) (is, rest) = (is.0, have_client parse client true ns rest)

tracked :
    {W : Type 0} (is_ip : String → Bool) (client : PeerClient W) (ts : List (Goroutine W))
    (g : PeersMetrics)
    → AllTrack is_ip client ts g
    → All (λ (t : Goroutine W). Tracks is_ip client t.peer t.phase g) ts
tracked is_ip client [] g all = tt
tracked is_ip client (t ∷ ts) g ((given, is), rest) = (is, tracked is_ip client ts g rest)

module _ {W R C : Type 0} (platform : Platform W R C) (env : Environment) (net : Net W)
    (parse_request_uri : String → GoError) (decode : String → Result String (GeoConfig W))
    (open_file : String → Result String String) (config_flag : Result String String) (w w' : W)
    (p : Monitor W C)
    (made : serve_app platform env net parse_request_uri decode open_file config_flag w
      ≡ (ok p, w')) where
  -- In a monitor that has started, the goroutines of the pinged peers may take turns in any order,
  -- while the network changes in between, and none dereferences nil. Then four turns of a goroutine
  -- make a round; after a round, the three series of its peer hold what that round measured,
  -- and during one, those that are set already hold what the present round measured.
  pub serve_app-run :
      (es : List (Event W)) (g : PeersMetrics) (now : W)
      → (s : Running W) × (run env.is_ip es
            (record { goroutines = spawn p.pinged; metrics = g; network = now })
          ≡ some s)
        × (peers_of s.goroutines ≡ p.pinged)
        × All
            (λ (t : Goroutine W). Tracks env.is_ip (http_client net) t.peer t.phase s.metrics)
            s.goroutines
        × AllAfter (turns es (λ i. 0)) s.goroutines
  serve_app-run es g now =
      let (path, cfg, level, flag, configured, logs, settings, port, pinged, bgp) =
        serve_app-get_config platform env net parse_request_uri decode open_file config_flag w w' p
          made in
      let on = p.settings.ping_peers in
      let distinct : AreDistinct p.pinged =
        subst (λ ns. AreDistinct ns) (sym pinged)
          (if-AreDistinct on cfg.peers (
            get_config-AreDistinct parse_request_uri (http_client net) decode (open_file path) cfg
              configured)) in
      let clients : All (λ (n : Peer W). n.client ≡ some (http_client net)) p.pinged =
        subst (λ ns. All (λ (n : Peer W). n.client ≡ some (http_client net)) ns) (sym pinged)
          (have_client parse_request_uri (http_client net) on cfg.peers (
            get_config-IsInitialised parse_request_uri (http_client net) decode (open_file path) cfg
              configured)) in
      let start : Running W = record { goroutines = spawn p.pinged; metrics = g; network = now } in
      let (s, ends, same, all) =
        run-AllTrack env.is_ip (http_client net) es start
          (subst (λ ns. AreDistinct ns) (sym (peers_of-spawn p.pinged)) distinct)
          (spawn-AllTrack env.is_ip (http_client net) p.pinged g clients) in
      (
        s,
        ends,
        same ∙ peers_of-spawn p.pinged,
        tracked env.is_ip (http_client net) s.goroutines s.metrics all,
        run-AllAfter env.is_ip es start s (λ i. 0) ends (spawn-AllAfter p.pinged),
      )
