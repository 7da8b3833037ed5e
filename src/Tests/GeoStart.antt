-- ===== src/Tests/GeoStart.antt =====
-- The start of the monitor of the other clusters, and its loop over BGP.
use drnavigator.Common.{
  ℕ, suc, String, true, ◌≡◌, ◌≢◌, ◌⊎◌, ◌↔◌, refl, none, some, [], ◌∷◌, Result, ok, err, List, All,
  if◌then◌else◌, ◌==◌,
}
use drnavigator.Common.Num.{pos, ◌==◌ as nat_eq}
use drnavigator.Geo.Peer.{Peer}
use drnavigator.Geo.Peers.Turns.{Goroutine, Event, turn, outside, Running, run, spawn}
use drnavigator.Geo.Peers.Interleaved.{Tracks, peers_of}
use drnavigator.Geo.Peers.Progress.{AllAfter, turns}
use drnavigator.Geo.Serve.Goroutines.{serve_app-run}
use drnavigator.Geo.Peers.{PeersMetrics, Levels}
use drnavigator.Geo.Logger.{Level, simple_logger}
use drnavigator.Geo.Serve.{Failure, panics}
use drnavigator.Geo.Client.{Net, connect, dial_target, http_client}
use drnavigator.Geo.Config.{GeoConfig, get_config}
use drnavigator.Geo.Settings.{Settings}
use drnavigator.Geo.Serve.{Environment, Platform, Monitor, serve_app, bgp_rounds}
use drnavigator.Geo.Serve.Started.{settings_read, serve_app-get_config}
use drnavigator.Geo.Serve.Rounds.{ShowsListed, bgp_rounds-ShowsListed}
use drnavigator.Tests.GeoRuns.{
  is_ip, raw, raw_peer, parse_request_uri, environment, to_bool, to_int, metrics, stale, nodes,
  clock,
}

abbrev env : Environment
env = record {
  lookup = environment;
  is_ip = is_ip;
  parse_bool = to_bool;
  atoi = to_int;
  build_logger = λ level. none;
}

-- Calico clients are numbers; the second listing of the statuses fails.
abbrev platform : Platform ℕ (Unit {0}) ℕ
platform = record {
  register = λ x w. (none, suc w);
  build_config = λ path w. (ok tt, suc w);
  in_cluster_config = λ w. (ok tt, suc w);
  new_for_config = λ config w. (ok w, suc w);
  list_statuses = λ client w. (if nat_eq w 0 then ok nodes else err "timeout", suc w);
}

abbrev net : Net ℕ
net = record {
  lookup_ip = λ name w. (ok ("10.0.0.1" ∷ []), suc w);
  hostname = λ url. ok "pgm.left";
  split = λ address. "pgm.left" ∷ "8080" ∷ [];
  get = λ dialer url w. (ok (ok "10.1.0.1"), suc w);
}

-- The port is kept, and the name becomes the IP.
test_dial_target :
    dial_target net "http://pgm.left:8080/ping" "10.0.0.1" "pgm.left:8080" ≡ connect "10.0.0.1:8080"
unfolding dial_target
test_dial_target = refl

abbrev peer : Peer ℕ
peer = record {
  name = "left";
  cluster_ip = record {
    name = "pgm.left";
    svc_port = pos 8080;
    pod_port = pos 9090;
    protocol = "http";
  };
  client = some (http_client net);
}

abbrev right : Peer ℕ
right = record peer { name = "right" }

abbrev both : String → Result String (GeoConfig ℕ)
both text = ok (record raw { peers = raw_peer ∷ record raw_peer { name = "right" } ∷ [] })

abbrev content : String → Result String String
content path = ok "peers"

abbrev monitor : Monitor ℕ ℕ
monitor = record {
  port = pos 8080;
  settings = record { ping_ip = "10.1.0.1"; ping_peers = true; ping_time = pos 7; bgp = none };
  pinged = peer ∷ right ∷ [];
  bgp_client = none;
}

starts :
    serve_app platform env net parse_request_uri both content (ok "/config.yaml") 0
    ≡ (ok monitor, 4)
unfolding serve_app get_config drnavigator.Geo.Config.init_all drnavigator.Geo.Peer.init
    drnavigator.Geo.Serve.serve drnavigator.Geo.Serve.register_metrics
    drnavigator.Geo.Serve.read_ping drnavigator.Geo.Settings.variable
    drnavigator.Geo.Serve.maybe_bgp drnavigator.Geo.Serve.set_up drnavigator.Geo.Peer.is_zero
    drnavigator.Geo.Peer.with_defaults simple_logger drnavigator.Geo.Logger.get_zap_log_level
starts = refl

serve_app-get_config_example :
    (path : String) × (cfg : GeoConfig ℕ) × (level : Level) × (Path
      (Result String String)
      (ok "/config.yaml")
      (ok path))
    × (get_config parse_request_uri (http_client net) both (content path) ≡ ok cfg)
    × (simple_logger env.lookup env.parse_bool env.build_logger ≡ ok level)
    × (settings_read platform env ≡ ok monitor.settings)
    × (monitor.port ≡ cfg.port)
    × (monitor.pinged ≡ (if monitor.settings.ping_peers then cfg.peers else []))
    × ((monitor.settings.bgp ≢ none) ↔ (monitor.bgp_client ≢ none))
serve_app-get_config_example =
    serve_app-get_config platform env net parse_request_uri both content (ok "/config.yaml") 0 4
      monitor starts

-- The first goroutine takes four turns, the second three, and the network changes in between.
abbrev events : List (Event ℕ)
events = turn 0 ∷ turn 1 ∷ outside suc ∷ turn 1 ∷ turn 0 ∷ turn 0 ∷ turn 1 ∷ turn 0 ∷ turn 2 ∷ []

abbrev begun : Running ℕ
begun = record { goroutines = spawn (peer ∷ right ∷ []); metrics = metrics; network = 4 }

serve_app-run_example :
    (s : Running ℕ) × (run is_ip events begun ≡ some s)
    × (peers_of s.goroutines ≡ peer ∷ right ∷ [])
    × All
        (λ (t : Goroutine ℕ). Tracks is_ip (http_client net) t.peer t.phase s.metrics)
        s.goroutines
    × AllAfter (turns events (λ i. 0)) s.goroutines
serve_app-run_example =
    serve_app-run platform env net parse_request_uri both content (ok "/config.yaml") 0 4 monitor
      starts events metrics 4

-- The first has finished a round; the second has to set the last of its gauges.
test_run :
    (elim (run is_ip events begun) [ none ↦ none | some s ↦ some s.metrics ])
    ≡ some (record {
      dns_status = ("right" ∷ [], pos 1) ∷ ("left" ∷ [], pos 1) ∷ [];
      svc_status = ("left" ∷ [], pos 1) ∷ ("right" ∷ [], pos 1) ∷ [];
      pod_status = ("left" ∷ [], pos 1) ∷ [];
    })
unfolding run drnavigator.Geo.Peers.Turns.turn_at drnavigator.Geo.Peers.Turns.advance
    drnavigator.Geo.Peers.measure drnavigator.Geo.Peers.levels drnavigator.Geo.Gauge.set
    drnavigator.Geo.Gauge.same_labels drnavigator.Geo.Peer.status spawn http_client
    drnavigator.Geo.Peer.resolve_one drnavigator.Geo.Client.get
test_run = refl

bgp_rounds-ShowsListed_example :
    ((bgp_rounds platform clock (pos 30) 7 2 stale 0).0 ≡ stale)
    ⊎ ShowsListed platform clock (pos 30) 7 (bgp_rounds platform clock (pos 30) 7 2 stale 0).0
bgp_rounds-ShowsListed_example = bgp_rounds-ShowsListed platform clock (pos 30) 7 2 stale 0

-- A value of PAAS_DEBUG that does not parse ends the program by a panic, not by an exit with a
-- message.
abbrev debugging : Environment
debugging = record env {
  lookup = λ name. if name == "PAAS_DEBUG" then some "yes" else environment name;
}

test_panics :
    (serve_app platform debugging net parse_request_uri both content (ok "/config.yaml") 0).0
    ≡ err (panics "invalid syntax")
unfolding serve_app get_config drnavigator.Geo.Config.init_all drnavigator.Geo.Peer.init
    simple_logger drnavigator.Geo.Logger.get_zap_log_level
test_panics = refl
