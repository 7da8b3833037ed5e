-- ===== src/Geo/Serve.antt =====
-- paas-geo-monitor/pkg/app/app.go, `Serve`, and cmd/root.go; pkg/bgp/bgp.go, `GetClientSet` and
-- `GetCrStatus`: the start of the monitor. The registry of Prometheus, the Kubernetes and Calico
-- clients, and what the other parts take are parameters.
pub mod Started
pub mod Goroutines
pub mod Rounds
use drnavigator.Common.{
  ℕ, zero, suc, String, Bool, true, false, not, Option, none, some, List, [], ◌∷◌, Result, ok, err,
  GoError, ◌==◌, ◌+++◌, if◌then◌else◌,
}
use drnavigator.Common.Num.{ℤ}
use drnavigator.Common.Action.{Action, ◌>>=◌, ◌>>◌, pure, raise}
use drnavigator.Geo.Peer.{Peer}
use drnavigator.Geo.Logger.{Level, simple_logger}
use drnavigator.Geo.Client.{Net, http_client}
use drnavigator.Geo.Config.{GeoConfig, get_config}
use drnavigator.Geo.Bgp.{BgpMetrics, NodeStatus, update_bgp_metrics}
use drnavigator.Geo.Settings.{
  Settings, BgpSettings, getenv, variable, ping_peers_variable, ping_time_variable, read_bgp,
}

pub data Metric : Type 0 where
  paas_health : Metric
  peer_dns_status : Metric
  peer_svc_status : Metric
  peer_pod_status : Metric
  bgp_peer : Metric
  bgp_route : Metric

-- How the program ends early: by an exit with the code 1, with the text that is reported, or by a
-- panic.
pub data Failure : Type 0 where
  exits : String → Failure
  panics : String → Failure

-- The environment, with the parsers of its texts and what zap makes of a level.
pub record Environment : Type 0 where
  pub lookup : String → Option String
  pub is_ip : String → Bool
  pub parse_bool : String → Result String Bool
  pub atoi : String → Result String ℤ
  pub build_logger : Level → GoError

-- The calls outside, over kube configurations of type `R` and Calico clients of type `C`.
pub record Platform (W R C : Type 0) : Type 0 where
  pub register : Metric → W → GoError × W
  pub build_config : String → W → Result String R × W
  pub in_cluster_config : W → Result String R × W
  pub new_for_config : R → W → Result String C × W
  pub list_statuses : C → W → Result String (List NodeStatus) × W

pub record Ping : Type 0 where
  pub ip : String
  pub peers : Bool
  pub time : ℤ

-- The monitor once it is set up: the port, the settings, the peers that are pinged, and the client
-- of the loop over BGP.
pub record Monitor (W C : Type 0) : Type 0 where
  pub port : ℤ
  pub settings : Settings
  pub pinged : List (Peer W)
  pub bgp_client : Option C

module _ {W : Type 0} where
  -- A result that needs nothing of the outside.
  abbrev pub given : {A : Type 0} → Result String A → Action W String A
  given r w = (r, w)

  abbrev pub prefixed : {A : Type 0} → String → (W → Result String A × W) → Action W String A
  prefixed message step w =
      let (r, w1) = step w in elim r [ ok a ↦ (ok a, w1) | err e ↦ (err (message +++ e), w1) ]

  abbrev pub exit_with : {A : Type 0} → String → Action W String A → Action W Failure A
  exit_with message step w =
      let (r, w1) = step w in
      elim r [ ok a ↦ (ok a, w1) | err e ↦ (err (exits (message +++ e)), w1) ]

  abbrev pub or_panic : {A : Type 0} → Result String A → Action W Failure A
  or_panic (ok a) = pure a
  or_panic (err e) = raise (panics e)

  abbrev pub registered : String → (W → GoError × W) → Action W String (Unit {0})
  registered message step w =
      let (e, w1) = step w in elim e [ none ↦ (ok tt, w1) | some c ↦ (err (message +++ c), w1) ]

module _ {W R C : Type 0} (platform : Platform W R C) (env : Environment) where
  -- `GetClientSet`
  unfoldable pub get_client_set : Action W String C
  get_client_set = do
    config ←
        if not (getenv env.lookup env.is_ip env.parse_bool env.atoi "KUBECONFIG" == "")
        then platform.build_config
            (getenv env.lookup env.is_ip env.parse_bool env.atoi "KUBECONFIG")
        else platform.in_cluster_config
    platform.new_for_config config

  unfoldable pub register_metrics : Action W String (Unit {0})
  register_metrics = do
    registered "Can't regist paas_health prometheus metric: " (platform.register paas_health)
    registered "Can't regist peer_dns_status prometheus metric: "
        (platform.register peer_dns_status)
    registered "Can't regist peers_svc_status prometheus metric: "
        (platform.register peer_svc_status)
    registered "Can't regist peers_pod_status prometheus metric: "
        (platform.register peer_pod_status)

  -- The settings of the pings.
  unfoldable pub read_ping : Result String Ping
  read_ping =
      let ip = getenv env.lookup env.is_ip env.parse_bool env.atoi "PING_IP" in
      if not (env.is_ip ip)
      then err ("incorrect or empty PING_IP: '" +++ ip +++ "'")
      else elim (ping_peers_variable env.lookup env.is_ip env.parse_bool env.atoi) [
        | err e ↦ err e
        | ok peers ↦ elim (ping_time_variable env.lookup env.is_ip env.parse_bool env.atoi) [
          | err e ↦ err e
          | ok time ↦ ok (record { ip = ip; peers = peers; time = time })
        ]
      ]

  -- What is set up for BGP.
  unfoldable pub set_up_bgp : Action W String (BgpSettings × C)
  set_up_bgp = do
    registered "Can't regist bgp_peer prometheus metric: " (platform.register bgp_peer)
    registered "Can't regist bgp_route prometheus metric: " (platform.register bgp_route)
    settings ← given (read_bgp env.lookup env.is_ip env.parse_bool env.atoi)
    client ← prefixed "Can't get clientSet: " get_client_set
    pure (settings, client)

  abbrev pub wants_bgp : Bool
  wants_bgp = getenv env.lookup env.is_ip env.parse_bool env.atoi "PAAS_BGP_METRICS" == "true"

  -- The part of BGP, if it is wanted.
  unfoldable pub maybe_bgp : Action W String (Option (BgpSettings × C))
  maybe_bgp w =
      if wants_bgp
      then (let (r, w1) = set_up_bgp w in elim r [ err e ↦ (err e, w1) | ok b ↦ (ok (some b), w1) ])
      else (ok none, w)

  -- The monitor of a configuration and what was read and set up.
  unfoldable pub set_up : GeoConfig W → Ping → Option (BgpSettings × C) → Monitor W C
  set_up cfg ping bgp = record {
    port = cfg.port;
    settings = record {
      ping_ip = ping.ip;
      ping_peers = ping.peers;
      ping_time = ping.time;
      bgp = elim bgp [ none ↦ none | some (settings, _) ↦ some settings ];
    };
    pinged = if ping.peers then cfg.peers else [];
    bgp_client = elim bgp [ none ↦ none | some (_, client) ↦ some client ];
  }

  -- `Serve`, after it has made its logger, up to the start of the server.
  unfoldable pub serve : GeoConfig W → Action W String (Monitor W C)
  serve cfg = do
    register_metrics
    ping ← given read_ping
    bgp ← maybe_bgp
    pure (set_up cfg ping bgp)

  -- `ServeApp` up to there: the flag "config", the file that it names, the logger, and what was set
  -- up.
  unfoldable pub serve_app :
      Net W
      → (String → GoError)
      → (String → Result String (GeoConfig W))
      → (String → Result String String)
      → Result String String
      → Action W Failure (Monitor W C)
  serve_app net parse_request_uri decode open_file config_flag = do
    path ← exit_with "error getting configuration file: " (given config_flag)
    cfg ←
        exit_with "error getting configuration file: "
          (given (get_config parse_request_uri (http_client net) decode (open_file path)))
    or_panic (simple_logger env.lookup env.parse_bool env.build_logger)
    exit_with "server error: " (serve cfg)

module _ {W R C : Type 0} (platform : Platform W R C) (clock : W → ℤ × W) (timeout : ℤ)
    (client : C) where
  -- A round of the loop over BGP, without the sleep: an error is logged, and the metrics stay.
  unfoldable pub bgp_round : BgpMetrics → W → BgpMetrics × W
  bgp_round m w =
      let (r, w1) = platform.list_statuses client w in
      elim r [ err e ↦ (m, w1) | ok list ↦ update_bgp_metrics clock timeout m list w1 ]

  -- The first rounds of the loop, which goes on for ever.
  unfoldable pub bgp_rounds : ℕ → BgpMetrics → W → BgpMetrics × W
  bgp_rounds zero m w = (m, w)
  bgp_rounds (suc n) m w = let (m1, w1) = bgp_round m w in bgp_rounds n m1 w1
