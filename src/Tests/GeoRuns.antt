-- ===== src/Tests/GeoRuns.antt =====
-- The monitor of the other clusters.
use drnavigator.Common.{
  ℕ, Option, ◌==◌, suc, String, Bool, true, ◌≡◌, ◌↔◌, refl, none, some, List, [], ◌∷◌, Result, ok,
  err, if◌then◌else◌, GoError,
}
use drnavigator.Common.Num.{ℤ, pos, negsuc}
use drnavigator.Geo.Peer.{Peer, PeerClient, PeerStatus, status, with_defaults, is_zero}
use drnavigator.Geo.Peers.{PeersMetrics}
use drnavigator.Geo.Gauge.{value}
use drnavigator.Geo.Bgp.{BgpMetrics, BgpPeer, BgpRoute, NodeStatus, update_bgp_metrics, minus}
use drnavigator.Geo.Settings.{Settings, getenv, read_settings, Parses, read_settings_iff}
use drnavigator.Geo.Config.Completed.{IsDefaulted, AreCompleted, get_config_iff}
use drnavigator.Geo.Config.{
  GeoConfig, get_config, AreDistinct, IsInitialised, get_config-IsInitialised,
}

abbrev pub client : PeerClient ℕ
client = record {
  resolve = λ name w. (ok "10.0.0.1", suc w);
  get = λ url ip w. (ok "10.1.0.1", suc w);
}

abbrev pub is_ip : String → Bool
is_ip s = true

abbrev pub raw_peer : Peer ℕ
raw_peer = record {
  name = "left";
  cluster_ip = record { name = "pgm.left"; svc_port = pos 0; pod_port = pos 9090; protocol = "" };
  client = none;
}

abbrev peer : Peer ℕ
peer = record {
  name = "left";
  cluster_ip = record {
    name = "pgm.left";
    svc_port = pos 8080;
    pod_port = pos 9090;
    protocol = "http";
  };
  client = some client;
}

test_with_defaults : with_defaults client raw_peer ≡ peer
unfolding with_defaults is_zero
test_with_defaults = refl

abbrev pub metrics : PeersMetrics
metrics = record { dns_status = []; svc_status = []; pod_status = [] }

abbrev pub parse_request_uri : String → GoError
parse_request_uri s = none

abbrev pub raw : GeoConfig ℕ
raw = record { port = pos 0; peers = raw_peer ∷ [] }

abbrev config : GeoConfig ℕ
config = record { port = pos 8080; peers = peer ∷ [] }

abbrev pub decode : String → Result String (GeoConfig ℕ)
decode s = ok raw

abbrev content : Result String String
content = ok "peers"

configured : get_config parse_request_uri client decode content ≡ ok config
unfolding get_config drnavigator.Geo.Config.init_all drnavigator.Geo.Peer.init is_zero with_defaults
configured = refl

get_config_iff_example : (get_config parse_request_uri client decode content ≡ ok config) ↔ (
    (text : String) × (r : GeoConfig ℕ) × (content ≡ ok text)
    × (decode text ≡ ok r)
    × AreDistinct r.peers
    × AreCompleted parse_request_uri client r.peers config.peers
    × IsDefaulted (pos 0) (pos 8080) r.port config.port)
get_config_iff_example = get_config_iff parse_request_uri client decode content config

-- Two nodes: the status of the second is older than the timeout.
abbrev pub clock : ℕ → ℤ × ℕ
clock w = (pos 100, suc w)

abbrev pub node : String → ℤ → NodeStatus
node name updated = record {
  node = name;
  last_updated = updated;
  peers = record { peer_ip = "10.0.0.1"; state = "Established"; peer_type = "NodeMesh" } ∷ [];
  routes =
      record {
        route_type = "FIB";
        destination = "10.2.0.0/16";
        interface = "eth0";
        source_type = "BGPPeer";
        learned_from = "10.0.0.1";
      }
      ∷ [];
}

abbrev pub nodes : List NodeStatus
nodes = node "n1" (pos 90) ∷ node "n2" (pos 60) ∷ []

abbrev pub stale : BgpMetrics
stale = record { bgp_peer = ("old" ∷ [], pos 1) ∷ []; bgp_route = [] }

test_minus : minus (pos 3) (pos 5) ≡ negsuc 1
unfolding minus
test_minus = refl

test_update_bgp_metrics :
    (update_bgp_metrics clock (pos 30) stale nodes 0).0.bgp_peer
    ≡ ("n1" ∷ "10.0.0.1" ∷ "Established" ∷ "NodeMesh" ∷ [], pos 1)
      ∷ ("n2" ∷ "10.0.0.1" ∷ "Established" ∷ "NodeMesh" ∷ [], negsuc 0)
      ∷ []
unfolding update_bgp_metrics drnavigator.Geo.Bgp.update_nodes drnavigator.Geo.Bgp.update_peers
    drnavigator.Geo.Gauge.set drnavigator.Geo.Gauge.same_labels drnavigator.Geo.Bgp.peer_status
    drnavigator.Geo.Bgp.less minus
test_update_bgp_metrics = refl

abbrev pub environment : String → Option String
environment name =
    if name == "PING_IP"
    then some "10.1.0.1"
    else if name == "PAAS_PING_TIME"
    then some "7"
    else none

abbrev pub to_bool : String → Result String Bool
to_bool s = if s == "true" then ok true else err "invalid syntax"

abbrev pub to_int : String → Result String ℤ
to_int s = if s == "7" then ok (pos 7) else err "invalid syntax"

test_read_settings :
    read_settings environment is_ip to_bool to_int
    ≡ ok (record { ping_ip = "10.1.0.1"; ping_peers = true; ping_time = pos 7; bgp = none })
unfolding read_settings drnavigator.Geo.Settings.variable
test_read_settings = refl
