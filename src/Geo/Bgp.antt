-- ===== src/Geo/Bgp.antt =====
-- paas-geo-monitor/pkg/bgp/bgp.go, `UpdateBgpMetrics`: the metrics of the peers and routes of the
-- nodes. The statuses of the nodes come from the Calico client; the clock, in seconds, is a
-- parameter, and it is read anew for each series.
pub mod Series
pub mod Complete
use drnavigator.Common.{
  ℕ, zero, suc, ◌+◌, ◌-◌, String, Bool, true, false, List, [], ◌∷◌, ◌==◌, ◌&&◌, if◌then◌else◌,
}
use drnavigator.Common.Num.{ℤ, pos, negsuc, ltb, leb}
use drnavigator.Geo.Gauge.{GaugeVec, set}

pub record BgpMetrics : Type 0 where
  pub bgp_peer : GaugeVec
  pub bgp_route : GaugeVec

-- The parts of a `CalicoNodeStatus` that the code reads.
pub record BgpPeer : Type 0 where
  pub peer_ip : String
  pub state : String
  pub peer_type : String

pub record BgpRoute : Type 0 where
  pub route_type : String
  pub destination : String
  pub interface : String
  pub source_type : String
  pub learned_from : String

pub record NodeStatus : Type 0 where
  pub node : String
  pub last_updated : ℤ
  pub peers : List BgpPeer
  pub routes : List BgpRoute

difference : ℕ → ℕ → ℤ
difference m n = if leb n m then pos (m - n) else negsuc (n - m - 1)

-- Subtraction of an `int64`, without its overflow.
unfoldable pub minus : ℤ → ℤ → ℤ
unfolding difference
minus (pos a) (pos b) = difference a b
minus (pos a) (negsuc b) = pos (a + suc b)
minus (negsuc a) (pos b) = negsuc (a + b)
minus (negsuc a) (negsuc b) = difference b a

unfoldable pub less : ℤ → ℤ → Bool
less (pos a) (pos b) = ltb a b
less (pos a) (negsuc b) = false
less (negsuc a) (pos b) = true
less (negsuc a) (negsuc b) = ltb b a

abbrev pub peer_labels : NodeStatus → BgpPeer → List String
peer_labels item peer = item.node ∷ peer.peer_ip ∷ peer.state ∷ peer.peer_type ∷ []

abbrev pub route_labels : NodeStatus → BgpRoute → List String
route_labels item route =
    item.node ∷ route.destination ∷ route.source_type ∷ route.learned_from ∷ route.route_type
    ∷ route.interface ∷ []

-- The routes that are counted.
abbrev pub is_learned : BgpRoute → Bool
is_learned route = route.route_type == "FIB" && route.source_type == "BGPPeer"

module _ {W : Type 0} (clock : W → ℤ × W) (timeout : ℤ) where
  -- The status is too old at the time that the clock shows.
  abbrev pub is_old : NodeStatus → W → Bool
  is_old item w = less item.last_updated (minus (clock w).0 timeout)

  unfoldable pub peer_status : NodeStatus → BgpPeer → W → ℤ
  peer_status item peer w =
      if is_old item w then negsuc 0 else if peer.state == "Established" then pos 1 else pos 0

  unfoldable pub route_status : NodeStatus → W → ℤ
  route_status item w = if is_old item w then negsuc 0 else pos 1

  -- The loop over the peers of a node.
  unfoldable pub update_peers : NodeStatus → List BgpPeer → GaugeVec → W → GaugeVec × W
  update_peers item [] g w = (g, w)
  update_peers item (peer ∷ rest) g w =
      update_peers item rest (set g (peer_labels item peer) (peer_status item peer w)) (clock w).1

  -- The loop over the routes of a node.
  unfoldable pub update_routes : NodeStatus → List BgpRoute → GaugeVec → W → GaugeVec × W
  update_routes item [] g w = (g, w)
  update_routes item (route ∷ rest) g w =
      let counted =
        update_routes item rest (set g (route_labels item route) (route_status item w))
          (clock w).1 in
      let skipped = update_routes item rest g w in if is_learned route then counted else skipped

  -- The loop over the nodes.
  unfoldable pub update_nodes : List NodeStatus → BgpMetrics → W → BgpMetrics × W
  update_nodes [] m w = (m, w)
  update_nodes (item ∷ rest) m w =
      let (peers, w1) = update_peers item item.peers m.bgp_peer w in
      let (routes, w2) = update_routes item item.routes m.bgp_route w1 in
      update_nodes rest (record { bgp_peer = peers; bgp_route = routes }) w2

  -- Both gauges are reset first.
  unfoldable pub update_bgp_metrics : BgpMetrics → List NodeStatus → W → BgpMetrics × W
  update_bgp_metrics m list w = update_nodes list (record { bgp_peer = []; bgp_route = [] }) w
