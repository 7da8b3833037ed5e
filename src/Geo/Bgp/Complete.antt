-- ===== src/Geo/Bgp/Complete.antt =====
-- The update of the BGP metrics leaves a series for every peer and every learned route.
use mathlib.Core.Path.{subst}
use drnavigator.Common.{
  String, true, ◌≡◌, refl, sym, List, [], ◌∷◌, arith, Memᴰ, inl, inr, Bool-cases, is_some,
}
use drnavigator.Common.Num.{ℤ}
use drnavigator.Geo.Gauge.{GaugeVec, set, value, value-set, same_labels_iff}
use drnavigator.Geo.Bgp.{
  BgpMetrics, BgpPeer, BgpRoute, NodeStatus, peer_labels, route_labels, is_learned, peer_status,
  route_status, update_peers, update_routes, update_nodes, update_bgp_metrics,
}

-- The gauge has a series for the labels.
abbrev pub IsHeld : GaugeVec → List String → Type 0
IsHeld g k = is_some (value g k) ≡ true

set-IsHeld_old : (g : GaugeVec) (j k : List String) (u : ℤ) → IsHeld g k → IsHeld (set g j u) k
set-IsHeld_old g j k u h = let read = value-set g j k u in ground arith

set-IsHeld : (g : GaugeVec) (k : List String) (u : ℤ) → IsHeld (set g k u) k
set-IsHeld g k u =
    let same = (same_labels_iff k k).1 refl in let read = value-set g k k u in ground arith

module _ {W : Type 0} (clock : W → ℤ × W) (timeout : ℤ) where
  update_peers-IsHeld_old :
      (item : NodeStatus) (peers : List BgpPeer) (g : GaugeVec) (w : W) (k : List String)
      → IsHeld g k
      → IsHeld (update_peers clock timeout item peers g w).0 k
  unfolding update_peers
  update_peers-IsHeld_old item [] g w k h = h
  update_peers-IsHeld_old item (peer ∷ rest) g w k h =
      update_peers-IsHeld_old item rest _ _ k (set-IsHeld_old g _ k _ h)

  update_peers-IsHeld :
      (item : NodeStatus) (peers : List BgpPeer) (g : GaugeVec) (w : W) (peer : BgpPeer)
      → Memᴰ peer peers
      → IsHeld (update_peers clock timeout item peers g w).0 (peer_labels item peer)
  unfolding update_peers
  update_peers-IsHeld item [] g w peer m = elim m [ ]
  update_peers-IsHeld item (x ∷ rest) g w peer (Memᴰ.head e) =
      update_peers-IsHeld_old item rest _ _ (peer_labels item peer) (
        subst
          (λ (y : BgpPeer).
            IsHeld (set g (peer_labels item x) (peer_status clock timeout item x w))
              (peer_labels item y))
          (sym e) (set-IsHeld g (peer_labels item x) (peer_status clock timeout item x w)))
  update_peers-IsHeld item (x ∷ rest) g w peer (Memᴰ.tail m) =
      update_peers-IsHeld item rest _ _ peer m

  update_routes-IsHeld_old :
      (item : NodeStatus) (routes : List BgpRoute) (g : GaugeVec) (w : W) (k : List String)
      → IsHeld g k
      → IsHeld (update_routes clock timeout item routes g w).0 k
  unfolding update_routes
  update_routes-IsHeld_old item [] g w k h = h
  update_routes-IsHeld_old item (route ∷ rest) g w k h = elim (Bool-cases (is_learned route)) [
    | inl learned ↦ rw learned (update_routes-IsHeld_old item rest _ _ k (set-IsHeld_old g _ k _ h))
    | inr skipped ↦ rw skipped (update_routes-IsHeld_old item rest g w k h)
  ]

  update_routes-IsHeld :
      (item : NodeStatus) (routes : List BgpRoute) (g : GaugeVec) (w : W) (route : BgpRoute)
      → Memᴰ route routes
      → is_learned route ≡ true
      → IsHeld (update_routes clock timeout item routes g w).0 (route_labels item route)
  unfolding update_routes
  update_routes-IsHeld item [] g w route m learned = elim m [ ]
  update_routes-IsHeld item (x ∷ rest) g w route (Memᴰ.head e) learned =
      rw (subst (λ (y : BgpRoute). is_learned y ≡ true) e learned) (
        update_routes-IsHeld_old item rest _ _ (route_labels item route) (
          subst
            (λ (y : BgpRoute).
              IsHeld (set g (route_labels item x) (route_status clock timeout item w))
                (route_labels item y))
            (sym e) (set-IsHeld g (route_labels item x) (route_status clock timeout item w))))
  update_routes-IsHeld item (x ∷ rest) g w route (Memᴰ.tail m) learned =
      elim (Bool-cases (is_learned x)) [
        | inl counted ↦ rw counted (update_routes-IsHeld item rest _ _ route m learned)
        | inr skipped ↦ rw skipped (update_routes-IsHeld item rest g w route m learned)
      ]

  update_nodes-IsHeld_old :
      (list : List NodeStatus) (m : BgpMetrics) (w : W) (k : List String)
      → (IsHeld m.bgp_peer k → IsHeld (update_nodes clock timeout list m w).0.bgp_peer k)
        × (IsHeld m.bgp_route k → IsHeld (update_nodes clock timeout list m w).0.bgp_route k)
  unfolding update_nodes
  update_nodes-IsHeld_old [] m w k = (λ h. h, λ h. h)
  update_nodes-IsHeld_old (item ∷ rest) m w k =
      let (p, q) = update_nodes-IsHeld_old rest _ _ k in
      (
        λ h. p (update_peers-IsHeld_old item item.peers m.bgp_peer w k h),
        λ h. q (update_routes-IsHeld_old item item.routes m.bgp_route _ k h),
      )

  -- The series of a node are there.
  abbrev pub IsCovered : BgpMetrics → NodeStatus → Type 0
  IsCovered m item =
      ((peer : BgpPeer) → Memᴰ peer item.peers → IsHeld m.bgp_peer (peer_labels item peer))
      × ((route : BgpRoute)
          → Memᴰ route item.routes
          → is_learned route ≡ true
          → IsHeld m.bgp_route (route_labels item route))

  update_nodes-IsCovered :
      (list : List NodeStatus) (m : BgpMetrics) (w : W) (item : NodeStatus)
      → Memᴰ item list
      → IsCovered (update_nodes clock timeout list m w).0 item
  unfolding update_nodes
  update_nodes-IsCovered [] m w item i = elim i [ ]
  update_nodes-IsCovered (x ∷ rest) m w item (Memᴰ.tail i) = update_nodes-IsCovered rest _ _ item i
  update_nodes-IsCovered (x ∷ rest) m w item (Memᴰ.head e) =
      subst (λ (y : NodeStatus). IsCovered (update_nodes clock timeout (x ∷ rest) m w).0 y) (sym e)
        (
          λ peer i.
              (update_nodes-IsHeld_old rest _ _ _).0
                (update_peers-IsHeld x x.peers m.bgp_peer w peer i),
          λ route i l.
              (update_nodes-IsHeld_old rest _ _ _).1
                (update_routes-IsHeld x x.routes m.bgp_route _ route i l),
        )

  -- After an update there is a series for every peer and for every learned route of every listed
  -- node.
  pub update_bgp_metrics-IsCovered :
      (m : BgpMetrics) (list : List NodeStatus) (w : W) (item : NodeStatus)
      → Memᴰ item list
      → IsCovered (update_bgp_metrics clock timeout m list w).0 item
  unfolding update_bgp_metrics
  update_bgp_metrics-IsCovered m list w item i =
      update_nodes-IsCovered list (record { bgp_peer = []; bgp_route = [] }) w item i
