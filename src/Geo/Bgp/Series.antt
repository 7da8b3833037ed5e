-- ===== src/Geo/Bgp/Series.antt =====
-- Which series the update of the BGP metrics leaves, and their values.
use mathlib.Core.Path.{subst}
use drnavigator.Common.{
  String, true, ◌≡◌, refl, some, List, [], ◌∷◌, arith, Memᴰ, inl, inr, Bool-cases,
}
use drnavigator.Common.Num.{ℤ}
use drnavigator.Geo.Gauge.{GaugeVec, set, value, value-set, same_labels, same_labels_iff}
use drnavigator.Geo.Bgp.{
  BgpMetrics, BgpPeer, BgpRoute, NodeStatus, peer_labels, route_labels, is_learned, peer_status,
  route_status, update_peers, update_routes, update_nodes, update_bgp_metrics,
}

-- Of every series that is held, labels and value have the property.
abbrev Holds : (List String → ℤ → Type 0) → GaugeVec → Type 0
Holds P g = (k : List String) (v : ℤ) → value g k ≡ some v → P k v

set-Holds :
    (P : List String → ℤ → Type 0) (g : GaugeVec) (j : List String) (u : ℤ)
    → Holds P g
    → P j u
    → Holds P (set g j u)
set-Holds P g j u h p k v e = elim (Bool-cases (same_labels j k)) [
  | inl same ↦
      let (to, from) = same_labels_iff j k in
      let labels_eq : j ≡ k = to same in
      let read = value-set g j k u in
      let value_eq : u ≡ v = ground arith in
      subst (λ x. P k x) value_eq (subst (λ x. P x u) labels_eq p)
  | inr differ ↦ let read = value-set g j k u in h k v (ground arith)
]

module _ {W : Type 0} (clock : W → ℤ × W) (timeout : ℤ) where
  -- The series of a listed peer, with its value at some time of the clock.
  abbrev pub IsPeerSeries : List NodeStatus → List String → ℤ → Type 0
  IsPeerSeries list k v =
      (item : NodeStatus) × (peer : BgpPeer) × (w : W) × Memᴰ item list
      × Memᴰ peer item.peers
      × (k ≡ peer_labels item peer)
      × (v ≡ peer_status clock timeout item peer w)

  -- The series of a listed route that was learned, with its value at some time of the clock.
  abbrev pub IsRouteSeries : List NodeStatus → List String → ℤ → Type 0
  IsRouteSeries list k v =
      (item : NodeStatus) × (route : BgpRoute) × (w : W) × Memᴰ item list
      × Memᴰ route item.routes
      × (is_learned route ≡ true)
      × (k ≡ route_labels item route)
      × (v ≡ route_status clock timeout item w)

  update_peers-Holds :
      (P : List String → ℤ → Type 0) (item : NodeStatus) (peers : List BgpPeer) (g : GaugeVec)
      (w : W)
      → ((peer : BgpPeer) (u : W)
          → Memᴰ peer peers
          → P (peer_labels item peer) (peer_status clock timeout item peer u))
      → Holds P g
      → Holds P (update_peers clock timeout item peers g w).0
  unfolding update_peers
  update_peers-Holds P item [] g w each h = h
  update_peers-Holds P item (peer ∷ rest) g w each h =
      update_peers-Holds P item rest _ _ (λ p u m. each p u (Memᴰ.tail m))
        (set-Holds P g _ _ h (each peer w (Memᴰ.head refl)))

  update_routes-Holds :
      (P : List String → ℤ → Type 0) (item : NodeStatus) (routes : List BgpRoute) (g : GaugeVec)
      (w : W)
      → ((route : BgpRoute) (u : W)
          → Memᴰ route routes
          → is_learned route ≡ true
          → P (route_labels item route) (route_status clock timeout item u))
      → Holds P g
      → Holds P (update_routes clock timeout item routes g w).0
  unfolding update_routes
  update_routes-Holds P item [] g w each h = h
  update_routes-Holds P item (route ∷ rest) g w each h = elim (Bool-cases (is_learned route)) [
    | inl learned ↦ rw (learned) (
        update_routes-Holds P item rest _ _ (λ r u m. each r u (Memᴰ.tail m))
          (set-Holds P g _ _ h (each route w (Memᴰ.head refl) learned)))
    | inr skipped ↦
        rw (skipped) (update_routes-Holds P item rest g w (λ r u m. each r u (Memᴰ.tail m)) h)
  ]

  update_nodes-Holds :
      (P Q : List String → ℤ → Type 0) (list : List NodeStatus) (m : BgpMetrics) (w : W)
      → ((k : List String) (v : ℤ) → IsPeerSeries list k v → P k v)
      → ((k : List String) (v : ℤ) → IsRouteSeries list k v → Q k v)
      → Holds P m.bgp_peer
      → Holds Q m.bgp_route
      → Holds P (update_nodes clock timeout list m w).0.bgp_peer
        × Holds Q (update_nodes clock timeout list m w).0.bgp_route
  unfolding update_nodes
  update_nodes-Holds P Q [] m w p q hp hq = (hp, hq)
  update_nodes-Holds P Q (item ∷ rest) m w p q hp hq =
      update_nodes-Holds P Q rest _ _
        (λ k v (i, peer, u, mi, mp, ke, ve). p k v (i, peer, u, Memᴰ.tail mi, mp, ke, ve))
        (λ k v (i, route, u, mi, mr, l, ke, ve). q k v (i, route, u, Memᴰ.tail mi, mr, l, ke, ve))
        (update_peers-Holds P item item.peers m.bgp_peer w
          (λ peer u mp. p _ _ (item, peer, u, Memᴰ.head refl, mp, refl, refl)) hp)
        (update_routes-Holds Q item item.routes m.bgp_route _
          (λ route u mr l. q _ _ (item, route, u, Memᴰ.head refl, mr, l, refl, refl)) hq)

  -- After an update every series of the peers is that of a listed peer, with the value 1, 0 or -1 that
  -- its state and age give at some time of the clock, and every series of the routes is that of a
  -- listed route that was learned; whatever the metrics held before, no other series is left.
  pub update_bgp_metrics-IsSeries :
      (m : BgpMetrics) (list : List NodeStatus) (w : W)
      → ((k : List String) (v : ℤ)
          → value (update_bgp_metrics clock timeout m list w).0.bgp_peer k ≡ some v
          → IsPeerSeries list k v)
        × ((k : List String) (v : ℤ)
            → value (update_bgp_metrics clock timeout m list w).0.bgp_route k ≡ some v
            → IsRouteSeries list k v)
  unfolding update_bgp_metrics value
  update_bgp_metrics-IsSeries m list w =
      update_nodes-Holds (IsPeerSeries list) (IsRouteSeries list) list
        (record { bgp_peer = []; bgp_route = [] }) w (λ k v h. h) (λ k v h. h) (λ k v e. cc)
        (λ k v e. cc)
