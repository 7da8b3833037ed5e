-- ===== src/Geo/Peers.antt =====
-- paas-geo-monitor/pkg/app/app.go: the checks of the peers, for the metrics and for the handlers. The
-- YAML encoder is a parameter; Echo writes the responses.
pub mod Measured
pub mod Turns
pub mod Interleaved
pub mod Progress
use drnavigator.Common.{
  ℕ, zero, suc, String, Bool, true, false, Option, none, some, List, [], ◌∷◌, Result, ok, err,
  ◌+++◌, if◌then◌else◌,
}
use drnavigator.Common.Num.{ℤ, pos, negsuc}
use drnavigator.Geo.Gauge.{GaugeVec, set}
use drnavigator.Geo.Peer.{Peer, PeerStatus, status}

pub record PeersMetrics : Type 0 where
  pub dns_status : GaugeVec
  pub svc_status : GaugeVec
  pub pod_status : GaugeVec

-- The values for the three gauges.
pub record Levels : Type 0 where
  pub dns : ℤ
  pub svc : ℤ
  pub pod : ℤ

-- The values for a status; `none` is the dereference of a nil status.
unfoldable pub levels : PeerStatus → Option Levels
levels s = elim s.cluster_ip_status.dns_status [
  | none ↦ none
  | some dns ↦
      if dns.resolved
      then elim s.cluster_ip_status.svc_status [
        | none ↦ none
        | some svc ↦
            if svc.available
            then elim s.cluster_ip_status.pod_status [
              | none ↦ none
              | some pod ↦
                  if pod.available
                  then some (record { dns = pos 1; svc = pos 1; pod = pos 1 })
                  else some (record { dns = pos 1; svc = pos 1; pod = pos 0 })
            ]
            else some (record { dns = pos 1; svc = pos 0; pod = negsuc 0 })
      ]
      else some (record { dns = pos 0; svc = negsuc 0; pod = negsuc 0 })
]

module _ {W : Type 0} (is_ip : String → Bool) where
  -- The check that a round of `pingPeersStatus` makes, and the values that it finds.
  unfoldable pub measure : Peer W → W → Option Levels × W
  measure peer w =
      let (s, w1) = status is_ip peer w in
      elim s [
        | err e ↦ (some (record { dns = negsuc 0; svc = negsuc 0; pod = negsuc 0 }), w1)
        | ok s ↦ (levels s, w1)
      ]

  -- A round of the loop of `pingPeersStatus`, without the sleep.
  unfoldable pub ping_peer : Peer W → PeersMetrics → W → Option (PeersMetrics × W)
  ping_peer peer g w =
      let (found, w1) = measure peer w in
      elim found [
        | none ↦ none
        | some l ↦ some (
          record {
            dns_status = set g.dns_status (peer.name ∷ []) l.dns;
            svc_status = set g.svc_status (peer.name ∷ []) l.svc;
            pod_status = set g.pod_status (peer.name ∷ []) l.pod;
          },
          w1,
        )
      ]

  -- The first rounds of `pingPeersStatus`, which goes on for ever.
  unfoldable pub ping_rounds : ℕ → Peer W → PeersMetrics → W → Option (PeersMetrics × W)
  ping_rounds zero peer g w = some (g, w)
  ping_rounds (suc n) peer g w = elim (ping_peer peer g w) [
    | none ↦ none
    | some (g1, w1) ↦ ping_rounds n peer g1 w1
  ]

  -- The loop of `getPeersStatusHandler`.
  unfoldable pub all_statuses : List (Peer W) → W → Result String (List PeerStatus) × W
  all_statuses [] w = (ok [], w)
  all_statuses (p ∷ rest) w =
      let (s, w1) = status is_ip p w in
      let (others, w2) = all_statuses rest w1 in
      elim s [
        | err e ↦ (err ("failed to collect statuses: " +++ e), w1)
        | ok s ↦ elim others [ err e ↦ (err e, w2) | ok ss ↦ (ok (s ∷ ss), w2) ]
      ]

  -- The body of the response with code 200, or the error that Echo answers.
  unfoldable pub get_peers_status :
      (List PeerStatus → Result String String) → List (Peer W) → W → Result String String × W
  get_peers_status marshal peers w =
      let (statuses, w1) = all_statuses peers w in
      elim statuses [
        | err e ↦ (err e, w1)
        | ok ss ↦ elim (marshal ss) [
          | err e ↦ (err ("failed to marshal response: " +++ e), w1)
          | ok text ↦ (ok text, w1)
        ]
      ]
