-- ===== src/Geo/Peers/Turns.antt =====
-- paas-geo-monitor/pkg/app/app.go: the goroutines of `pingPeersStatus`, one for each peer, which take
-- turns. A check is one turn, and so is each `Set` of a gauge; what else happens to the network comes
-- in between.
use drnavigator.Common.{ℕ, zero, suc, String, Bool, Option, none, some, List, [], ◌∷◌}
use drnavigator.Geo.Gauge.{set}
use drnavigator.Geo.Peer.{Peer}
use drnavigator.Geo.Peers.{PeersMetrics, Levels, measure}

-- Where a goroutine is: asleep, with the values of its last round, or before one of the three `Set`s.
pub data Phase : Type 0 where
  asleep : Option Levels → Phase
  sets_dns : Levels → Phase
  sets_svc : Levels → Phase
  sets_pod : Levels → Phase

pub record Goroutine (W : Type 0) : Type 0 where
  pub peer : Peer W
  pub phase : Phase

-- The goroutine at a position takes a turn, or the network changes.
pub data Event (W : Type 0) : Type 0 where
  turn : ℕ → Event W
  outside : (W → W) → Event W

pub record Running (W : Type 0) : Type 0 where
  pub goroutines : List (Goroutine W)
  pub metrics : PeersMetrics
  pub network : W

-- `go pingPeersStatus(...)` for each peer.
unfoldable pub spawn : {W : Type 0} → List (Peer W) → List (Goroutine W)
spawn [] = []
spawn (n ∷ ns) = record { peer = n; phase = asleep none } ∷ spawn ns

module _ {W : Type 0} (is_ip : String → Bool) where
  -- A turn of a goroutine; `none` is the dereference of nil, which ends the program.
  unfoldable pub advance : Goroutine W → PeersMetrics → W → Option (Phase × PeersMetrics × W)
  advance t g w = elim t.phase [
    | asleep last ↦
        let (found, w1) = measure is_ip t.peer w in
        elim found [ none ↦ none | some l ↦ some (sets_dns l, g, w1) ]
    | sets_dns l ↦
        some (sets_svc l, record g { dns_status = set g.dns_status (t.peer.name ∷ []) l.dns }, w)
    | sets_svc l ↦
        some (sets_pod l, record g { svc_status = set g.svc_status (t.peer.name ∷ []) l.svc }, w)
    | sets_pod l ↦
        some
          (asleep (some l), record g { pod_status = set g.pod_status (t.peer.name ∷ []) l.pod }, w)
  ]

  -- A turn of the goroutine at a position; beyond the last there is none to take it.
  unfoldable pub turn_at :
      ℕ → List (Goroutine W) → PeersMetrics → W → Option (List (Goroutine W) × PeersMetrics × W)
  turn_at i [] g w = some ([], g, w)
  turn_at zero (t ∷ ts) g w = elim (advance t g w) [
    | none ↦ none
    | some (phase, g1, w1) ↦ some (record { peer = t.peer; phase = phase } ∷ ts, g1, w1)
  ]
  turn_at (suc i) (t ∷ ts) g w = elim (turn_at i ts g w) [
    | none ↦ none
    | some (ts1, g1, w1) ↦ some (t ∷ ts1, g1, w1)
  ]

  unfoldable pub run : List (Event W) → Running W → Option (Running W)
  run [] s = some s
  run (outside f ∷ es) s = run es (record s { network = f s.network })
  run (turn i ∷ es) s = elim (turn_at i s.goroutines s.metrics s.network) [
    | none ↦ none
    | some (ts, g, w) ↦ run es (record { goroutines = ts; metrics = g; network = w })
  ]
