-- ===== src/Geo/Peers/Interleaved.antt =====
-- What the gauges of the peers hold while the goroutines of `pingPeersStatus` take turns.
use mathlib.Core.Path.{subst}
use drnavigator.Common.{
  ℕ, zero, suc, String, Bool, false, ◌≡◌, refl, sym, ◌∙◌, none, some, List, [], ◌∷◌, arith, eq_iff,
  elem, map, All,
}
use drnavigator.Geo.Gauge.{value}
use drnavigator.Geo.Peer.{Peer, PeerClient}
use drnavigator.Geo.Config.{AreDistinct}
use drnavigator.Geo.Peers.{PeersMetrics, Levels, measure}
use drnavigator.Geo.Peers.Measured.{
  IsMeasured, Keeps, Shows, set-shows, set-keeps, measure-IsMeasured,
}
use drnavigator.Geo.Peers.Turns.{
  Phase, asleep, sets_dns, sets_svc, sets_pod, Goroutine, Event, turn, outside, Running, advance,
  turn_at, run, spawn,
}

abbrev names : {W : Type 0} → List (Goroutine W) → List String
names ts = map (λ t. t.peer.name) ts

abbrev pub peers_of : {W : Type 0} → List (Goroutine W) → List (Peer W)
peers_of ts = map (λ t. t.peer) ts

pub peers_of-spawn : {W : Type 0} (ns : List (Peer W)) → peers_of (spawn ns) ≡ ns
unfolding spawn
peers_of-spawn [] = refl
peers_of-spawn (n ∷ ns) = rw (peers_of-spawn ns) refl

module _ {W : Type 0} (is_ip : String → Bool) (client : PeerClient W) where
  -- A check of the peer found the values.
  abbrev Found : Peer W → Levels → Type 0
  Found n l = (before : W) × IsMeasured is_ip client n before l

  -- What the series of a peer hold, by where its goroutine is: after a round, the values of that
  -- round; before a `Set`, the values of the present round in the series that are set already.
  abbrev pub Tracks : Peer W → Phase → PeersMetrics → Type 0
  Tracks n (asleep none) g = Unit
  Tracks n (asleep (some l)) g = Found n l × Shows is_ip n l g
  Tracks n (sets_dns l) g = Found n l
  Tracks n (sets_svc l) g = Found n l × (value g.dns_status (n.name ∷ []) ≡ some l.dns)
  Tracks n (sets_pod l) g =
      Found n l
      × (value g.dns_status (n.name ∷ []) ≡ some l.dns)
      × (value g.svc_status (n.name ∷ []) ≡ some l.svc)

  -- The series of a name are those of the first metrics.
  abbrev Same : String → PeersMetrics → PeersMetrics → Type 0
  Same name g g' =
      (value g'.dns_status (name ∷ []) ≡ value g.dns_status (name ∷ []))
      × (value g'.svc_status (name ∷ []) ≡ value g.svc_status (name ∷ []))
      × (value g'.pod_status (name ∷ []) ≡ value g.pod_status (name ∷ []))

  Tracks-Same :
      (m : Peer W) (phase : Phase) (g g' : PeersMetrics)
      → Same m.name g g'
      → Tracks m phase g
      → Tracks m phase g'
  Tracks-Same m (asleep none) g g' (a, b, c) t = tt
  Tracks-Same m (asleep (some l)) g g' (a, b, c) (found, shows) =
      let (d, s, p) = shows in (found, (a ∙ d, b ∙ s, c ∙ p))
  Tracks-Same m (sets_dns l) g g' (a, b, c) t = t
  Tracks-Same m (sets_svc l) g g' (a, b, c) (found, d) = (found, a ∙ d)
  Tracks-Same m (sets_pod l) g g' (a, b, c) (found, d, s) = (found, a ∙ d, b ∙ s)

  -- What a turn of a goroutine does: it returns, and sets no series but those of its peer.
  abbrev Advances : Peer W → Phase → PeersMetrics → W → Type 0
  Advances n phase g w =
      (phase' : Phase) × (g' : PeersMetrics) × (w' : W) × (advance is_ip
          (record { peer = n; phase = phase }) g w
        ≡ some (phase', g', w'))
      × Tracks n phase' g'
      × Keeps is_ip n g g'

  advance-Tracks :
      (n : Peer W) (phase : Phase) (g : PeersMetrics) (w : W)
      → n.client ≡ some client
      → Tracks n phase g
      → Advances n phase g w
  unfolding advance
  advance-Tracks n (asleep last) g w given t =
      let (l, found, is) = measure-IsMeasured is_ip client n w given in
      (
        sets_dns l,
        g,
        (measure is_ip n w).1,
        ground arith,
        (w, is),
        λ other differ. (refl, refl, refl),
      )
  advance-Tracks n (sets_dns l) g w given found = (
    sets_svc l,
    _,
    w,
    refl,
    (found, set-shows _ _ _),
    λ other differ. (set-keeps _ _ _ _ differ, refl, refl),
  )
  advance-Tracks n (sets_svc l) g w given (found, d) = (
    sets_pod l,
    _,
    w,
    refl,
    (found, d, set-shows _ _ _),
    λ other differ. (refl, set-keeps _ _ _ _ differ, refl),
  )
  advance-Tracks n (sets_pod l) g w given (found, d, s) = (
    asleep (some l),
    _,
    w,
    refl,
    (found, (d, s, set-shows _ _ _)),
    λ other differ. (refl, refl, set-keeps _ _ _ _ differ),
  )

  -- Each goroutine has a client, and the series of its peer are tracked.
  abbrev pub AllTrack : List (Goroutine W) → PeersMetrics → Type 0
  AllTrack ts g = All (λ t. (t.peer.client ≡ some client) × Tracks t.peer t.phase g) ts

  -- The series of the names that no goroutine has are those of the first metrics.
  abbrev KeepsOthers : List (Goroutine W) → PeersMetrics → PeersMetrics → Type 0
  KeepsOthers ts g g' = (other : String) → elem other (names ts) ≡ false → Same other g g'

  names-peers_of : (ts : List (Goroutine W)) → map (λ (n : Peer W). n.name) (peers_of ts) ≡ names ts
  names-peers_of [] = refl
  names-peers_of (t ∷ ts) = rw (names-peers_of ts) refl

  -- A turn of one goroutine leaves the series of the rest tracked.
  AllTrack-keep :
      (n : Peer W) (ts : List (Goroutine W)) (g g' : PeersMetrics)
      → elem n.name (names ts) ≡ false
      → Keeps is_ip n g g'
      → AllTrack ts g
      → AllTrack ts g'
  AllTrack-keep n [] g g' absent keeps all = tt
  AllTrack-keep n (t ∷ ts) g g' absent keeps ((given, tracks), rest) = (
    (
      given,
      Tracks-Same t.peer t.phase g g'
          (keeps t.peer.name (λ e. ground (arith, eq_iff t.peer.name n.name))) tracks,
    ),
    AllTrack-keep n ts g g' (ground arith) keeps rest,
  )

  -- A turn at a position.
  turn_at-AllTrack :
      (i : ℕ) (ts : List (Goroutine W)) (g : PeersMetrics) (w : W)
      → AreDistinct (peers_of ts)
      → AllTrack ts g
      → (ts' : List (Goroutine W)) × (g' : PeersMetrics) × (w' : W) × (turn_at is_ip i ts g w
          ≡ some (ts', g', w'))
        × (peers_of ts' ≡ peers_of ts)
        × AllTrack ts' g'
        × KeepsOthers ts g g'
  unfolding turn_at
  turn_at-AllTrack i [] g w distinct all =
      ([], g, w, refl, refl, tt, λ other absent. (refl, refl, refl))
  turn_at-AllTrack zero (t ∷ ts) g w (fresh, distinct) ((given, tracks), rest) =
      let (phase, g', w', goes, still, keeps) = advance-Tracks t.peer t.phase g w given tracks in
      (
        record { peer = t.peer; phase = phase } ∷ ts,
        g',
        w',
        rw (goes, turn_at) refl,
        refl,
        (
          (given, still),
          AllTrack-keep t.peer ts g g'
              (subst (λ ns. elem t.peer.name ns ≡ false) (names-peers_of ts) fresh) keeps rest,
        ),
        λ other absent. keeps other (λ e. ground (arith, eq_iff t.peer.name other)),
      )
  turn_at-AllTrack (suc i) (t ∷ ts) g w (fresh, distinct) ((given, tracks), rest) =
      let (ts', g', w', goes, same, all, keeps) = turn_at-AllTrack i ts g w distinct rest in
      (
        t ∷ ts',
        g',
        w',
        rw (goes, turn_at) refl,
        rw same refl,
        (
          (
            given,
            Tracks-Same t.peer t.phase g g'
                (keeps t.peer.name
                  (subst (λ ns. elem t.peer.name ns ≡ false) (names-peers_of ts) fresh))
                tracks,
          ),
          all,
        ),
        λ other absent. keeps other (ground arith),
      )

  pub spawn-AllTrack :
      (ns : List (Peer W)) (g : PeersMetrics)
      → All (λ (n : Peer W). n.client ≡ some client) ns
      → AllTrack (spawn ns) g
  unfolding spawn
  spawn-AllTrack [] g clients = tt
  spawn-AllTrack (n ∷ ns) g (given, rest) = ((given, tt), spawn-AllTrack ns g rest)

  pub run-AllTrack :
      (es : List (Event W)) (s : Running W)
      → AreDistinct (peers_of s.goroutines)
      → AllTrack s.goroutines s.metrics
      → (s' : Running W) × (run is_ip es s ≡ some s')
        × (peers_of s'.goroutines ≡ peers_of s.goroutines)
        × AllTrack s'.goroutines s'.metrics
  unfolding run
  run-AllTrack [] s distinct all = (s, refl, refl, all)
  run-AllTrack (outside f ∷ es) s distinct all =
      run-AllTrack es (record s { network = f s.network }) distinct all
  run-AllTrack (turn i ∷ es) s distinct all =
      let (ts, g, w, goes, same, still, keeps) =
        turn_at-AllTrack i s.goroutines s.metrics s.network distinct all in
      let (s', ends, same', all') =
        run-AllTrack es (record { goroutines = ts; metrics = g; network = w })
          (subst (λ ns. AreDistinct ns) (sym same) distinct) still in
      (s', rw (goes, run) ends, same' ∙ same, all')
