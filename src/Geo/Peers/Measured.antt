-- ===== src/Geo/Peers/Measured.antt =====
-- What the checks of the peers set and answer.
use drnavigator.Common.{
  ℕ, zero, suc, String, Bool, true, false, ◌≡◌, ◌≢◌, none, some, List, [], ◌∷◌, Result, ok, err,
  ◌+++◌, ◌==◌, arith, map, All, inl, inr, Option-cases, Bool-cases, Result-cases, eq_iff, refl,
  eq_refl, ◌∙◌,
}
use drnavigator.Common.Action.{outcome_cases}
use drnavigator.Common.Num.{ℤ, pos, negsuc}
use drnavigator.Geo.Gauge.{GaugeVec, set, value, value-set, same_labels}
use drnavigator.Geo.Peer.{Peer, PeerStatus, PeerClient, status, svc_status, pod_status, ping_url}
use drnavigator.Geo.Peers.{
  PeersMetrics, Levels, levels, measure, ping_peer, ping_rounds, all_statuses, get_peers_status,
}

pub set-shows :
    (g : GaugeVec) (name : String) (v : ℤ) → value (set g (name ∷ []) v) (name ∷ []) ≡ some v
unfolding same_labels
set-shows g name v =
    rw (value-set g (name ∷ []) (name ∷ []) v) (let same = eq_refl name in ground arith)

pub set-keeps :
    (g : GaugeVec) (name other : String) (v : ℤ)
    → other ≢ name
    → value (set g (name ∷ []) v) (other ∷ []) ≡ value g (other ∷ [])
unfolding same_labels
set-keeps g name other v differ =
    rw (value-set g (name ∷ []) (other ∷ []) v) (ground (arith, eq_iff name other))

module _ {W : Type 0} (is_ip : String → Bool) where
  -- What the network says of a peer, as the three values: the name resolves, the service answers with
  -- an address, and the pod answers with the same.
  pub data IsMeasured (client : PeerClient W) (n : Peer W) (w : W) : Levels → Type 0 where
    unresolved :
        (e : String)
        → (client.resolve n.cluster_ip.name w).0 ≡ err e
        → IsMeasured client n w (record { dns = pos 0; svc = negsuc 0; pod = negsuc 0 })
    no_service :
        (ip : String) (w1 : W)
        → client.resolve n.cluster_ip.name w ≡ (ok ip, w1)
        → ((answer : String)
            → (client.get (ping_url n.cluster_ip n.cluster_ip.svc_port) ip w1).0 ≡ ok answer
            → is_ip answer ≡ false)
        → IsMeasured client n w (record { dns = pos 1; svc = pos 0; pod = negsuc 0 })
    no_pod :
        (ip address : String) (w1 w2 : W)
        → client.resolve n.cluster_ip.name w ≡ (ok ip, w1)
        → client.get (ping_url n.cluster_ip n.cluster_ip.svc_port) ip w1 ≡ (ok address, w2)
        → is_ip address ≡ true
        → (client.get (ping_url n.cluster_ip n.cluster_ip.pod_port) address w2).0 ≢ ok address
        → IsMeasured client n w (record { dns = pos 1; svc = pos 1; pod = pos 0 })
    reached :
        (ip address : String) (w1 w2 : W)
        → client.resolve n.cluster_ip.name w ≡ (ok ip, w1)
        → client.get (ping_url n.cluster_ip n.cluster_ip.svc_port) ip w1 ≡ (ok address, w2)
        → is_ip address ≡ true
        → (client.get (ping_url n.cluster_ip n.cluster_ip.pod_port) address w2).0 ≡ ok address
        → IsMeasured client n w (record { dns = pos 1; svc = pos 1; pod = pos 1 })

  status_returns :
      (client : PeerClient W) (n : Peer W) (w : W)
      → n.client ≡ some client
      → (s : PeerStatus) × ((status is_ip n w).0 ≡ ok s) × (s.name ≡ n.name)
  unfolding status
  status_returns client n w given = elim (Result-cases (status is_ip n w).0) [
    | inl (e, fails) ↦ absurd (ground arith)
    | inr (s, works) ↦ (s, works, ground arith)
  ]

  measured :
      (client : PeerClient W) (n : Peer W) (w : W) (s : PeerStatus)
      → n.client ≡ some client
      → (status is_ip n w).0 ≡ ok s
      → (l : Levels) × (levels s ≡ some l) × IsMeasured client n w l
  unfolding status svc_status pod_status levels
  measured client n w s given works = elim (outcome_cases (client.resolve n.cluster_ip.name w)) [
    | inr (e, w1, fails) ↦ (
      record { dns = pos 0; svc = negsuc 0; pod = negsuc 0 },
      ground arith,
      unresolved e (ground arith),
    )
    | inl (ip, w1, resolves) ↦
        elim (outcome_cases (client.get (ping_url n.cluster_ip n.cluster_ip.svc_port) ip w1)) [
          | inr (e, w2, fails) ↦ (
            record { dns = pos 1; svc = pos 0; pod = negsuc 0 },
            ground arith,
            no_service ip w1 resolves (λ a good. absurd (ground arith)),
          )
          | inl (address, w2, answers) ↦ elim (Bool-cases (is_ip address)) [
            | inr bad ↦ (
              record { dns = pos 1; svc = pos 0; pod = negsuc 0 },
              ground arith,
              no_service ip w1 resolves
                  (λ a good. (let same : a ≡ address = ground arith in rw same bad)),
            )
            | inl good ↦
                elim (outcome_cases
                  (client.get (ping_url n.cluster_ip n.cluster_ip.pod_port) address w2)) [
                    | inr (e, w3, fails) ↦ (
                      record { dns = pos 1; svc = pos 1; pod = pos 0 },
                      ground arith,
                      no_pod ip address w1 w2 resolves answers good (λ h. absurd (ground arith)),
                    )
                    | inl (echo, w3, echoes) ↦ elim (Bool-cases (address == echo)) [
                      | inl same ↦ (
                        record { dns = pos 1; svc = pos 1; pod = pos 1 },
                        ground (arith, eq_iff address echo),
                        reached ip address w1 w2 resolves answers good
                            (ground (arith, eq_iff address echo)),
                      )
                      | inr differ ↦ (
                        record { dns = pos 1; svc = pos 1; pod = pos 0 },
                        ground (arith, eq_iff address echo),
                        no_pod ip address w1 w2 resolves answers good
                            (λ h. ground (arith, eq_iff address echo)),
                      )
                    ]
                  ]
          ]
        ]
  ]

  -- The check of a peer with a client returns a status, which has no nil that the metrics dereference,
  -- and whose values are what the network says of the peer.
  pub status-IsMeasured :
      (client : PeerClient W) (n : Peer W) (w : W)
      → n.client ≡ some client
      → (s : PeerStatus) × (l : Levels) × ((status is_ip n w).0 ≡ ok s)
        × (s.name ≡ n.name)
        × (levels s ≡ some l)
        × IsMeasured client n w l
  status-IsMeasured client n w given =
      let (s, works, same) = status_returns client n w given in
      let (l, shown, is) = measured client n w s given works in (s, l, works, same, shown, is)

  -- The three series of a peer hold the values.
  abbrev pub Shows : Peer W → Levels → PeersMetrics → Type 0
  Shows n l g =
      (value g.dns_status (n.name ∷ []) ≡ some l.dns)
      × (value g.svc_status (n.name ∷ []) ≡ some l.svc)
      × (value g.pod_status (n.name ∷ []) ≡ some l.pod)

  -- The series of another peer are those of the first metrics.
  abbrev pub Keeps : Peer W → PeersMetrics → PeersMetrics → Type 0
  Keeps n g g' =
      (other : String)
      → other ≢ n.name
      → (value g'.dns_status (other ∷ []) ≡ value g.dns_status (other ∷ []))
        × (value g'.svc_status (other ∷ []) ≡ value g.svc_status (other ∷ []))
        × (value g'.pod_status (other ∷ []) ≡ value g.pod_status (other ∷ []))

  -- So a check finds values, and they are what the network says.
  pub measure-IsMeasured :
      (client : PeerClient W) (n : Peer W) (w : W)
      → n.client ≡ some client
      → (l : Levels) × ((measure is_ip n w).0 ≡ some l) × IsMeasured client n w l
  unfolding measure
  measure-IsMeasured client n w given =
      let (s, l, works, same, shown, is) = status-IsMeasured client n w given in
      (l, ground arith, is)

  ping_peer-IsMeasured :
      (client : PeerClient W) (n : Peer W) (g : PeersMetrics) (w : W)
      → n.client ≡ some client
      → (g' : PeersMetrics) × (w' : W) × (l : Levels) × (ping_peer is_ip n g w ≡ some (g', w'))
        × IsMeasured client n w l
        × Shows n l g'
        × Keeps n g g'
  unfolding ping_peer
  ping_peer-IsMeasured client n g w given =
      let (l, found, is) = measure-IsMeasured client n w given in
      (
        record {
          dns_status = set g.dns_status (n.name ∷ []) l.dns;
          svc_status = set g.svc_status (n.name ∷ []) l.svc;
          pod_status = set g.pod_status (n.name ∷ []) l.pod;
        },
        (measure is_ip n w).1,
        l,
        ground arith,
        is,
        (set-shows _ _ _, set-shows _ _ _, set-shows _ _ _),
        λ other differ.
            (set-keeps _ _ _ _ differ, set-keeps _ _ _ _ differ, set-keeps _ _ _ _ differ),
      )

  -- Of a peer with a client, any number of rounds ends without a dereference of nil; after the last of
  -- them the three series of the peer hold what that round measured, and the series of other peers
  -- are as they were.
  pub ping_rounds-IsMeasured :
      (k : ℕ) (client : PeerClient W) (n : Peer W) (g : PeersMetrics) (w : W)
      → n.client ≡ some client
      → (g' : PeersMetrics) × (w' : W) × (before : W) × (l : Levels) × (ping_rounds is_ip
            (suc k)
            n
            g
            w
          ≡ some (g', w'))
        × IsMeasured client n before l
        × Shows n l g'
        × Keeps n g g'
  unfolding ping_rounds
  ping_rounds-IsMeasured zero client n g w given =
      let (g', w', l, round, is, shows, keeps) = ping_peer-IsMeasured client n g w given in
      (g', w', w, l, rw (round, ping_rounds) refl, is, shows, keeps)
  ping_rounds-IsMeasured (suc k) client n g w given =
      let (g1, w1, l1, round, is1, shows1, keeps1) = ping_peer-IsMeasured client n g w given in
      let (g', w', before, l, rest, is, shows, keeps) =
        ping_rounds-IsMeasured k client n g1 w1 given in
      (
        g',
        w',
        before,
        l,
        rw (round, ping_rounds) rest,
        is,
        shows,
        λ other differ.
            (let (a, b, c) = keeps other differ in
              let (a1, b1, c1) = keeps1 other differ in (a ∙ a1, b ∙ b1, c ∙ c1)),
      )

  all_statuses_returns :
      (ns : List (Peer W)) (w : W)
      → All (λ (n : Peer W). n.client ≢ none) ns
      → (ss : List PeerStatus) × ((all_statuses is_ip ns w).0 ≡ ok ss)
        × (map (λ (s : PeerStatus). s.name) ss ≡ map (λ (n : Peer W). n.name) ns)
  unfolding all_statuses
  all_statuses_returns [] w clients = ([], refl, refl)
  all_statuses_returns (n ∷ rest) w (given, others) = elim (Option-cases n.client) [
    | inl missing ↦ absurd (given missing)
    | inr (client, has_one) ↦
        let (s, works, same) = status_returns client n w has_one in
        let (ss, all_work, names) = all_statuses_returns rest (status is_ip n w).1 others in
        (s ∷ ss, ground arith, rw (same, names) refl)
  ]

  -- If every peer has a client, the handler has a status of each, in order, and so it answers what the
  -- encoder makes of them, or its error.
  pub get_peers_status-answers :
      (marshal : List PeerStatus → Result String String) (ns : List (Peer W)) (w : W)
      → All (λ (n : Peer W). n.client ≢ none) ns
      → (ss : List PeerStatus) × (map (λ (s : PeerStatus). s.name) ss
          ≡ map (λ (n : Peer W). n.name) ns)
        × ((get_peers_status is_ip marshal ns w).0 ≡ (elim (marshal ss) [
          | err e ↦ err ("failed to marshal response: " +++ e)
          | ok text ↦ ok text
        ]))
  unfolding get_peers_status
  get_peers_status-answers marshal ns w clients =
      let (ss, all_work, names) = all_statuses_returns ns w clients in (ss, names, ground arith)
