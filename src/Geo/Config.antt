-- ===== src/Geo/Config.antt =====
-- paas-geo-monitor/pkg/app/app.go, `GetConfig`: the configuration, whose peers are initialised and
-- have distinct names. The file and the YAML decoder are parameters.
pub mod Completed
use mathlib.Core.Path.{subst}
use drnavigator.Common.{
  sym, String, false, ◌≡◌, ◌≢◌, ◌↔◌, refl, none, some, List, [], ◌∷◌, Result, ok, err, GoError,
  ◌==◌, ◌+++◌, if◌then◌else◌, All, map, elem, arith, eq_iff, Bool-cases, Result-cases, inl, inr,
}
use drnavigator.Common.Num.{ℤ, pos}
use drnavigator.Geo.Peer.{Peer, PeerClient, init, is_zero, with_defaults}

pub record GeoConfig (W : Type 0) : Type 0 where
  pub port : ℤ
  pub peers : List (Peer W)

default_port : (x : ℤ) → is_zero (if is_zero x then pos 8080 else x) ≡ false
unfolding is_zero
default_port x = elim (Bool-cases (is_zero x)) [
  | inl zero_port ↦ rw zero_port refl
  | inr given ↦ rw (given, given) refl
]

default_protocol : (s : String) → (if s == "" then "http" else s) ≢ ""
default_protocol s = elim (Bool-cases (s == "")) [
  | inl blank ↦ rw blank (λ e. ground (arith, eq_iff "http" ""))
  | inr given ↦ rw given (λ e. ground (arith, eq_iff s ""))
]

-- No two peers of the list have a name in common.
abbrev pub AreDistinct : {W : Type 0} → List (Peer W) → Type 0
AreDistinct [] = Unit
AreDistinct (n ∷ rest) = (elem n.name (map (λ p. p.name) rest) ≡ false) × AreDistinct rest

module _ {W : Type 0} (parse_request_uri : String → GoError) (client : PeerClient W) where
  -- The loop over the peers: each is compared with those after it, and initialised.
  unfoldable pub init_all : List (Peer W) → Result String (List (Peer W))
  init_all [] = ok []
  init_all (n ∷ rest) =
      if elem n.name (map (λ (p : Peer W). p.name) rest)
      then err
          ("Found more than one peers with name " +++ n.name +++ ". Peer name should be unique")
      else let (e, n') = init parse_request_uri client n in
        let others = init_all rest in
        elim e [ some m ↦ err m | none ↦ elim others [ err m ↦ err m | ok ps ↦ ok (n' ∷ ps) ] ]

  -- `content` is the file, as it can be opened.
  unfoldable pub get_config :
      (String → Result String (GeoConfig W)) → Result String String → Result String (GeoConfig W)
  get_config decode content = elim content [
    | err e ↦ err e
    | ok text ↦ elim (decode text) [
      | err e ↦ err e
      | ok cfg ↦ elim (init_all cfg.peers) [
        | err e ↦ err e
        | ok ps ↦ ok (record { port = if is_zero cfg.port then pos 8080 else cfg.port; peers = ps })
      ]
    ]
  ]

  -- The URL of a peer parses.
  abbrev pub IsValid : Peer W → Type 0
  IsValid n = (init parse_request_uri client n).0 ≡ none

  -- What `GetConfig` gives a peer: a client, a protocol, and two ports.
  abbrev pub IsInitialised : Peer W → Type 0
  IsInitialised n =
      (n.client ≡ some client)
      × (n.cluster_ip.protocol ≢ "")
      × (is_zero n.cluster_ip.svc_port ≡ false)
      × (is_zero n.cluster_ip.pod_port ≡ false)

  with_defaults-IsInitialised : (n : Peer W) → IsInitialised (with_defaults client n)
  unfolding with_defaults
  with_defaults-IsInitialised n =
      (refl, default_protocol n.cluster_ip.protocol, default_port _, default_port _)

  All-IsInitialised : (ns : List (Peer W)) → All IsInitialised (map (with_defaults client) ns)
  All-IsInitialised [] = tt
  All-IsInitialised (n ∷ ns) = (with_defaults-IsInitialised n, All-IsInitialised ns)

  init-with_defaults : (n : Peer W) → (init parse_request_uri client n).1 ≡ with_defaults client n
  unfolding init
  init-with_defaults n = ground arith

  init_all_iff :
      (ns ps : List (Peer W))
      → (init_all ns ≡ ok ps)
        ↔ (AreDistinct ns × All IsValid ns × (ps ≡ map (with_defaults client) ns))
  unfolding init_all
  init_all_iff [] ps = (λ e. (tt, tt, ground arith), λ h. ground arith)
  init_all_iff (n ∷ rest) ps =
      let given = init-with_defaults n in
      elim (Result-cases (init_all rest)) [
        | inl (m, fails) ↦ (
          λ e. absurd (ground arith),
          λ (d, v, same).
              let again =
                (init_all_iff rest (map (with_defaults client) rest)).1 (d.1, v.1, refl) in
              absurd (ground arith),
        )
        | inr (qs, works) ↦
            let (d, v, same) = (init_all_iff rest qs).0 works in
            (
              λ e. ((ground arith, d), (ground arith, v), ground arith),
              λ (d', v', same'). (let (x, y) = d' in let (x', y') = v' in ground arith),
            )
      ]

  pub get_config-with_defaults :
      (decode : String → Result String (GeoConfig W)) (content : Result String String)
      (cfg : GeoConfig W)
      → (get_config decode content ≡ ok cfg) ↔ (
          (text : String) × (raw : GeoConfig W) × (content ≡ ok text)
          × (decode text ≡ ok raw)
          × AreDistinct raw.peers
          × All IsValid raw.peers
          × (cfg.peers ≡ map (with_defaults client) raw.peers)
          × (cfg.port ≡ (if is_zero raw.port then pos 8080 else raw.port)))
  unfolding get_config
  get_config-with_defaults decode (err e) cfg =
      (λ h. absurd (ground arith), λ (text, raw, same, good, d, v, e', p). absurd (ground arith))
  get_config-with_defaults decode (ok text) cfg = elim (Result-cases (decode text)) [
    | inl (e, bad) ↦
        (λ h. absurd (ground arith), λ (text', raw, same, good, d, v, e', p). absurd (ground arith))
    | inr (raw, good) ↦
        let (there, back) = init_all_iff raw.peers cfg.peers in
        (
          λ h.
              (let all_fine : init_all raw.peers ≡ ok cfg.peers = ground arith in
                let (d, v, same) = there all_fine in
                (text, raw, refl, good, d, v, same, ground arith)),
          λ (text', raw', same, good', d, v, e', p).
              (let same_raw : raw' ≡ raw = ground arith in
                let all_fine : init_all raw.peers ≡ ok cfg.peers = back (
                  subst (λ (q : GeoConfig W). AreDistinct q.peers) same_raw d,
                  subst (λ (q : GeoConfig W). All IsValid q.peers) same_raw v,
                  ground arith,
                ) in
                ground arith),
        )
  ]

  -- Every peer of a configuration that is returned has a client, a protocol and two ports that are not
  -- zero.
  pub get_config-IsInitialised :
      (decode : String → Result String (GeoConfig W)) (content : Result String String)
      (cfg : GeoConfig W)
      → get_config decode content ≡ ok cfg
      → All IsInitialised cfg.peers
  get_config-IsInitialised decode content cfg given =
      let (text, raw, same, good, d, v, peers_eq, p) =
        (get_config-with_defaults decode content cfg).0 given in
      subst (λ ps. All IsInitialised ps) (sym peers_eq) (All-IsInitialised raw.peers)

  with_defaults-names :
      (ns : List (Peer W))
      → map (λ (p : Peer W). p.name) (map (with_defaults client) ns) ≡ map (λ p. p.name) ns
  unfolding with_defaults
  with_defaults-names [] = refl
  with_defaults-names (n ∷ ns) = rw (with_defaults-names ns) refl

  with_defaults-AreDistinct :
      (ns : List (Peer W)) → AreDistinct ns → AreDistinct (map (with_defaults client) ns)
  unfolding with_defaults
  with_defaults-AreDistinct [] distinct = tt
  with_defaults-AreDistinct (n ∷ ns) (fresh, distinct) =
      (rw (with_defaults-names ns) fresh, with_defaults-AreDistinct ns distinct)

  -- The peers of a configuration that is returned have distinct names.
  pub get_config-AreDistinct :
      (decode : String → Result String (GeoConfig W)) (content : Result String String)
      (cfg : GeoConfig W)
      → get_config decode content ≡ ok cfg
      → AreDistinct cfg.peers
  get_config-AreDistinct decode content cfg given =
      let (text, raw, same, good, d, v, peers_eq, p) =
        (get_config-with_defaults decode content cfg).0 given in
      subst (λ ps. AreDistinct ps) (sym peers_eq) (with_defaults-AreDistinct raw.peers d)
