-- ===== src/Geo/Config/Completed.antt =====
-- What `GetConfig` of paas-geo-monitor/pkg/app/app.go makes of the configuration of the file.
use drnavigator.Common.{
  ap, String, true, ◌⊎◌, ◌≡◌, ◌≢◌, ◌↔◌, refl, none, some, List, [], ◌∷◌, Result, ok, GoError, ◌==◌,
  ◌+++◌, if◌then◌else◌, All, map, arith, eq_iff,
}
use drnavigator.Common.Num.{ℤ, pos, negsuc}
use drnavigator.Geo.Peer.{Peer, PeerClient, init, is_zero, with_defaults}
use drnavigator.Geo.Config.{GeoConfig, AreDistinct, IsValid, get_config, get_config-with_defaults}

-- The value for a setting: the default for an empty one, and else the one that is given.
abbrev pub IsDefaulted : {A : Type 0} → A → A → A → A → Type 0
IsDefaulted empty default given value =
    ((given ≡ empty) × (value ≡ default)) ⊎ ((given ≢ empty) × (value ≡ given))

is_zero_iff : (x : ℤ) → (is_zero x ≡ true) ↔ (x ≡ pos 0)
unfolding is_zero
is_zero_iff (pos n) = ground arith
is_zero_iff (negsuc n) = ground arith

port-IsDefaulted :
    (x y : ℤ) → (y ≡ (if is_zero x then pos 8080 else x)) ↔ IsDefaulted (pos 0) (pos 8080) x y
port-IsDefaulted x y = ground (arith, is_zero_iff x)

protocol-IsDefaulted :
    (s t : String) → (t ≡ (if s == "" then "http" else s)) ↔ IsDefaulted "" "http" s t
protocol-IsDefaulted s t = ground (arith, eq_iff s "")

module _ {W : Type 0} (parse_request_uri : String → GoError) (client : PeerClient W) where
  -- What `GetConfig` makes of a peer of the file: it has the client, its empty settings have their
  -- defaults, the others are kept, and its URL parses.
  pub record IsCompleted (n n' : Peer W) : Type 0 where
    pub named : n'.name ≡ n.name
    pub host : n'.cluster_ip.name ≡ n.cluster_ip.name
    pub svc_port : IsDefaulted (pos 0) (pos 8080) n.cluster_ip.svc_port n'.cluster_ip.svc_port
    pub pod_port : IsDefaulted (pos 0) (pos 8080) n.cluster_ip.pod_port n'.cluster_ip.pod_port
    pub protocol : IsDefaulted "" "http" n.cluster_ip.protocol n'.cluster_ip.protocol
    pub connected : n'.client ≡ some client
    pub parses :
        parse_request_uri (n'.cluster_ip.protocol +++ "://" +++ n'.cluster_ip.name +++ "/ping")
        ≡ none

  -- The same of two lists, peer by peer.
  abbrev pub AreCompleted : List (Peer W) → List (Peer W) → Type 0
  AreCompleted [] [] = Unit
  AreCompleted [] (n' ∷ ps) = ⊥
  AreCompleted (n ∷ ns) [] = ⊥
  AreCompleted (n ∷ ns) (n' ∷ ps) = IsCompleted n n' × AreCompleted ns ps

  init-parses :
      (n : Peer W)
      → let ip = (with_defaults client n).cluster_ip in
        ((init parse_request_uri client n).0 ≡ none)
        ↔ (parse_request_uri (ip.protocol +++ "://" +++ ip.name +++ "/ping") ≡ none)
  unfolding init
  init-parses n = ground arith

  init-IsCompleted :
      (n n' : Peer W)
      → (IsValid parse_request_uri client n × (n' ≡ with_defaults client n)) ↔ IsCompleted n n'
  unfolding with_defaults
  init-IsCompleted n n' = (
    λ (valid, same). record {
      named = ap (λ (p : Peer W). p.name) same;
      host = ap (λ (p : Peer W). p.cluster_ip.name) same;
      svc_port = (port-IsDefaulted _ _).0 (ap (λ (p : Peer W). p.cluster_ip.svc_port) same);
      pod_port = (port-IsDefaulted _ _).0 (ap (λ (p : Peer W). p.cluster_ip.pod_port) same);
      protocol = (protocol-IsDefaulted _ _).0 (ap (λ (p : Peer W). p.cluster_ip.protocol) same);
      connected = ap (λ (p : Peer W). p.client) same;
      parses = rw same ((init-parses n).0 valid);
    },
    λ h.
        let same : n' ≡ with_defaults client n =
          (let s = (port-IsDefaulted _ _).1 h.svc_port in
            let q = (port-IsDefaulted _ _).1 h.pod_port in
            let t = (protocol-IsDefaulted _ _).1 h.protocol in
            let a = h.named in let b = h.host in let c = h.connected in cc) in
        ((init-parses n).1 (rw same at h.parses), same),
  )

  All-AreCompleted :
      (ns ps : List (Peer W))
      → (All (IsValid parse_request_uri client) ns × (ps ≡ map (with_defaults client) ns))
        ↔ AreCompleted ns ps
  All-AreCompleted [] [] = (λ h. tt, λ h. (tt, refl))
  All-AreCompleted [] (n' ∷ ps) = (λ h. absurd (ground arith), λ h. absurd h)
  All-AreCompleted (n ∷ ns) [] = (λ h. absurd (ground arith), λ h. absurd h)
  All-AreCompleted (n ∷ ns) (n' ∷ ps) =
      let (one, one') = init-IsCompleted n n' in
      let (rest, rest') = All-AreCompleted ns ps in
      (
        λ ((v, vs), same). (one (v, ground arith), rest (vs, ground arith)),
        λ (h, hs). (let (v, e) = one' h in let (vs, es) = rest' hs in ((v, vs), rw (e, es) refl)),
      )

  -- A configuration is returned exactly when the file is read and decodes, the names of its peers
  -- differ, and the URLs of the peers of the configuration parse. Those are the peers of the file, in
  -- order, with the client, the port 8080 for a port that is 0, and the protocol "http" for an empty
  -- one. The port of the configuration is that of the file, or 8080 if that is 0.
  pub get_config_iff :
      (decode : String → Result String (GeoConfig W)) (content : Result String String)
      (cfg : GeoConfig W)
      → (get_config parse_request_uri client decode content ≡ ok cfg) ↔ (
          (text : String) × (raw : GeoConfig W) × (content ≡ ok text)
          × (decode text ≡ ok raw)
          × AreDistinct raw.peers
          × AreCompleted raw.peers cfg.peers
          × IsDefaulted (pos 0) (pos 8080) raw.port cfg.port)
  get_config_iff decode content cfg =
      let (there, back) = get_config-with_defaults parse_request_uri client decode content cfg in
      (
        λ given.
            (let (text, raw, read, good, distinct, valid, peers, port) = there given in
              (
                text,
                raw,
                read,
                good,
                distinct,
                (All-AreCompleted raw.peers cfg.peers).0 (valid, peers),
                (port-IsDefaulted raw.port cfg.port).0 port,
              )),
        λ (text, raw, read, good, distinct, completed, port).
            (let (valid, peers) = (All-AreCompleted raw.peers cfg.peers).1 completed in
              back (
                text,
                raw,
                read,
                good,
                distinct,
                valid,
                peers,
                (port-IsDefaulted raw.port cfg.port).1 port,
              )),
      )
