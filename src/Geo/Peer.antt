-- ===== src/Geo/Peer.antt =====
-- paas-geo-monitor/pkg/resources/peer.go and the method `Resolve` of pkg/client/client.go: a peer and
-- the check of it. The interface `PeerClient`, `net.ParseIP`, `net.LookupIP` and
-- `url.ParseRequestURI` are parameters; the state `W` is that of the network.
use drnavigator.Common.{
  ℕ, suc, String, Bool, true, false, not, Option, none, some, List, [], ◌∷◌, Result, ok, err,
  GoError, ◌==◌, ◌+++◌, if◌then◌else◌, length, decimal,
}
use drnavigator.Common.Num.{ℤ, pos, negsuc, ◌==◌ as nat_eq}

pub record ClusterIp : Type 0 where
  pub name : String
  pub svc_port : ℤ
  pub pod_port : ℤ
  pub protocol : String

pub record PeerClient (W : Type 0) : Type 0 where
  pub resolve : String → W → Result String String × W
  pub get : String → String → W → Result String String × W

pub record Peer (W : Type 0) : Type 0 where
  pub name : String
  pub cluster_ip : ClusterIp
  pub client : Option (PeerClient W)

pub record DnsStatus : Type 0 where
  pub resolved : Bool
  pub error : String

pub record SvcStatus : Type 0 where
  pub available : Bool
  pub address : String
  pub error : String

pub record PodStatus : Type 0 where
  pub available : Bool
  pub address : String
  pub error : String

pub record ClusterIpStatus : Type 0 where
  pub cluster_ip : ClusterIp
  pub dns_status : Option DnsStatus
  pub svc_status : Option SvcStatus
  pub pod_status : Option PodStatus

pub record PeerStatus : Type 0 where
  pub name : String
  pub cluster_ip_status : ClusterIpStatus

unfoldable pub is_zero : ℤ → Bool
is_zero (pos n) = nat_eq n 0
is_zero (negsuc n) = false

-- The verb %d.
unfoldable pub show_int : ℤ → String
show_int (pos n) = decimal n
show_int (negsuc n) = "-" +++ decimal (suc n)

wrong_count : String → ℕ → String
wrong_count name n =
    "expected one resolved IP for name "
    +++ name
    +++ ", but got: "
    +++ decimal n
    +++ " IP addresses"

-- `Resolve` of `HttpClient`, over what `net.LookupIP` returns, each address as its text.
unfoldable pub resolve_one :
    {W : Type 0}
    → (String → W → Result String (List String) × W)
    → String
    → W
    → Result String String × W
unfolding wrong_count
resolve_one lookup_ip name w =
    let (ips, w1) = lookup_ip name w in
    elim ips [
      | err e ↦ (err ("unable to resolve name " +++ name +++ ": " +++ e), w1)
      | ok [] ↦ (err (wrong_count name 0), w1)
      | ok (ip ∷ []) ↦ (ok ip, w1)
      | ok (ip ∷ other ∷ rest) ↦ (err (wrong_count name (length (ip ∷ other ∷ rest))), w1)
    ]

unfoldable pub ping_url : ClusterIp → ℤ → String
ping_url ip port = ip.protocol +++ "://" +++ ip.name +++ ":" +++ show_int port +++ "/ping"

module _ {W : Type 0} where
  -- The client and the defaults that `Init` puts into a peer.
  unfoldable pub with_defaults : PeerClient W → Peer W → Peer W
  with_defaults client n = record {
    name = n.name;
    cluster_ip = record {
      name = n.cluster_ip.name;
      svc_port = if is_zero n.cluster_ip.svc_port then pos 8080 else n.cluster_ip.svc_port;
      pod_port = if is_zero n.cluster_ip.pod_port then pos 8080 else n.cluster_ip.pod_port;
      protocol = if n.cluster_ip.protocol == "" then "http" else n.cluster_ip.protocol;
    };
    client = some client;
  }

  -- `Init`: the peer is changed even where an error is returned.
  unfoldable pub init : (String → GoError) → PeerClient W → Peer W → GoError × Peer W
  init parse_request_uri client n =
      let n' = with_defaults client n in
      elim (parse_request_uri
        (n'.cluster_ip.protocol +++ "://" +++ n'.cluster_ip.name +++ "/ping")) [
          | some e ↦ (some ("error validating " +++ n.name +++ " peer, incorrect url: " +++ e), n')
          | none ↦ (none, n')
        ]

  module _ (is_ip : String → Bool) where
    unfoldable pub pod_status : PeerClient W → ClusterIp → String → W → PodStatus × W
    pod_status client ip address w =
        let (answer, w1) = client.get (ping_url ip ip.pod_port) address w in
        elim answer [
          | err e ↦ (
            record {
              available = false;
              address = address;
              error = "failed to ping peer pod: " +++ e;
            },
            w1,
          )
          | ok response ↦
              if not (address == response)
              then (
                record {
                  available = false;
                  address = address;
                  error = "expected peer pod IP " +++ address +++ ", got " +++ response;
                },
                w1,
              )
              else (record { available = true; address = address; error = "" }, w1)
        ]

    -- In the message on an incorrect address the code formats its nil error.
    unfoldable pub svc_status :
        PeerClient W → ClusterIp → String → W → SvcStatus × (Option PodStatus) × W
    svc_status client ip resolved w =
        let (answer, w1) = client.get (ping_url ip ip.svc_port) resolved w in
        elim answer [
          | err e ↦ (
            record {
              available = false;
              address = resolved;
              error = "failed to ping peer service: " +++ e;
            },
            none,
            w1,
          )
          | ok response ↦
              if not (is_ip response)
              then (
                record {
                  available = false;
                  address = resolved;
                  error = "peer ping returned incorrect IP: %!s(<nil>)";
                },
                none,
                w1,
              )
              else let (pod, w2) = pod_status client ip response w1 in
                (record { available = true; address = resolved; error = "" }, some pod, w2)
        ]

    -- `Status`.
    unfoldable pub status : Peer W → W → Result String PeerStatus × W
    unfolding svc_status pod_status
    status n w = elim n.client [
      | none ↦ (err "not initialized with a client", w)
      | some client ↦
          let (address, w1) = client.resolve n.cluster_ip.name w in
          elim address [
            | err e ↦ (
              ok (record {
                name = n.name;
                cluster_ip_status = record {
                  cluster_ip = n.cluster_ip;
                  dns_status =
                      some (record { resolved = false; error = "failed to resolve peer: " +++ e });
                  svc_status = none;
                  pod_status = none;
                };
              }),
              w1,
            )
            | ok resolved ↦
                let (svc, pod, w2) = svc_status client n.cluster_ip resolved w1 in
                (
                  ok (record {
                    name = n.name;
                    cluster_ip_status = record {
                      cluster_ip = n.cluster_ip;
                      dns_status = some (record { resolved = true; error = "" });
                      svc_status = some svc;
                      pod_status = pod;
                    };
                  }),
                  w2,
                )
          ]
    ]
