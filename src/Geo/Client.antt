-- ===== src/Geo/Client.antt =====
-- paas-geo-monitor/pkg/client/client.go: the client of a peer. `net.LookupIP`, the host name of a URL
-- as `url.ParseRequestURI` finds it, `strings.Split` at ":", and the method `Get` of a client of
-- `net/http` are parameters; the state `W` is that of the network.
use drnavigator.Common.{
  String, Option, none, some, List, [], ◌∷◌, Result, ok, err, ◌==◌, ◌+++◌, if◌then◌else◌,
}
use drnavigator.Geo.Peer.{PeerClient, resolve_one}

-- Where the dialer of a request connects, instead of the address that it is given.
pub data Target : Type 0 where
  refused : String → Target
  connect : String → Target
  out_of_range : Target

pub record Net (W : Type 0) : Type 0 where
  pub lookup_ip : String → W → Result String (List String) × W
  pub hostname : String → Result String String
  pub split : String → List String
  -- With the dialer, or the default one; the error, or the body as it can be read.
  pub get : Option (String → Target) → String → W → Result String (Result String String) × W

module _ {W : Type 0} (net : Net W) where
  -- The address that is dialed for `addr`: the host of the URL is replaced by the IP.
  unfoldable pub dial_target : String → String → String → Target
  dial_target req_url ip addr = elim (net.hostname req_url) [
    | err e ↦ refused ("failed to parse probe url: " +++ e)
    | ok host ↦ elim (net.split addr) [
      | [] ↦ out_of_range
      | (first ∷ rest) ↦
          if first == host
          then elim rest [ [] ↦ out_of_range | (port ∷ more) ↦ connect (ip +++ ":" +++ port) ]
          else connect addr
    ]
  ]

  -- `Get`
  unfoldable pub get : String → String → W → Result String String × W
  get req_url ip w =
      let dialer = if ip == "" then none else some (dial_target req_url ip) in
      let (answer, w1) = net.get dialer req_url w in
      elim answer [
        | err e ↦ (err e, w1)
        | ok body ↦ elim body [ err e ↦ (err e, w1) | ok text ↦ (ok text, w1) ]
      ]

  -- `HttpClient`
  unfoldable pub http_client : PeerClient W
  http_client = record { resolve = resolve_one net.lookup_ip; get = get }
