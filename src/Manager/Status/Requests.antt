-- ===== src/Manager/Status/Requests.antt =====
-- How many requests a call of `GetServiceStatus` sends.
use drnavigator.Common.{
  ℕ, zero, suc, ◌+◌, ◌*◌, ◌≤◌, String, Bool, ◌≡◌, refl, true, false, Option, none, some, [], ◌∷◌,
  ok, arith, inl, inr, length, Result-cases, Option-cases, if◌then◌else◌,
}
use drnavigator.Common.Dict.{get}
use drnavigator.Http.{Request, Answer, HttpClient, Decoder, attempts, do_get_request, send}
use drnavigator.Model.{SmObject, SmDictionary, SmStatus, ServiceSiteManagerResponse}
use drnavigator.Manager.{CrManager, get_all_services, get_service_status, request_status, collect}
use drnavigator.Manager.Collect.Measure.{missing-le-length}
use drnavigator.Manager.Collect.Requests.{collect-budget}
use drnavigator.Manager.Status.{run, get_service_status_known, get_service_status_unknown}
use drnavigator.Manager.Status.Branches.{get_service_status_undefined, get_service_status_flat}

module _ {W : Type 0} (client : HttpClient W) (sent : W → ℕ) where
  -- A call of `Do` sends one request at most.
  abbrev pub Counts : Type 0
  Counts = (req : Request) (w : W) → sent (client.do_request req w).1 ≤ suc (sent w)

  module _ (counts : Counts) where
    -- The loop makes no more attempts than it is given.
    attempts-sent :
        (req : Request) (retry : ℕ) (last : Answer) (w : W)
        → sent (attempts client req retry last w).1 ≤ sent w + retry
    unfolding attempts
    attempts-sent req zero last w = omega arith
    attempts-sent req (suc r) last w =
        let (answer, w') = client.do_request req w in
        ground (arith, counts req w, attempts-sent req r answer w')

    do_get_request-sent :
        {V : Type 0} (decode : Decoder V) (url token : String) (use_auth : Bool) (retry : ℕ)
        (object : V) (w : W)
        → sent (do_get_request client decode url token use_auth retry object w).1 ≤ sent w + retry
    unfolding do_get_request send
    do_get_request-sent decode url token use_auth retry object w =
        elim (Option-cases (client.check_url url)) [
          | inl valid ↦ rw (valid, do_get_request) (attempts-sent _ retry _ w)
          | inr (e, wrong) ↦ rw (wrong, do_get_request) (omega arith)
        ]

module _ {W : Type 0} (m : CrManager W) (sent : W → ℕ)
    (counts : Counts m.get_http_client sent) where
  request_status-sent : (obj : SmObject) (w : W) → sent (request_status m obj w).1 ≤ sent w + 6
  unfolding request_status
  request_status-sent obj w =
      let url = obj.parameters.service_endpoint in
      let health = obj.parameters.healthz_endpoint in
      let auth = m.env.back_http_auth in
      let empty : ServiceSiteManagerResponse = record {
        message = "";
        mode = "--";
        status = "--";
      } in
      let first =
        do_get_request m.get_http_client m.decode_status url (m.get_token w) auth 3 empty w in
      ground (
        arith,
        do_get_request-sent m.get_http_client sent counts m.decode_status url (m.get_token w) auth 3
            empty w,
        do_get_request-sent m.get_http_client sent counts m.decode_healthz health
            (m.get_token first.1) auth 3 (record { status = "--" }) first.1,
      )

  collect-sent :
      (dict : SmDictionary) (name : String) (w : W)
      → sent (collect m dict true name w).1 ≤ sent w + 6 * length dict.services
  unfolding collect
  collect-sent dict name w =
      let within =
        collect-budget (request_status m) dict true sent request_status-sent
          (suc (length dict.services)) (name ∷ []) none (record { result = []; world = w }) in
      let bound : sent (run m w dict true name).1.world ≤ sent w + 6 * length dict.services =
        omega (arith, within, missing-le-length {B = SmStatus} dict.services []) in
      elim (Result-cases (run m w dict true name).0) [
        | inl (x, stops) ↦ rw (stops, collect) bound
        | inr (t, works) ↦ rw (works, collect) bound
      ]

  module _ (w : W) {dict : SmDictionary} {w1 : W}
      (listed : get_all_services m w ≡ (ok dict, w1)) where
    named-sent :
        (name : String) (obj : SmObject)
        → get dict.services name ≡ some obj
        → (with_deps : Bool)
        → sent (get_service_status m (some name) with_deps w).1
          ≤ sent w1 + 6 * (if with_deps then length dict.services else 1)
    named-sent name obj found true =
        rw (get_service_status_known m w listed name true (ground arith))
          (collect-sent dict name w1)
    named-sent name obj found false =
        let (fetch, w2) = request_status m obj w1 in
        rw (get_service_status_flat m w listed name obj fetch w2 found refl)
          (request_status-sent obj w1)

    -- Once the services are listed, a call sends no more than six requests for each of them,
    -- however they depend on each other, and no more than six in all without dependencies.
    pub get_service_status-sent :
        (service : Option String) (with_deps : Bool)
        → sent (get_service_status m service with_deps w).1
          ≤ sent w1 + 6 * (if with_deps then length dict.services else 1)
    get_service_status-sent none with_deps =
        rw (get_service_status_undefined m w listed with_deps) (omega arith)
    get_service_status-sent (some name) with_deps = elim (Option-cases (get dict.services name)) [
      | inl unknown ↦
          rw (get_service_status_unknown m w listed name with_deps unknown) (omega arith)
      | inr (obj, found) ↦ named-sent name obj found with_deps
    ]
