-- ===== src/Manager/Status/Contacts.antt =====
-- Whom a call of `GetServiceStatus` contacts, and with what. A request that the manager could send is
-- one whose answer can make a difference; so the theorem compares two clients.
use drnavigator.Common.{
  ℕ, zero, suc, String, Bool, ◌≡◌, ◌≢◌, ◌⊎◌, refl, sym, ◌∙◌, ap, Option, none, some, [], ◌∷◌, ok,
  arith, inl, inr, length, Option-cases,
}
use drnavigator.Common.Dict.{get}
use drnavigator.Http.{
  Request, Answer, HttpClient, Decoder, get_request, nothing_yet, attempts, send, do_get_request,
}
use drnavigator.Model.{SmObject, SmDictionary, ServiceSiteManagerResponse, ServiceHealthzResponse}
use drnavigator.Manager.{
  CrManager, get_all_services, get_service_status, request_status, collect, list_all,
}
use drnavigator.Manager.Collect.{Visit}
use drnavigator.Manager.Collect.Agree.{AgreeOnDict, collect-agree}
use drnavigator.Manager.Status.{get_service_status_known, get_service_status_unknown}
use drnavigator.Manager.Status.Branches.{get_service_status_undefined}

module _ {W : Type 0} (client client' : HttpClient W) where
  pub attempts-agree :
      (req : Request)
      → ((w : W) → client.do_request req w ≡ client'.do_request req w)
      → (retry : ℕ) (last : Answer) (w : W)
      → attempts client req retry last w ≡ attempts client' req retry last w
  unfolding attempts
  attempts-agree req agree zero last w = refl
  attempts-agree req agree (suc r) last w =
      let (answer, w') = client.do_request req w in
      let same = agree w in let rest = attempts-agree req agree r answer w' in ground arith

  do_get_request-agree :
      {V : Type 0} (decode : Decoder V) (url token : String) (use_auth : Bool) (retry : ℕ)
      (object : V) (w : W)
      → client.check_url url ≡ client'.check_url url
      → ((u : W)
          → client.do_request (get_request url token use_auth) u
            ≡ client'.do_request (get_request url token use_auth) u)
      → do_get_request client decode url token use_auth retry object w
        ≡ do_get_request client' decode url token use_auth retry object w
  unfolding do_get_request send
  do_get_request-agree decode url token use_auth retry object w urls agree =
      let sent = attempts-agree (get_request url token use_auth) agree retry nothing_yet w in
      ground arith

module _ {W : Type 0} (m : CrManager W) (dict : SmDictionary) where
  -- A GET request to one of the two endpoints of a service of the dictionary; it bears a token that
  -- was current in some state if the manager authenticates itself, and none otherwise.
  abbrev pub IsAllowed : Request → Type 0
  IsAllowed req =
      (name : String) × (obj : SmObject) × (now : W) × (get dict.services name ≡ some obj)
      × ((req ≡ get_request obj.parameters.service_endpoint (m.get_token now) m.env.back_http_auth)
          ⊎ (req
              ≡ get_request obj.parameters.healthz_endpoint (m.get_token now) m.env.back_http_auth))

  -- The manager with another client, which does the same with what is allowed.
  abbrev pub AgreeOnAllowed : HttpClient W → Type 0
  AgreeOnAllowed client =
      ((url : String) → m.get_http_client.check_url url ≡ client.check_url url)
      × ((req : Request) (w : W)
          → IsAllowed req
          → m.get_http_client.do_request req w ≡ client.do_request req w)

  abbrev pub with_client : HttpClient W → CrManager W
  with_client client = record m { get_http_client = client }

  module _ (client : HttpClient W) (agree : AgreeOnAllowed client) where
    request_status-agree : AgreeOnDict (request_status m) (request_status (with_client client)) dict
    unfolding request_status
    request_status-agree name obj w known =
        let (urls, requests) = agree in
        let auth = m.env.back_http_auth in
        let empty : ServiceSiteManagerResponse = record {
          message = "";
          mode = "--";
          status = "--";
        } in
        let health : ServiceHealthzResponse = record { status = "--" } in
        let url = obj.parameters.service_endpoint in
        let first =
          do_get_request m.get_http_client m.decode_status url (m.get_token w) auth 3 empty w in
        let same =
          do_get_request-agree m.get_http_client client m.decode_status url (m.get_token w) auth 3
            empty w (urls url) (λ u. requests _ u (name, obj, w, known, inl refl)) in
        let same' =
          do_get_request-agree m.get_http_client client m.decode_healthz
            obj.parameters.healthz_endpoint (m.get_token first.1) auth 3 health first.1
            (urls obj.parameters.healthz_endpoint)
            (λ u. requests _ u (name, obj, first.1, known, inr refl)) in
        ground arith

    collect-allowed :
        (with_deps : Bool) (name : String) (w : W)
        → collect m dict with_deps name w ≡ collect (with_client client) dict with_deps name w
    unfolding collect
    collect-allowed with_deps name w =
        let same =
          collect-agree (request_status m) (request_status (with_client client)) dict with_deps
            request_status-agree (suc (length dict.services)) in
        let runs =
          ap (λ (v : Visit W). v (name ∷ []) none (record { result = []; world = w })) same in
        ground arith

module _ {W : Type 0} (m : CrManager W) (w : W) {dict : SmDictionary} {w1 : W}
    (listed : get_all_services m w ≡ (ok dict, w1)) where
  listed_too :
      (client : HttpClient W) → get_all_services (with_client m dict client) w ≡ (ok dict, w1)
  unfolding get_all_services list_all
  listed_too client = listed

  -- Once the services are listed, a call contacts the endpoints of listed services only, by GET, and
  -- with a token that was current if the manager authenticates itself: with any other client that
  -- does the same for such requests, the result and the state are the same.
  pub get_service_status-IsAllowed :
      (client : HttpClient W)
      → AgreeOnAllowed m dict client
      → (service : Option String) (with_deps : Bool)
      → get_service_status m service with_deps w
        ≡ get_service_status (with_client m dict client) service with_deps w
  get_service_status-IsAllowed client agree none with_deps =
      get_service_status_undefined m w listed with_deps
      ∙ sym
          (get_service_status_undefined (with_client m dict client) w (listed_too client) with_deps)
  get_service_status-IsAllowed client agree (some name) with_deps =
      elim (Option-cases (get dict.services name)) [
        | inl unknown ↦
            get_service_status_unknown m w listed name with_deps unknown
            ∙ sym (
                get_service_status_unknown (with_client m dict client) w (listed_too client) name
                  with_deps unknown)
        | inr (obj, found) ↦
            let known : get dict.services name ≢ none = ground arith in
            get_service_status_known m w listed name with_deps known
            ∙ collect-allowed m dict client agree with_deps name w1
            ∙ sym (
                get_service_status_known (with_client m dict client) w (listed_too client) name
                  with_deps known)
      ]
