-- ===== src/Manager/Keeps.antt =====
-- What the calls of the manager keep of the state: whatever the lists of the resources keep, and the
-- requests that bear a token of such a state.
use drnavigator.Common.{
  ℕ, zero, suc, String, Bool, ◌≡◌, Option, none, some, [], ◌∷◌, Result, inl, inr, length,
  Option-cases, Result-cases, refl,
}
use drnavigator.Common.Action.{Action, ◌>>=◌, continue}
use drnavigator.Http.{
  Request, Answer, HttpClient, Decoder, bearer, get_request, post_request, attempts, send,
  do_get_request, do_post_request,
}
use drnavigator.Model.{SmObject, SmDictionary, ServiceSiteManagerResponse}
use drnavigator.Cluster.{CrClient}
use drnavigator.Manager.{
  CrManager, testing_dict, list_all, get_all_services, get_services_list, request_status, collect,
  get_service_status, process_service, start_procedure, find,
}
use drnavigator.Manager.Collect.{Progress, collect_services_statuses, get_service_object}
use drnavigator.Manager.Collect.Keeps.{collect-Keeps}

-- A step keeps a predicate on the state.
abbrev pub Keeps : {W A : Type 0} → (W → Type 0) → (W → A × W) → Type 0
Keeps {W} P step = (w : W) → P w → P (step w).1

Keeps->>= :
    {W E A B : Type 0} (P : W → Type 0) (m : Action W E A) (f : A → Action W E B)
    → Keeps P m
    → ((a : A) → Keeps P (f a))
    → Keeps P (m >>= f)
Keeps->>= P m f hm hf w h = elim (Result-cases (m w).0) [
  | inl (e, fails) ↦ rw (fails, continue) (hm w h)
  | inr (a, works) ↦ rw (works, continue) (hf a (m w).1 (hm w h))
]

module _ {W : Type 0} (P : W → Type 0) (client : HttpClient W) where
  attempts-Keeps :
      (req : Request)
      → Keeps P (client.do_request req)
      → (retry : ℕ) (last : Answer) → Keeps P (attempts client req retry last)
  unfolding attempts
  attempts-Keeps req keeps zero last w h = h
  attempts-Keeps req keeps (suc r) last w h =
      let after = keeps w h in
      elim (Option-cases (client.do_request req w).0.error) [
        | inl e ↦ rw (e, attempts) after
        | inr (x, e) ↦ rw (e, attempts) (attempts-Keeps req keeps r _ _ after)
      ]

  do_get_request-Keeps :
      {V : Type 0} (decode : Decoder V) (url token : String) (use_auth : Bool) (retry : ℕ)
      (object : V)
      → Keeps P (client.do_request (get_request url token use_auth))
      → Keeps P (do_get_request client decode url token use_auth retry object)
  unfolding do_get_request send
  do_get_request-Keeps decode url token use_auth retry object keeps w h =
      elim (Option-cases (client.check_url url)) [
        | inl valid ↦ rw (valid, do_get_request) (attempts-Keeps _ keeps retry _ w h)
        | inr (e, wrong) ↦ rw (wrong, do_get_request) h
      ]

  do_post_request-Keeps :
      {T V : Type 0} (decode : Decoder V) (encode : T → Result String String) (url : String)
      (body_object : T) (token : String) (use_auth : Bool) (retry : ℕ) (object : V)
      → ((body : String) → Keeps P (client.do_request (post_request url body token use_auth)))
      → Keeps P (do_post_request client decode encode url body_object token use_auth retry object)
  unfolding do_post_request send
  do_post_request-Keeps decode encode url body_object token use_auth retry object keeps w h =
      elim (Result-cases (encode body_object)) [
        | inl (e, fails) ↦ rw (fails, do_post_request) h
        | inr (body, encoded) ↦ elim (Option-cases (client.check_url url)) [
          | inl valid ↦
              rw (encoded, do_post_request, valid) (attempts-Keeps _ (keeps body) retry _ w h)
          | inr (e, wrong) ↦ rw (encoded, do_post_request, wrong) h
        ]
      ]

module _ {W : Type 0} (P : W → Type 0) (m : CrManager W) where
  -- The request bears the token of a state that satisfies the predicate, if the manager
  -- authenticates itself, and none otherwise.
  abbrev pub BearsToken : Request → Type 0
  BearsToken req =
      (now : W) × P now × (req.authorization ≡ bearer (m.get_token now) m.env.back_http_auth)

  -- The clients of the manager keep the predicate, when they list the resources and when they send
  -- such requests.
  pub record ClientsKeep : Type 0 where
    pub lists_legacy :
        (client : CrClient W) → m.cr_client ≡ some client → Keeps P client.list_legacy
    pub lists : (client : CrClient W) → m.cr_client ≡ some client → Keeps P client.list
    pub gets : (req : Request) → BearsToken req → Keeps P (m.get_http_client.do_request req)
    pub posts : (req : Request) → BearsToken req → Keeps P (m.post_http_client.do_request req)

  module _ (clients : ClientsKeep) where
    list_all-Keeps : (client : CrClient W) → m.cr_client ≡ some client → Keeps P (list_all m client)
    unfolding list_all
    list_all-Keeps client live w h =
        let first = clients.lists_legacy client live w h in
        let second = clients.lists client live (client.list_legacy w).1 first in
        elim (Option-cases (client.list_legacy w).0.error) [
          | inr (e, fails) ↦ rw (fails, list_all) first
          | inl works ↦ elim (Option-cases (client.list (client.list_legacy w).1).0.error) [
            | inr (e, fails) ↦ rw (works, list_all, fails) second
            | inl works' ↦ rw (works, list_all, works') second
          ]
        ]

    pub get_all_services-Keeps : Keeps P (get_all_services m)
    unfolding get_all_services
    get_all_services-Keeps w h = elim (Option-cases (testing_dict m.sm_config)) [
      | inr (dict, on) ↦ rw (on, get_all_services) h
      | inl off ↦ elim (Option-cases m.cr_client) [
        | inl missing ↦ rw (off, get_all_services, missing) h
        | inr (client, live) ↦ rw (off, get_all_services, live) (list_all-Keeps client live w h)
      ]
    ]

    request_status-Keeps : (obj : SmObject) → Keeps P (request_status m obj)
    unfolding request_status
    request_status-Keeps obj w h =
        let url = obj.parameters.service_endpoint in
        let health = obj.parameters.healthz_endpoint in
        let auth = m.env.back_http_auth in
        let empty : ServiceSiteManagerResponse = record {
          message = "";
          mode = "--";
          status = "--";
        } in
        let first =
          do_get_request m.get_http_client m.decode_status url (m.get_token w) auth 3 empty w in
        let after : P first.1 =
          do_get_request-Keeps P m.get_http_client m.decode_status url (m.get_token w) auth 3 empty
            (clients.gets _ (w, h, refl)) w h in
        elim (Option-cases first.0.error) [
          | inr (e, fails) ↦ rw (fails, request_status) after
          | inl works ↦
              let second =
                do_get_request m.get_http_client m.decode_healthz health (m.get_token first.1) auth
                  3 (record { status = "--" }) first.1 in
              let last : P second.1 =
                do_get_request-Keeps P m.get_http_client m.decode_healthz health
                  (m.get_token first.1) auth 3 (record { status = "--" })
                  (clients.gets _ (first.1, after, refl)) first.1 after in
              elim (Option-cases second.0.error) [
                | inr (e, fails) ↦ rw (works, request_status, fails) last
                | inl works' ↦ rw (works, request_status, works') last
              ]
        ]

    collect-Keeps_state :
        (dict : SmDictionary) (with_deps : Bool) (name : String)
        → Keeps P (collect m dict with_deps name)
    unfolding collect
    collect-Keeps_state dict with_deps name w h =
        let start : Progress W = record { result = []; world = w } in
        let run =
          collect_services_statuses (request_status m) dict with_deps (suc (length dict.services))
            (name ∷ []) none start in
        let kept : P run.1.world =
          collect-Keeps (request_status m) dict with_deps (λ (s : Progress W). P s.world)
            (λ service obj s known new here.
              (request_status-Keeps obj s.world here, request_status-Keeps obj s.world here))
            (suc (length dict.services)) (name ∷ []) none start h in
        elim (Result-cases run.0) [
          | inl (e, stops) ↦ rw (stops, collect) kept
          | inr (t, works) ↦ rw (works, collect) kept
        ]

    find-Keeps : (name : Option String) (dict : SmDictionary) → Keeps P (find m name dict)
    find-Keeps name dict w h = elim (Result-cases (get_service_object name dict)) [
      | inl (e, fails) ↦ rw (fails, find) h
      | inr (obj, works) ↦ rw (works, find) h
    ]

    pub get_services_list-Keeps : Keeps P (get_services_list m)
    unfolding get_services_list
    get_services_list-Keeps =
        Keeps->>= P (get_all_services m) _ get_all_services-Keeps (λ dict w h. h)

    pub get_service_status-Keeps :
        (service : Option String) (with_deps : Bool)
        → Keeps P (get_service_status m service with_deps)
    unfolding get_service_status
    get_service_status-Keeps none with_deps =
        Keeps->>= P (get_all_services m) _ get_all_services-Keeps
          (λ dict. Keeps->>= P (find m none dict) _ (find-Keeps none dict) (λ obj w h. h))
    get_service_status-Keeps (some name) with_deps =
        Keeps->>= P (get_all_services m) _ get_all_services-Keeps (λ dict.
          Keeps->>= P (find m (some name) dict) _ (find-Keeps (some name) dict)
            (λ obj. collect-Keeps_state dict with_deps name))

    start_procedure-Keeps :
        (obj : SmObject) (service procedure : String) (no_wait : Bool)
        → Keeps P (start_procedure m obj service procedure no_wait)
    unfolding start_procedure
    start_procedure-Keeps obj service procedure no_wait w h =
        let reply =
          do_post_request m.post_http_client m.decode_process m.encode_process
            obj.parameters.service_endpoint (record { mode = procedure; no_wait = no_wait })
            (m.get_token w) m.env.back_http_auth 3 (record { mode = ""; status = "" }) w in
        let after : P reply.1 =
          do_post_request-Keeps P m.post_http_client m.decode_process m.encode_process
            obj.parameters.service_endpoint (record { mode = procedure; no_wait = no_wait })
            (m.get_token w) m.env.back_http_auth 3 (record { mode = ""; status = "" })
            (λ body. clients.posts _ (w, h, refl)) w h in
        elim (Option-cases reply.0.error) [
          | inr (e, fails) ↦ rw (fails, start_procedure) after
          | inl works ↦ rw (works, start_procedure) after
        ]

    pub process_service-Keeps :
        (service : Option String) (procedure : String) (no_wait : Bool)
        → Keeps P (process_service m service procedure no_wait)
    unfolding process_service
    process_service-Keeps none procedure no_wait =
        Keeps->>= P (get_all_services m) _ get_all_services-Keeps
          (λ dict. Keeps->>= P (find m none dict) _ (find-Keeps none dict) (λ obj w h. h))
    process_service-Keeps (some name) procedure no_wait =
        Keeps->>= P (get_all_services m) _ get_all_services-Keeps (λ dict.
          Keeps->>= P (find m (some name) dict) _ (find-Keeps (some name) dict)
            (λ obj. start_procedure-Keeps obj name procedure no_wait))
