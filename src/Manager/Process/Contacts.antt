-- ===== src/Manager/Process/Contacts.antt =====
-- Whom a procedure contacts, and with what; as for a status, the theorem compares two clients.
use drnavigator.Common.{
  ℕ, String, Bool, ◌≡◌, refl, sym, ◌∙◌, Option, none, some, Result, ok, err, arith, inl, inr,
  Option-cases, Result-cases,
}
use drnavigator.Common.Dict.{get}
use drnavigator.Http.{
  Request, HttpClient, Decoder, post_request, nothing_yet, send, do_post_request,
}
use drnavigator.Model.{SmObject, SmDictionary}
use drnavigator.Manager.{CrManager, get_all_services, process_service, start_procedure, list_all}
use drnavigator.Manager.Collect.{failed, undefined_service, unknown_service, get_service_object}
use drnavigator.Manager.Status.Contacts.{attempts-agree}

module _ {W : Type 0} (client client' : HttpClient W) where
  do_post_request-agree :
      {T V : Type 0} (decode : Decoder V) (encode : T → Result String String) (url : String)
      (body_object : T) (token : String) (use_auth : Bool) (retry : ℕ) (object : V) (w : W)
      → client.check_url url ≡ client'.check_url url
      → ((body : String) (u : W)
          → encode body_object ≡ ok body
          → client.do_request (post_request url body token use_auth) u
            ≡ client'.do_request (post_request url body token use_auth) u)
      → do_post_request client decode encode url body_object token use_auth retry object w
        ≡ do_post_request client' decode encode url body_object token use_auth retry object w
  unfolding do_post_request send
  do_post_request-agree decode encode url body_object token use_auth retry object w urls agree =
      elim (Result-cases (encode body_object)) [
        | inl (e, fails) ↦ ground arith
        | inr (body, encoded) ↦
            let sent =
              attempts-agree client client' (post_request url body token use_auth)
                (λ u. agree body u encoded) retry nothing_yet w in
            ground arith
      ]

module _ {W : Type 0} (m : CrManager W) (w : W) {dict : SmDictionary} {w1 : W}
    (listed : get_all_services m w ≡ (ok dict, w1)) (procedure : String) (no_wait : Bool) where
  process_undefined :
      process_service m none procedure no_wait w ≡ (err (failed undefined_service), w1)
  unfolding process_service get_service_object
  process_undefined = rw (listed, process_service) refl

  pub process_unknown :
      (name : String)
      → get dict.services name ≡ none
      → process_service m (some name) procedure no_wait w
        ≡ (err (failed (unknown_service name)), w1)
  unfolding process_service get_service_object
  process_unknown name unknown = rw (listed, process_service) (ground arith)

  pub process_known :
      (name : String) (obj : SmObject)
      → get dict.services name ≡ some obj
      → process_service m (some name) procedure no_wait w
        ≡ start_procedure m obj name procedure no_wait w1
  unfolding process_service get_service_object
  process_known name obj found = rw (listed, process_service) (ground arith)

module _ {W : Type 0} (m : CrManager W) (w : W) {dict : SmDictionary} {w1 : W}
    (listed : get_all_services m w ≡ (ok dict, w1)) where
  abbrev pub with_post_client : HttpClient W → CrManager W
  with_post_client client = record m { post_http_client = client }

  listed_too :
      (client : HttpClient W) → get_all_services (with_post_client client) w ≡ (ok dict, w1)
  unfolding get_all_services list_all
  listed_too client = listed

  start_procedure-agree :
      (client : HttpClient W) (name procedure : String) (no_wait : Bool) (obj : SmObject)
      → ((url : String) → m.post_http_client.check_url url ≡ client.check_url url)
      → ((body : String) (u : W)
          → m.encode_process (record { mode = procedure; no_wait = no_wait }) ≡ ok body
          → m.post_http_client.do_request
              (post_request obj.parameters.service_endpoint body
                (m.get_token w1)
                m.env.back_http_auth)
              u
            ≡ client.do_request
                (post_request obj.parameters.service_endpoint body
                  (m.get_token w1)
                  m.env.back_http_auth)
                u)
      → start_procedure m obj name procedure no_wait w1
        ≡ start_procedure (with_post_client client) obj name procedure no_wait w1
  unfolding start_procedure
  start_procedure-agree client name procedure no_wait obj urls agree =
      let same =
        do_post_request-agree m.post_http_client client m.decode_process m.encode_process
          obj.parameters.service_endpoint (record { mode = procedure; no_wait = no_wait })
          (m.get_token w1) m.env.back_http_auth 3 (record { mode = ""; status = "" }) w1
          (urls obj.parameters.service_endpoint) agree in
      ground arith

  -- A POST request to the service of that name, with the mode and the wait that were asked for; it
  -- bears the current token if the manager authenticates itself.
  abbrev pub IsProcedureOf : String → String → Bool → Request → Type 0
  IsProcedureOf name procedure no_wait req =
      (obj : SmObject) × (body : String) × (get dict.services name ≡ some obj)
      × (m.encode_process (record { mode = procedure; no_wait = no_wait }) ≡ ok body)
      × (req
          ≡ post_request obj.parameters.service_endpoint body (m.get_token w1) m.env.back_http_auth)

  -- Once the services are listed, a procedure sends its own POST request to the service that it names,
  -- and no other: with any other client that does the same for that request, the result and the state
  -- are the same.
  pub process_service-IsProcedureOf :
      (client : HttpClient W) (service : Option String) (procedure : String) (no_wait : Bool)
      → ((url : String) → m.post_http_client.check_url url ≡ client.check_url url)
      → ((name : String) (req : Request) (u : W)
          → service ≡ some name
          → IsProcedureOf name procedure no_wait req
          → m.post_http_client.do_request req u ≡ client.do_request req u)
      → process_service m service procedure no_wait w
        ≡ process_service (with_post_client client) service procedure no_wait w
  process_service-IsProcedureOf client none procedure no_wait urls agree =
      process_undefined m w listed procedure no_wait
      ∙ sym (process_undefined (with_post_client client) w (listed_too client) procedure no_wait)
  process_service-IsProcedureOf client (some name) procedure no_wait urls agree =
      elim (Option-cases (get dict.services name)) [
        | inl unknown ↦
            process_unknown m w listed procedure no_wait name unknown
            ∙ sym (
                process_unknown (with_post_client client) w (listed_too client) procedure no_wait
                  name unknown)
        | inr (obj, found) ↦
            process_known m w listed procedure no_wait name obj found
            ∙ start_procedure-agree client name procedure no_wait obj urls
                (λ body u encoded. agree name _ u refl (obj, body, found, encoded, refl))
            ∙ sym (
                process_known (with_post_client client) w (listed_too client) procedure no_wait name
                  obj found)
      ]
