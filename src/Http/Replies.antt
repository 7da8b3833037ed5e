-- ===== src/Http/Replies.antt =====
-- What a request replies: the answer that is read, and when the reply has no error.
use drnavigator.Common.{
  ℕ, zero, suc, ◌<◌, ◌≤◌, String, Bool, ◌≡◌, ◌≢◌, ◌⊎◌, ◌↔◌, refl, none, some, Result, ok, arith,
  inl, inr, Option-cases, Result-cases,
}
use drnavigator.Http.{
  Request, Response, Answer, HttpClient, Decoder, Reply, nothing_yet, attempts, conclude,
  get_request, post_request, send, do_get_request, do_post_request,
}
use drnavigator.Http.Retry.{world_after, answer_at, IsLast, attempts-IsLast, calls_end}

module _ {V : Type 0} (decode : Decoder V) (object : V) where
  -- A response whose code is in [200, 300) and whose body decodes, and the reply that says so.
  pub record IsRead (a : Answer) (reply : Reply V) : Type 0 where
    pub response : Response
    pub heard : a.response ≡ some response
    pub text : String
    pub read : response.body ≡ ok text
    pub from : 200 ≤ response.status_code
    pub below : response.status_code < 300
    pub clean : (decode text object).error ≡ none
    pub code : reply.code ≡ response.status_code
    pub decoded : reply.object ≡ (decode text object).object

  conclude-IsRead :
      (a : Answer)
      → (a.error ≡ none → a.response ≢ none)
      → ((conclude decode object a).error ≡ none) ↔ IsRead a (conclude decode object a)
  unfolding conclude
  conclude-IsRead a answers = elim (Option-cases a.response) [
    | inl silent ↦ (λ e. absurd (ground arith), λ h. absurd (let there = h.heard in ground arith))
    | inr (r, heard) ↦ elim (Result-cases r.body) [
      | inl (m, broken) ↦ (
        λ e. absurd (ground arith),
        λ h. absurd (let there = h.heard in let read = h.read in ground arith),
      )
      | inr (text, read) ↦ (
        λ e. record {
          response = r;
          heard = heard;
          text = text;
          read = read;
          from = ground arith;
          below = ground arith;
          clean = ground arith;
          code = ground arith;
          decoded = ground arith;
        },
        λ h.
            let same : h.response ≡ r = (let there = h.heard in ground arith) in
            let texts : h.text ≡ text = (let body = h.read in ground arith) in
            let from : 200 ≤ r.status_code = rw same at h.from in
            let below : r.status_code < 300 = rw same at h.below in
            let clean : (decode text object).error ≡ none = rw texts at h.clean in ground arith,
      )
    ]
  ]

module _ {W V : Type 0} (client : HttpClient W) (decode : Decoder V) where
  -- The last call that is made of `Do` had a response that is read.
  pub record IsDecoded (req : Request) (retry : ℕ) (object : V) (w : W) (reply : Reply V)
      : Type 0 where
    pub attempt : ℕ
    pub is_last : IsLast client req retry attempt w
    pub is_read : IsRead decode object (answer_at client req attempt w) reply

  -- A GET request to a URL that is valid calls `Do` until it first returns no error, and not more than
  -- `retry` times. With `retry` 0 it is not called, and the reply is empty; else the answer of the
  -- last call is the one that is read.
  pub do_get_request-answer_at :
      (url token : String) (use_auth : Bool) (retry : ℕ) (object : V) (w : W)
      → client.check_url url ≡ none
      → ((retry ≡ 0)
          × (do_get_request client decode url token use_auth retry object w
              ≡ (record { code = 0; error = none; object = object }, w)))
        ⊎ ((k : ℕ) × IsLast client (get_request url token use_auth) retry k w
            × (do_get_request client decode url token use_auth retry object w ≡ (
              conclude decode object (answer_at client (get_request url token use_auth) k w),
              world_after client (get_request url token use_auth) (suc k) w,
            )))
  unfolding do_get_request conclude attempts
  do_get_request-answer_at url token use_auth zero object w valid =
      inl (refl, rw (valid, do_get_request) refl)
  do_get_request-answer_at url token use_auth (suc r) object w valid =
      let (k, last) = calls_end client (get_request url token use_auth) r w in
      inr (
        k,
        last,
        rw (valid, do_get_request)
            (rw (attempts-IsLast client _ (suc r) k nothing_yet w last) refl),
      )

  -- The state after a POST request: nothing is sent if the body cannot be encoded or the URL is not
  -- valid; else it is the one after the last call of `Do`.
  pub do_post_request-world_after :
      {T : Type 0} (encode : T → Result String String) (url : String) (body : T) (token : String)
      (use_auth : Bool) (r : ℕ) (object : V) (w : W)
      → let after =
          (do_post_request client decode encode url body token use_auth (suc r) object w).1 in
        ((after ≡ w)
          × (((bytes : String) → encode body ≢ ok bytes) ⊎ (client.check_url url ≢ none)))
        ⊎ ((bytes : String) × (k : ℕ) × (encode body ≡ ok bytes)
            × (client.check_url url ≡ none)
            × IsLast client (post_request url bytes token use_auth) (suc r) k w
            × (after ≡ world_after client (post_request url bytes token use_auth) (suc k) w))
  unfolding do_post_request send
  do_post_request-world_after encode url body token use_auth r object w =
      elim (Result-cases (encode body)) [
        | inl (m, bad) ↦ inl (ground arith, inl (λ bytes e. absurd (ground arith)))
        | inr (bytes, encoded) ↦ elim (Option-cases (client.check_url url)) [
          | inr (m, bad) ↦ inl (ground arith, inr (λ e. absurd (ground arith)))
          | inl valid ↦
              let (k, last) = calls_end client (post_request url bytes token use_auth) r w in
              let same = attempts-IsLast client _ (suc r) k nothing_yet w last in
              inr (
                bytes,
                k,
                encoded,
                valid,
                last,
                rw (encoded, do_post_request, valid) (rw same refl),
              )
        ]
      ]

  module _
      (answers : (req : Request) (w : W)
        → (client.do_request req w).0.error ≡ none
        → (client.do_request req w).0.response ≢ none) where
    answer_at-response :
        (req : Request) (k : ℕ) (w : W)
        → (answer_at client req k w).error ≡ none
        → (answer_at client req k w).response ≢ none
    answer_at-response req zero w = answers req w
    answer_at-response req (suc k) w = answer_at-response req k (client.do_request req w).1

    send-IsDecoded :
        (req : Request) (r : ℕ) (object : V) (w : W)
        → ((send client decode req (suc r) object w).0.error ≡ none)
          ↔ IsDecoded req (suc r) object w (send client decode req (suc r) object w).0
    unfolding send
    send-IsDecoded req r object w = (
      λ e.
          let (k, last) = calls_end client req r w in
          let same = attempts-IsLast client req (suc r) k nothing_yet w last in
          let e' : (conclude decode object (answer_at client req k w)).error ≡ none =
            rw same at e in
          record {
            attempt = k;
            is_last = last;
            is_read = rw same (
                (conclude-IsRead decode object (answer_at client req k w)
                    (answer_at-response req k w)).0
                  e');
          },
      λ h.
          let same = attempts-IsLast client req (suc r) h.attempt nothing_yet w h.is_last in
          let read = rw same at h.is_read in
          rw same (
            (conclude-IsRead decode object (answer_at client req h.attempt w)
                (answer_at-response req h.attempt w)).1
              read),
    )

    -- A GET request that is tried at least once replies without an error exactly if the URL is valid and
    -- the last call of `Do`, the first without an error or the one of the last attempt, has a
    -- response with a code in [200, 300) and a body that decodes; then the reply has that code, and
    -- the object that the body decodes to. A client whose `Do` returns a response or an error is
    -- supposed.
    pub do_get_request-IsDecoded :
        (url token : String) (use_auth : Bool) (r : ℕ) (object : V) (w : W)
        → let reply = (do_get_request client decode url token use_auth (suc r) object w).0 in
          (reply.error ≡ none) ↔ (
            (client.check_url url ≡ none)
            × IsDecoded (get_request url token use_auth) (suc r) object w reply)
    unfolding do_get_request
    do_get_request-IsDecoded url token use_auth r object w =
        elim (Option-cases (client.check_url url)) [
          | inl valid ↦
              let (there, back) = send-IsDecoded (get_request url token use_auth) r object w in
              rw (valid, do_get_request) (λ e. (refl, there e), λ (same, h). back h)
          | inr (m, bad) ↦ (λ e. absurd (ground arith), λ (valid, h). absurd (ground arith))
        ]

    pub do_post_request-IsDecoded :
        {T : Type 0} (encode : T → Result String String) (url : String) (body : T) (token : String)
        (use_auth : Bool) (r : ℕ) (object : V) (w : W)
        → let reply =
            (do_post_request client decode encode url body token use_auth (suc r) object w).0 in
          (reply.error ≡ none) ↔ (
            (bytes : String) × (encode body ≡ ok bytes)
            × (client.check_url url ≡ none)
            × IsDecoded (post_request url bytes token use_auth) (suc r) object w reply)
    unfolding do_post_request
    do_post_request-IsDecoded encode url body token use_auth r object w =
        elim (Result-cases (encode body)) [
          | inl (m, bad) ↦
              (λ e. absurd (ground arith), λ (bytes, encoded, valid, h). absurd (ground arith))
          | inr (bytes, encoded) ↦ elim (Option-cases (client.check_url url)) [
            | inl valid ↦
                let (there, back) =
                  send-IsDecoded (post_request url bytes token use_auth) r object w in
                (
                  λ e. (
                    bytes,
                    encoded,
                    valid,
                    rw (encoded, do_post_request, valid)
                        (there (rw (encoded, do_post_request, valid) at e)),
                  ),
                  λ (bytes', encoded', valid', h).
                      let same : bytes' ≡ bytes = ground arith in
                      let h' = rw (encoded, do_post_request, valid) at h in
                      rw (encoded, do_post_request, valid) (back (rw same at h')),
                )
            | inr (m, bad) ↦
                (λ e. absurd (ground arith), λ (bytes', encoded', valid', h). absurd (ground arith))
          ]
        ]
