-- ===== src/Http.antt =====
-- site-manager/pkg/client/http/http_client.go: requests with retries. `http.NewRequest`, the method
-- `Do` of a client, and the JSON codecs are parameters; the state `W` is that of the network.
pub mod Retry
pub mod Replies
use drnavigator.Common.{
  ℕ, zero, suc, String, Bool, Option, none, some, Result, ok, err, GoError, ◌||◌, if◌then◌else◌,
  ◌+++◌, decimal,
}
use drnavigator.Common.Num.{ltb, leb}

-- What the code sets of an `http.Request`. What an attempt has read of the body is part of the state
-- of the network: the code hands the same request to every attempt.
pub record Request : Type 0 where
  pub method : String
  pub url : String
  pub authorization : Option String
  pub content_type : Option String
  pub body : Option String

-- A response with what reading its body to the end gives.
pub record Response : Type 0 where
  pub status_code : ℕ
  pub body : Result String String

-- What `Do` returns: a response or nil, and an error or nil.
pub record Answer : Type 0 where
  pub response : Option Response
  pub error : GoError

-- `HttpClientInterface`, with the check of the URL that `http.NewRequest` makes.
pub record HttpClient (W : Type 0) : Type 0 where
  pub check_url : String → GoError
  pub do_request : Request → W → Answer × W

-- `json.Decoder.Decode` into an object: the object as it then is, and the error.
pub record Decoded (V : Type 0) : Type 0 where
  pub object : V
  pub error : GoError

abbrev pub Decoder : Type 0 → Type 0
Decoder V = String → V → Decoded V

-- The status code, the error, and the object that the caller passed by reference.
pub record Reply (V : Type 0) : Type 0 where
  pub code : ℕ
  pub error : GoError
  pub object : V

abbrev pub nothing_yet : Answer
nothing_yet = record { response = none; error = none }

module _ {W : Type 0} (client : HttpClient W) (req : Request) where
  -- The loop `for retry > 0`, with the answer of the round before.
  unfoldable pub attempts : ℕ → Answer → W → Answer × W
  attempts zero last w = (last, w)
  attempts (suc retry) last w =
      let (answer, w') = client.do_request req w in
      elim answer.error [ none ↦ (answer, w') | some _ ↦ attempts retry answer w' ]

abbrev is_unexpected : ℕ → Bool
is_unexpected code = ltb code 200 || leb 300 code

module _ {V : Type 0} (decode : Decoder V) (object : V) where
  decode_body : ℕ → String → Reply V
  decode_body code text =
      let d = decode text object in
      elim d.error [
        | some _ ↦ record {
          code = code;
          error = some ("wrong json data received: " +++ text);
          object = d.object;
        }
        | none ↦ record { code = code; error = none; object = d.object }
      ]

  read_response : Response → Reply V
  unfolding decode_body
  read_response r = elim r.body [
    | err e ↦ record { code = r.status_code; error = some e; object = object }
    | ok text ↦
        if is_unexpected r.status_code
        then record {
          code = r.status_code;
          error =
              some
                ("unexpected status code " +++ decimal r.status_code +++ ", response: " +++ text);
          object = object;
        }
        else decode_body r.status_code text
  ]

  -- What follows the loop, in both requests.
  unfoldable pub conclude : Answer → Reply V
  unfolding read_response
  conclude a = elim a.response [
    | none ↦ record { code = 0; error = a.error; object = object }
    | some r ↦ read_response r
  ]

abbrev pub bearer : String → Bool → Option String
bearer token use_auth = if use_auth then some ("Bearer " +++ token) else none

abbrev pub get_request : String → String → Bool → Request
get_request url token use_auth = record {
  method = "GET";
  url = url;
  authorization = bearer token use_auth;
  content_type = none;
  body = none;
}

abbrev pub post_request : String → String → String → Bool → Request
post_request url body token use_auth = record {
  method = "POST";
  url = url;
  authorization = bearer token use_auth;
  content_type = some "application/json";
  body = some body;
}

module _ {W V : Type 0} (client : HttpClient W) (decode : Decoder V) where
  -- The request is sent, at most `retry` times.
  unfoldable pub send : Request → ℕ → V → W → Reply V × W
  send req retry object w =
      let (answer, w') = attempts client req retry nothing_yet w in
      (conclude decode object answer, w')

  unfoldable pub do_get_request : String → String → Bool → ℕ → V → W → Reply V × W
  unfolding send
  do_get_request url token use_auth retry object w = elim (client.check_url url) [
    | some e ↦ (record { code = 0; error = some e; object = object }, w)
    | none ↦ send (get_request url token use_auth) retry object w
  ]

  unfoldable pub do_post_request :
      {T : Type 0}
      → (T → Result String String)
      → String
      → T
      → String
      → Bool
      → ℕ
      → V
      → W
      → Reply V × W
  do_post_request encode url body_object token use_auth retry object w = elim (encode body_object) [
    | err e ↦ (record { code = 0; error = some e; object = object }, w)
    | ok body ↦ elim (client.check_url url) [
      | some e ↦ (record { code = 0; error = some e; object = object }, w)
      | none ↦ send (post_request url body token use_auth) retry object w
    ]
  ]
