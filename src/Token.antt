-- ===== src/Token.antt =====
-- site-manager/pkg/service/handle_token.go: the token that is sent to services, read from a file that
-- is watched, and the check of the tokens of callers. The file, the watcher of `fsnotify` and the
-- token review of the API server are parameters; the lock makes each method one step.
pub mod Watch
pub mod Validate
pub mod Rotation
use drnavigator.Common.{
  String, Bool, true, false, Option, none, some, List, [], ◌∷◌, Result, ok, err, GoError, ◌==◌,
  ◌||◌, ◌+++◌, if◌then◌else◌,
}
use drnavigator.Common.Action.{Action, ◌>>◌, pure, raise}
use drnavigator.Config.{Config}
use drnavigator.Model.{SmConfig}

-- An event, with what its operations have of `Remove`, `Create` and `Write`.
pub record Event : Type 0 where
  pub name : String
  pub has_remove : Bool
  pub has_create : Bool
  pub has_write : Bool

-- What the loop of `Start` receives from the two channels of the watcher.
pub data Delivery : Type 0 where
  event : Event → Delivery
  watch_error : String → Delivery

-- The answer to a token review.
pub record Review : Type 0 where
  pub authenticated : Bool
  pub username : String

pub record Outside (W : Type 0) : Type 0 where
  pub read_file : String → W → Result String String × W
  pub add_watch : String → W → GoError × W
  pub close : W → W
  pub review : String → W → Result String Review × W

pub record TokenWatcher (W : Type 0) : Type 0 where
  pub current_token : String
  pub world : W

abbrev pub sm_service_account_name : String
sm_service_account_name = "sm-auth-sa"

module _ {W : Type 0} (out : Outside W) (env : Config) (sm_config : SmConfig)
    (token_path : String) where
  unfoldable pub get_token : TokenWatcher W → String
  get_token tw = if sm_config.testing.enabled then sm_config.testing.token else tw.current_token

  -- The user of the service account that callers have to be.
  abbrev pub auth_user : String
  auth_user = "system:serviceaccount:" +++ env.pod_namespace +++ ":" +++ sm_service_account_name

  -- The result and the error that the code returns are one value here: it returns false beside an
  -- error.
  unfoldable pub validate_token : String → Action W String Bool
  validate_token token w =
      if sm_config.testing.enabled
      then (ok (token == sm_config.testing.token), w)
      else let (answer, w1) = out.review token w in
        elim answer [
          | err e ↦ (err e, w1)
          | ok r ↦ if r.authenticated then (ok (auth_user == r.username), w1) else (ok false, w1)
        ]

  unfoldable pub read_token : Action (TokenWatcher W) String (Unit {0})
  read_token tw =
      let (content, w) = out.read_file token_path tw.world in
      elim content [
        | err e ↦ (err e, record tw { world = w })
        | ok text ↦ (ok tt, record { current_token = text; world = w })
      ]

  unfoldable pub watch : String → Action (TokenWatcher W) String (Unit {0})
  watch path tw =
      let (e, w) = out.add_watch path tw.world in
      elim e [ some m ↦ (err m, record tw { world = w }) | none ↦ (ok tt, record tw { world = w }) ]

  unfoldable pub handle_event : Event → Action (TokenWatcher W) String (Unit {0})
  unfolding watch
  handle_event ev tw =
      if ev.has_remove
      then (watch ev.name >> read_token) tw
      else if ev.has_create || ev.has_write
      then read_token tw
      else (ok tt, tw)

  -- The loop of `Start` over what is delivered so far; with nothing more to receive it waits, which
  -- is `ok`. An error of an event ends it.
  unfoldable pub loop : List Delivery → Action (TokenWatcher W) String (Unit {0})
  loop [] tw = (ok tt, tw)
  loop (watch_error e ∷ rest) tw = loop rest tw
  loop (event ev ∷ rest) tw =
      let (r, tw') = handle_event ev tw in
      let go_on = loop rest tw' in
      elim r [ err e ↦ (err e, record tw' { world = out.close tw'.world }) | ok _ ↦ go_on ]

  unfoldable pub start : List Delivery → Action (TokenWatcher W) String (Unit {0})
  unfolding loop watch
  start deliveries = do read_token; watch token_path; loop deliveries
