-- ===== src/Start/Serving.antt =====
-- The main API of a program that has started.
use drnavigator.Common.{
  String, true, false, ◌≡◌, ◌⊎◌, none, Result, ok, GoError, arith, inl, inr, Bool-cases,
}
use drnavigator.Config.{Config}
use drnavigator.Model.{SmConfig, SmRequest}
use drnavigator.Utils.{Files, check_file}
use drnavigator.Token.{validate_token}
use drnavigator.Manager.Collect.{Stop}
use drnavigator.App.{Response, KeyAuth}
use drnavigator.App.Auth.{IsKeyAuth}
use drnavigator.App.Server.{Endpoint, Call, Listening, plain, with_tls, handle, serve_main_server}
use drnavigator.App.Server.Answers.{Replies, handle-Replies}
use drnavigator.Start.{CommandLine, Flags, Platform, Parts, Program, serve_app, read_flags}
use drnavigator.Start.Ready.{serve_app-IsReady, serve_app_parts}

-- The files of a server with TLS were checked when the flags were read.
read_flags-check_file :
    {W : Type 0} (cmd : CommandLine) (files : Files) (env : Config) (w w' : W) (f : Flags)
    → read_flags cmd files env w ≡ (ok f, w')
    → env.https_enabled ≡ true
    → (check_file files (cmd.join f.cert_dir f.cert_file) ≡ none)
      × (check_file files (cmd.join f.cert_dir f.key_file) ≡ none)
unfolding read_flags
read_flags-check_file cmd files env w w' f made on = ground arith

module _ {W R : Type 0} (platform : Platform W R) (parts : Parts W) (cmd : CommandLine)
    (files : Files) (env : Config) (decode : String → Result String SmConfig) (w w' : W)
    (p : Program W) (made : serve_app platform parts cmd files env decode w ≡ (ok p, w')) where
  -- In a program that has started, every endpoint of the main API answers every request, if the
  -- authorisation of Echo does what it documents and the pages of Swagger answer.
  pub serve_app-handle :
      (key_auth : KeyAuth W)
      → IsKeyAuth key_auth
      → (decode_request : String → Result String SmRequest)
        (swagger_page : W → Result Stop Response × W)
      → Replies swagger_page
      → (endpoint : Endpoint) (call : Call)
      → Replies (
          handle key_auth env
            (validate_token parts.outside env p.sm_config p.flags.token_path)
            decode_request
            swagger_page
            p.manager
            endpoint
            call)
  serve_app-handle key_auth law decode_request swagger_page pages endpoint call =
      handle-Replies key_auth law env _ decode_request swagger_page p.manager
        (serve_app-IsReady platform parts cmd files env decode w w' p made).0 pages endpoint call

  -- In a program that has started, the main API listens without TLS exactly if HTTPS is off, at the
  -- address of the flag; with TLS it uses two files that were there when the program started.
  pub serve_app-serve_main_server :
      (new_cert_watcher : String → String → W → GoError × W) (now later : W) (l : Listening)
      → serve_main_server new_cert_watcher cmd.join env p.flags.bind_address p.flags.cert_dir
          p.flags.cert_file p.flags.key_file now
        ≡ (ok l, later)
      → ((env.https_enabled ≡ false) × (l ≡ plain p.flags.bind_address) × (later ≡ now))
        ⊎ ((env.https_enabled ≡ true)
            × (cert key : String) × (l ≡ with_tls p.flags.bind_address cert key)
            × (check_file files cert ≡ none)
            × (check_file files key ≡ none))
  unfolding serve_main_server
  serve_app-serve_main_server new_cert_watcher now later l serves =
      let (u1, u2, e1, e2, e3, e4) =
        serve_app_parts platform parts cmd files env decode w w' p made in
      elim (Bool-cases env.https_enabled) [
        | inr off ↦ inl (off, ground arith, ground arith)
        | inl on ↦
            let (cert_there, key_there) = read_flags-check_file cmd files env w u1 p.flags e1 on in
            inr (
              on,
              cmd.join p.flags.cert_dir p.flags.cert_file,
              cmd.join p.flags.cert_dir p.flags.key_file,
              ground arith,
              cert_there,
              key_there,
            )
      ]
