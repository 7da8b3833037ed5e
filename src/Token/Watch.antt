-- ===== src/Token/Watch.antt =====
-- Which token is held while the file is watched.
use mathlib.Core.Path.{subst}
use drnavigator.Common.{
  String, true, false, ◌≡◌, ◌⊎◌, List, [], ◌∷◌, ok, err, arith, ◌||◌, Result-cases, inl, inr,
  Bool-cases, sym,
}
use drnavigator.Token.{
  Event, Delivery, event, watch_error, Outside, TokenWatcher, read_token, watch, handle_event, loop,
  start,
}
use drnavigator.Config.{Config}
use drnavigator.Model.{SmConfig}

module _ {W : Type 0} (out : Outside W) (env : Config) (sm_config : SmConfig)
    (token_path : String) where
  -- The text is what the file held in some state.
  abbrev pub WasRead : String → Type 0
  WasRead text = (w : W) × ((out.read_file token_path w).0 ≡ ok text)

  pub read_token-WasRead :
      (tw : TokenWatcher W)
      → (read_token out env sm_config token_path tw).0 ≡ ok tt
      → WasRead (read_token out env sm_config token_path tw).1.current_token
  unfolding read_token
  read_token-WasRead tw fine = elim (Result-cases (out.read_file token_path tw.world).0) [
    | inl (e, fails) ↦ absurd (ground arith)
    | inr (text, works) ↦ (tw.world, ground arith)
  ]

  pub watch_keeps :
      (path : String) (tw : TokenWatcher W)
      → (watch out env sm_config token_path path tw).1.current_token ≡ tw.current_token
  unfolding watch
  watch_keeps path tw = ground arith

  -- Of an event that is handled without an error: if it removes, creates or writes the file, the token
  -- is what the file then holds; otherwise nothing changes.
  pub handle_event-fresh :
      (ev : Event) (tw : TokenWatcher W)
      → (handle_event out env sm_config token_path ev tw).0 ≡ ok tt
      → (((ev.has_remove || (ev.has_create || ev.has_write)) ≡ true)
          × WasRead (handle_event out env sm_config token_path ev tw).1.current_token)
        ⊎ (((ev.has_remove || (ev.has_create || ev.has_write)) ≡ false)
            × ((handle_event out env sm_config token_path ev tw).1 ≡ tw))
  unfolding handle_event
  handle_event-fresh ev tw fine = elim (Bool-cases ev.has_remove) [
    | inl removed ↦
        (let again = (watch out env sm_config token_path ev.name tw).1 in
          let reading = read_token-WasRead again in
          inl (
            ground arith,
            elim (Result-cases (watch out env sm_config token_path ev.name tw).0) [
              | inl (e, fails) ↦ absurd (ground arith)
              | inr (t, works) ↦ subst (λ s. WasRead s) (ground arith) (reading (ground arith))
            ],
          ))
    | inr kept ↦ elim (Bool-cases (ev.has_create || ev.has_write)) [
      | inl written ↦ inl (
        ground arith,
        subst (λ s. WasRead s) (ground arith) (read_token-WasRead tw (ground arith)),
      )
      | inr idle ↦ inr (ground arith, ground arith)
    ]
  ]

  -- An event whose handling fails leaves the token as it was.
  pub handle_event_fails :
      (ev : Event) (tw : TokenWatcher W) (e : String)
      → (handle_event out env sm_config token_path ev tw).0 ≡ err e
      → (handle_event out env sm_config token_path ev tw).1.current_token ≡ tw.current_token
  unfolding handle_event read_token
  handle_event_fails ev tw e fails = ground arith

  loop-WasRead :
      (deliveries : List Delivery) (tw : TokenWatcher W)
      → WasRead tw.current_token
      → WasRead (loop out env sm_config token_path deliveries tw).1.current_token
  unfolding loop
  loop-WasRead [] tw h = h
  loop-WasRead (watch_error e ∷ rest) tw h = loop-WasRead rest tw h
  loop-WasRead (event ev ∷ rest) tw h =
      elim (Result-cases (handle_event out env sm_config token_path ev tw).0) [
        | inl (e, fails) ↦
            subst (λ s. WasRead s) (let kept = handle_event_fails ev tw e fails in ground arith) h
        | inr (t, works) ↦
            subst (λ s. WasRead s) (ground arith)
              (loop-WasRead rest (handle_event out env sm_config token_path ev tw).1
                (elim (handle_event-fresh ev tw works) [
                  | inl (touched, read) ↦ read
                  | inr (idle, same) ↦ subst (λ s. WasRead s.current_token) (sym same) h
                ]))
      ]

  -- Whatever is delivered, once the first read succeeded the token is always a text that the file
  -- held.
  pub start-WasRead :
      (deliveries : List Delivery) (tw : TokenWatcher W)
      → (read_token out env sm_config token_path tw).0 ≡ ok tt
      → WasRead (start out env sm_config token_path deliveries tw).1.current_token
  unfolding start
  start-WasRead deliveries tw first =
      let read = (read_token out env sm_config token_path tw).1 in
      let kept = watch_keeps token_path read in
      let held = subst (λ s. WasRead s) (sym kept) (read_token-WasRead tw first) in
      elim (Result-cases (watch out env sm_config token_path token_path read).0) [
        | inl (e, fails) ↦ subst (λ s. WasRead s) (ground arith) held
        | inr (t, works) ↦
            subst (λ s. WasRead s) (ground arith)
              (loop-WasRead deliveries (watch out env sm_config token_path token_path read).1 held)
      ]
