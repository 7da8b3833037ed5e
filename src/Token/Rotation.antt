-- ===== src/Token/Rotation.antt =====
-- A change of the token's file is taken up.
use drnavigator.Common.{
  String, Bool, true, false, ◌≡◌, ◌⊎◌, refl, List, [], ◌∷◌, ◌++◌, Result, ok, err, arith, ◌||◌,
  Result-cases, inl, inr, Bool-cases,
}
use drnavigator.Common.Action.{◌>>◌, then_cases, outcome_cases}
use drnavigator.Config.{Config}
use drnavigator.Model.{SmConfig}
use drnavigator.Token.{
  Event, Delivery, event, watch_error, Outside, TokenWatcher, read_token, watch, handle_event, loop,
  start,
}

-- The file is removed, created or written.
abbrev pub touches : Event → Bool
touches ev = ev.has_remove || (ev.has_create || ev.has_write)

-- Nothing happens to the file.
abbrev pub IsQuiet : List Delivery → Type 0
IsQuiet [] = Unit
IsQuiet (watch_error e ∷ rest) = IsQuiet rest
IsQuiet (event ev ∷ rest) = (touches ev ≡ false) × IsQuiet rest

module _ {W : Type 0} (out : Outside W) (env : Config) (sm_config : SmConfig)
    (token_path : String) where
  -- The last thing done outside was to read the token that is held.
  abbrev pub IsCurrent : TokenWatcher W → Type 0
  IsCurrent tw = (w : W) × (out.read_file token_path w ≡ (ok tw.current_token, tw.world))

  -- A run has stopped with an error, or holds what it read last.
  abbrev pub TakesUp : Result String (Unit {0}) × TokenWatcher W → Type 0
  TakesUp p = ((e : String) × (p.0 ≡ err e)) ⊎ ((p.0 ≡ ok tt) × IsCurrent p.1)

  read_token-TakesUp : (tw : TokenWatcher W) → TakesUp (read_token out env sm_config token_path tw)
  unfolding read_token
  read_token-TakesUp tw = elim (outcome_cases (out.read_file token_path tw.world)) [
    | inl (text, w, works) ↦ inr (ground arith, (tw.world, ground arith))
    | inr (e, w, fails) ↦ inl (e, ground arith)
  ]

  handle_event-TakesUp :
      (ev : Event) (tw : TokenWatcher W)
      → touches ev ≡ true
      → TakesUp (handle_event out env sm_config token_path ev tw)
  unfolding handle_event
  handle_event-TakesUp ev tw touched = elim (Bool-cases ev.has_remove) [
    | inl removed ↦
        elim (then_cases (watch out env sm_config token_path ev.name)
          (read_token out env sm_config token_path) tw) [
            | inl (a, works, e) ↦ rw (removed, handle_event, e) (read_token-TakesUp _)
            | inr (x, fails, e) ↦ inl (x, rw (removed, handle_event, e) refl)
          ]
    | inr kept ↦
        let written : (ev.has_create || ev.has_write) ≡ true = ground arith in
        rw (kept, handle_event, written) (read_token-TakesUp tw)
  ]

  loop-++ :
      (before later : List Delivery) (tw : TokenWatcher W)
      → loop out env sm_config token_path (before ++ later) tw
        ≡ (loop out env sm_config token_path before >> loop out env sm_config token_path later) tw
  unfolding loop
  loop-++ [] later tw = refl
  loop-++ (watch_error e ∷ rest) later tw = loop-++ rest later tw
  loop-++ (event ev ∷ rest) later tw =
      elim (Result-cases (handle_event out env sm_config token_path ev tw).0) [
        | inl (e, fails) ↦ rw (fails, loop) refl
        | inr (t, works) ↦
            rw (works, loop)
              (loop-++ rest later (handle_event out env sm_config token_path ev tw).1)
      ]

  loop-IsQuiet :
      (deliveries : List Delivery) (tw : TokenWatcher W)
      → IsQuiet deliveries
      → loop out env sm_config token_path deliveries tw ≡ (ok tt, tw)
  unfolding loop handle_event
  loop-IsQuiet [] tw quiet = refl
  loop-IsQuiet (watch_error e ∷ rest) tw quiet = loop-IsQuiet rest tw quiet
  loop-IsQuiet (event ev ∷ rest) tw (idle, quiet) = ground (arith, loop-IsQuiet rest tw quiet)

  last-TakesUp :
      (ev : Event) (later : List Delivery) (tw : TokenWatcher W)
      → touches ev ≡ true
      → IsQuiet later
      → TakesUp (loop out env sm_config token_path (event ev ∷ later) tw)
  unfolding loop
  last-TakesUp ev later tw touched quiet = elim (handle_event-TakesUp ev tw touched) [
    | inl (e, fails) ↦ inl (e, rw (fails, loop) refl)
    | inr (fine, current) ↦
        rw
          (fine, loop, loop-IsQuiet later (handle_event out env sm_config token_path ev tw).1 quiet)
          (inr (refl, current))
  ]

  loop-TakesUp :
      (before : List Delivery) (ev : Event) (later : List Delivery) (tw : TokenWatcher W)
      → touches ev ≡ true
      → IsQuiet later
      → TakesUp (loop out env sm_config token_path (before ++ (event ev ∷ later)) tw)
  unfolding loop
  loop-TakesUp before ev later tw touched quiet =
      rw (loop-++ before (event ev ∷ later) tw)
        (elim (Result-cases (loop out env sm_config token_path before tw).0) [
          | inl (e, fails) ↦ inl (e, rw fails refl)
          | inr (t, works) ↦ rw works (last-TakesUp ev later _ touched quiet)
        ])

  -- After the file was removed, created or written, and nothing happened to it since, the watcher
  -- either has stopped with an error, or holds what it then read from the file; so a new token is
  -- taken up.
  pub start-TakesUp :
      (before : List Delivery) (ev : Event) (later : List Delivery) (tw : TokenWatcher W)
      → touches ev ≡ true
      → IsQuiet later
      → TakesUp (start out env sm_config token_path (before ++ (event ev ∷ later)) tw)
  unfolding start
  start-TakesUp before ev later tw touched quiet =
      let read = (read_token out env sm_config token_path tw).1 in
      elim (Result-cases (read_token out env sm_config token_path tw).0) [
        | inl (e, fails) ↦ inl (e, rw (fails, start) refl)
        | inr (t, works) ↦
            elim (Result-cases (watch out env sm_config token_path token_path read).0) [
              | inl (e, fails) ↦ inl (e, rw (works, start, fails) refl)
              | inr (t', watched) ↦
                  rw (works, start, watched) (loop-TakesUp before ev later _ touched quiet)
            ]
      ]
