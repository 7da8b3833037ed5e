-- ===== src/Start/Threads/Alone.antt =====
-- The turns of the token watcher, with no others in between, are the method `Start`.
use drnavigator.Common.{Result-cases, String, ◌≡◌, refl, List, [], ◌∷◌, inl, inr, map, ap}
use drnavigator.Common.Action.{◌>>◌, outcome_cases}
use drnavigator.Http.{Request}
use drnavigator.Config.{Config}
use drnavigator.Model.{SmConfig}
use drnavigator.Token.{
  Delivery, event, watch_error, Outside, TokenWatcher, read_token, watch, handle_event, loop, start,
}
use drnavigator.Start.Threads.{
  Phase, reads, adds_watch, listens, stopped, Turn, goes_on, receives, Machine, hear, take_turn,
  take_turns,
}

module _ {V : Type 0} (out : Outside V) (env : Config) (sm_config : SmConfig)
    (token_path : String) where
  abbrev machine : Phase → List (List (Turn V)) → List Request → TokenWatcher V → Machine V
  machine phase schedule sent tw = record {
    watcher = tw;
    phase = phase;
    schedule = schedule;
    sent = sent;
  }

  module _ (schedule : List (List (Turn V))) (sent : List Request) where
    take_turns-stopped :
        (ds : List Delivery) (tw : TokenWatcher V) (e : String)
        → take_turns out env sm_config token_path
            (map receives ds)
            (machine (stopped e) schedule sent tw)
          ≡ machine (stopped e) schedule sent tw
    unfolding take_turns take_turn
    take_turns-stopped [] tw e = refl
    take_turns-stopped (d ∷ ds) tw e = take_turns-stopped ds tw e

    take_turns-loop :
        (ds : List Delivery) (tw : TokenWatcher V)
        → (take_turns out env sm_config token_path
            (map receives ds)
            (machine listens schedule sent tw)).watcher
          ≡ (loop out env sm_config token_path ds tw).1
    unfolding take_turns take_turn hear loop
    take_turns-loop [] tw = refl
    take_turns-loop (watch_error e ∷ ds) tw = take_turns-loop ds tw
    take_turns-loop (event ev ∷ ds) tw =
        let done = handle_event out env sm_config token_path ev tw in
        elim (Result-cases done.0) [
          | inl (e, fails) ↦
              rw (fails, take_turns, loop)
                (ap (λ (s : Machine V). s.watcher)
                  (take_turns-stopped ds (record (done.1) { world = out.close done.1.world }) e))
          | inr (t, works) ↦ rw (works, take_turns, loop) (take_turns-loop ds done.1)
        ]

    watches :
        (ds : List Delivery) (tw : TokenWatcher V)
        → (take_turns out env sm_config token_path
            (goes_on ∷ map receives ds)
            (machine adds_watch schedule sent tw)).watcher
          ≡ ((watch out env sm_config token_path token_path >> loop out env sm_config token_path ds)
              tw).1
    unfolding take_turns take_turn
    watches ds tw = elim (outcome_cases (watch out env sm_config token_path token_path tw)) [
      | inr (e, tw', fails) ↦
          rw (fails, take_turns) (ap (λ (s : Machine V). s.watcher) (take_turns-stopped ds tw' e))
      | inl (t, tw', works) ↦ rw (works, take_turns) (take_turns-loop ds tw')
    ]

    -- The watcher ends up as `Start` leaves it.
    pub take_turns-start :
        (ds : List Delivery) (tw : TokenWatcher V)
        → (take_turns out env sm_config token_path
            (goes_on ∷ goes_on ∷ map receives ds)
            (machine reads schedule sent tw)).watcher
          ≡ (start out env sm_config token_path ds tw).1
    unfolding take_turns take_turn start
    take_turns-start ds tw = elim (outcome_cases (read_token out env sm_config token_path tw)) [
      | inr (e, tw', fails) ↦
          rw (fails, take_turns, start)
            (ap (λ (s : Machine V). s.watcher) (take_turns-stopped ds tw' e))
      | inl (t, tw', works) ↦ rw (works, take_turns, start) (watches ds tw')
    ]
