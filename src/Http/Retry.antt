-- ===== src/Http/Retry.antt =====
-- The loop of the attempts.
use drnavigator.Common.{ℕ, zero, suc, ◌<◌, ◌≡◌, ◌≢◌, ◌⊎◌, refl, none, inl, inr, arith, Option-cases}
use drnavigator.Http.{Request, Answer, HttpClient, attempts}

module _ {W : Type 0} (client : HttpClient W) (req : Request) where
  -- The state after `k` calls of `Do`, and what call number `k` answers, from 0.
  abbrev pub world_after : ℕ → W → W
  world_after zero w = w
  world_after (suc k) w = world_after k (client.do_request req w).1

  abbrev pub answer_at : ℕ → W → Answer
  answer_at zero w = (client.do_request req w).0
  answer_at (suc k) w = answer_at k (client.do_request req w).1

  -- Call number `k` is the last one that is made: those before it fail, and it does not, or there are
  -- no more.
  abbrev pub IsLast : ℕ → ℕ → W → Type 0
  IsLast retry k w =
      (k < retry)
      × ((j : ℕ) → j < k → (answer_at j w).error ≢ none)
      × (((answer_at k w).error ≡ none) ⊎ (suc k ≡ retry))

  -- The loop returns the answer of the last call.
  pub attempts-IsLast :
      (retry k : ℕ) (last : Answer) (w : W)
      → IsLast retry k w
      → attempts client req retry last w ≡ (answer_at k w, world_after (suc k) w)
  unfolding attempts
  attempts-IsLast zero k last w (below, fails, ends) = absurd (omega arith)
  attempts-IsLast (suc zero) zero last w (below, fails, ends) =
      elim (Option-cases (client.do_request req w).0.error) [
        | inl e ↦ rw (e, attempts) refl
        | inr (m, e) ↦ rw (e, attempts) refl
      ]
  attempts-IsLast (suc (suc r)) zero last w (below, fails, inl works) = rw (works, attempts)
  attempts-IsLast (suc (suc r)) zero last w (below, fails, inr ends) = absurd (omega arith)
  attempts-IsLast (suc r) (suc k) last w (below, fails, ends) =
      let (answer, w') = client.do_request req w in
      let rest = attempts-IsLast r k answer w' (
        omega arith,
        λ j under. fails (suc j) (omega arith),
        elim ends [ inl works ↦ inl works | inr ends' ↦ inr (omega arith) ],
      ) in
      ground (arith, fails 0 (omega arith), rest)

  earlier_lem :
      (k : ℕ) (w : W)
      → (client.do_request req w).0.error ≢ none
      → ((j : ℕ) → j < k → (answer_at j (client.do_request req w).1).error ≢ none)
      → (j : ℕ) → j < suc k
      → (answer_at j w).error ≢ none
  earlier_lem k w first others zero under = first
  earlier_lem k w first others (suc j) under = others j (omega arith)

  -- There is a last call, if there is any.
  pub calls_end : (r : ℕ) (w : W) → (k : ℕ) × IsLast (suc r) k w
  calls_end zero w = (0, (omega arith, λ j under. absurd (omega arith), inr refl))
  calls_end (suc r) w = elim (Option-cases (client.do_request req w).0.error) [
    | inl works ↦ (0, (omega arith, λ j under. absurd (omega arith), inl works))
    | inr (m, broken) ↦
        let (k, (below, fails, ends)) = calls_end r (client.do_request req w).1 in
        (
          suc k,
          (
            omega arith,
            earlier_lem k w (ground arith) fails,
            elim ends [ inl works ↦ inl works | inr ends' ↦ inr (omega arith) ],
          ),
        )
  ]
