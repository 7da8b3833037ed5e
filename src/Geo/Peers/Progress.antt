-- ===== src/Geo/Peers/Progress.antt =====
-- How far the turns of the goroutines of `pingPeersStatus` bring them.
use drnavigator.Common.{
  ℕ, zero, suc, String, Bool, ◌≡◌, refl, Option, none, some, List, [], ◌∷◌, arith, Option-cases,
  inl, inr,
}
use Prim.Native.Nat.{◌+◌, ◌*◌}
use mathlib.Core.Path.{subst}
use drnavigator.Geo.Peer.{Peer}
use drnavigator.Geo.Peers.{PeersMetrics, Levels, measure}
use drnavigator.Geo.Peers.Turns.{
  Phase, asleep, sets_dns, sets_svc, sets_pod, Goroutine, Event, turn, outside, Running, advance,
  turn_at, run, spawn,
}

-- Where a goroutine is after a number of turns: four make a round.
abbrev pub IsAfter : ℕ → Phase → Type 0
IsAfter k (asleep none) = k ≡ 0
IsAfter k (asleep (some l)) = (q : ℕ) × (k ≡ 4 * q + 4)
IsAfter k (sets_dns l) = (q : ℕ) × (k ≡ 4 * q + 1)
IsAfter k (sets_svc l) = (q : ℕ) × (k ≡ 4 * q + 2)
IsAfter k (sets_pod l) = (q : ℕ) × (k ≡ 4 * q + 3)

-- Each goroutine is where its number of turns says, by its position.
abbrev pub AllAfter : {W : Type 0} → (ℕ → ℕ) → List (Goroutine W) → Type 0
AllAfter counts [] = Unit
AllAfter counts (t ∷ ts) = IsAfter (counts 0) t.phase × AllAfter (λ j. counts (suc j)) ts

-- One turn more at a position.
abbrev bump : ℕ → (ℕ → ℕ) → ℕ → ℕ
bump zero counts zero = suc (counts 0)
bump zero counts (suc j) = counts (suc j)
bump (suc i) counts zero = counts 0
bump (suc i) counts (suc j) = bump i (λ k. counts (suc k)) j

-- The turns of each position, added to those before.
abbrev pub turns : {W : Type 0} → List (Event W) → (ℕ → ℕ) → ℕ → ℕ
turns [] counts = counts
turns (turn i ∷ es) counts = turns es (bump i counts)
turns (outside f ∷ es) counts = turns es counts

next_round :
    (last : Option Levels) (k : ℕ) → IsAfter k (asleep last) → (q : ℕ) × (suc k ≡ 4 * q + 1)
next_round none k same = (0, omega arith)
next_round (some l) k (q, same) = (suc q, omega arith)

module _ {W : Type 0} (is_ip : String → Bool) where
  advance-IsAfter :
      (n : Peer W) (phase phase' : Phase) (g g' : PeersMetrics) (w w' : W) (k : ℕ)
      → advance is_ip (record { peer = n; phase = phase }) g w ≡ some (phase', g', w')
      → IsAfter k phase
      → IsAfter (suc k) phase'
  unfolding advance
  advance-IsAfter n (asleep last) phase' g g' w w' k goes after =
      elim (Option-cases (measure is_ip n w).0) [
        | inl nil ↦ absurd (ground arith)
        | inr (l, found) ↦
            let same : sets_dns l ≡ phase' = ground arith in
            subst (λ p. IsAfter (suc k) p) same (next_round last k after)
      ]
  advance-IsAfter n (sets_dns l) phase' g g' w w' k goes (q, same) =
      let now : sets_svc l ≡ phase' = ground arith in
      subst (λ p. IsAfter (suc k) p) now (q, omega arith)
  advance-IsAfter n (sets_svc l) phase' g g' w w' k goes (q, same) =
      let now : sets_pod l ≡ phase' = ground arith in
      subst (λ p. IsAfter (suc k) p) now (q, omega arith)
  advance-IsAfter n (sets_pod l) phase' g g' w w' k goes (q, same) =
      let now : asleep (some l) ≡ phase' = ground arith in
      subst (λ p. IsAfter (suc k) p) now (q, omega arith)

  turn_at-AllAfter :
      (i : ℕ) (ts ts' : List (Goroutine W)) (g g' : PeersMetrics) (w w' : W) (counts : ℕ → ℕ)
      → turn_at is_ip i ts g w ≡ some (ts', g', w')
      → AllAfter counts ts
      → AllAfter (bump i counts) ts'
  unfolding turn_at
  turn_at-AllAfter i [] ts' g g' w w' counts goes after =
      let same : [] ≡ ts' = ground arith in subst (λ us. AllAfter (bump i counts) us) same tt
  turn_at-AllAfter zero (t ∷ ts) ts' g g' w w' counts goes (now, rest) =
      elim (Option-cases (advance is_ip t g w)) [
        | inl nil ↦ absurd (ground arith)
        | inr ((phase, g1, w1), moves) ↦
            let same : record { peer = t.peer; phase = phase } ∷ ts ≡ ts' = ground arith in
            subst (λ us. AllAfter (bump 0 counts) us) same
              (advance-IsAfter t.peer t.phase phase g g1 w w1 (counts 0) moves now, rest)
      ]
  turn_at-AllAfter (suc i) (t ∷ ts) ts' g g' w w' counts goes (now, rest) =
      elim (Option-cases (turn_at is_ip i ts g w)) [
        | inl nil ↦ absurd (ground arith)
        | inr ((ts1, g1, w1), moves) ↦
            let same : t ∷ ts1 ≡ ts' = ground arith in
            subst (λ us. AllAfter (bump (suc i) counts) us) same
              (now, turn_at-AllAfter i ts ts1 g g1 w w1 (λ j. counts (suc j)) moves rest)
      ]

  pub run-AllAfter :
      (es : List (Event W)) (s s' : Running W) (counts : ℕ → ℕ)
      → run is_ip es s ≡ some s'
      → AllAfter counts s.goroutines
      → AllAfter (turns es counts) s'.goroutines
  unfolding run
  run-AllAfter [] s s' counts ends after =
      let same : s ≡ s' = ground arith in
      subst (λ (u : Running W). AllAfter counts u.goroutines) same after
  run-AllAfter (outside f ∷ es) s s' counts ends after =
      run-AllAfter es (record s { network = f s.network }) s' counts ends after
  run-AllAfter (turn i ∷ es) s s' counts ends after =
      elim (Option-cases (turn_at is_ip i s.goroutines s.metrics s.network)) [
        | inl nil ↦ absurd (ground arith)
        | inr ((ts, g, w), goes) ↦
            run-AllAfter es (record { goroutines = ts; metrics = g; network = w }) s'
              (bump i counts) (ground arith)
              (turn_at-AllAfter i s.goroutines ts s.metrics g s.network w counts goes after)
      ]

pub spawn-AllAfter : {W : Type 0} (ns : List (Peer W)) → AllAfter (λ i. 0) (spawn ns)
unfolding spawn
spawn-AllAfter [] = tt
spawn-AllAfter (n ∷ ns) = (refl, spawn-AllAfter ns)
