-- ===== src/Common/Action.antt =====
-- Go methods that act on a state and may return an error. What was written before an error stays
-- written, so the state comes back beside the error too.
use mathlib.Core.Path.{◌≡◌, refl}
use mathlib.Core.Logic.{◌⊎◌, inl, inr}
use drnavigator.Common.Base.{Result, ok, err, Result-cases}

abbrev pub Action {ℓ} : Type ℓ → Type ℓ → Type ℓ → Type ℓ
Action S E A = S → Result E A × S

module _ {ℓ} {S E A B : Type ℓ} where
  abbrev pub continue : Result E A → (A → Action S E B) → Action S E B
  continue (ok a) f s = f a s
  continue (err e) f s = (err e, s)

  infixl 10 ◌>>=◌
  abbrev pub ◌>>=◌ : Action S E A → (A → Action S E B) → Action S E B
  ◌>>=◌ m f s = let (r, s') = m s in continue r f s'

  infixl 10 ◌>>◌
  abbrev pub ◌>>◌ : Action S E A → Action S E B → Action S E B
  m >> n = m >>= λ _. n

module _ {ℓ} {S E A : Type ℓ} where
  abbrev pub pure : A → Action S E A
  pure a s = (ok a, s)

  abbrev pub raise : E → Action S E A
  raise e s = (err e, s)

module _ {ℓ} {S E A B : Type ℓ} (m : Action S E A) (n : Action S E B) (s : S) where
  -- Both ways that a sequence can go.
  pub then_cases :
      ((a : A) × ((m s).0 ≡ ok a) × ((m >> n) s ≡ n (m s).1))
      ⊎ ((e : E) × ((m s).0 ≡ err e) × ((m >> n) s ≡ (err e, (m s).1)))
  then_cases = elim (Result-cases (m s).0) [
    | inl (e, fails) ↦ inr (e, fails, rw (fails, continue))
    | inr (a, works) ↦ inl (a, works, rw (works, continue))
  ]

pub outcome_cases {ℓ} :
    {S E A : Type ℓ} (p : Result E A × S)
    → ((a : A) × (s : S) × (p ≡ (ok a, s))) ⊎ ((e : E) × (s : S) × (p ≡ (err e, s)))
outcome_cases (ok a, s) = inl (a, s, refl)
outcome_cases (err e, s) = inr (e, s, refl)

-- What is known of a sequence that returned.
pub >>=-eq-ok {ℓ} :
    {S E A B : Type ℓ} (m : Action S E A) (f : A → Action S E B) {s t : S} {b : B}
    → (m >>= f) s ≡ (ok b, t)
    → (a : A) × (u : S) × (m s ≡ (ok a, u)) × (f a u ≡ (ok b, t))
>>=-eq-ok m f {s} e = elim (outcome_cases (m s)) [
  | inl (a, u, works) ↦ (a, u, works, rw (works, continue) at e)
  | inr (x, u, fails) ↦ absurd (let stuck = rw (fails, continue) at e in cc)
]
