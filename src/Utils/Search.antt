-- ===== src/Utils/Search.antt =====
-- What the searches of a slice find.
use mathlib.Core.List.Memᴰ.{head, tail}
use drnavigator.Common.{
  Bool, true, false, ◌≡◌, ◌↔◌, refl, sym, none, some, List, [], ◌∷◌, arith, Memᴰ, All, Bool-cases,
  inl, inr,
}
use drnavigator.Utils.{contains, find_first_from_slice}

module _ {ℓ} {A : Type ℓ} where
  -- If the comparison decides equality, a value is found exactly when it is in the slice.
  contains-Memᴰ :
      (equal : A → A → Bool)
      → ((a b : A) → (equal a b ≡ true) ↔ (a ≡ b))
      → (s : List A) (v : A) → (contains equal s v ≡ true) ↔ Memᴰ v s
  unfolding contains
  contains-Memᴰ equal law [] v = (λ e. absurd (ground arith), λ m. elim m [ ])
  contains-Memᴰ equal law (e ∷ s) v =
      let (there, back) = contains-Memᴰ equal law s v in
      elim (Bool-cases (equal v e)) [
        | inl same ↦ (λ h. head ((law v e).0 same), λ m. ground arith)
        | inr differ ↦ (
          λ h. tail (there (ground arith)),
          λ m. elim m [
            | head same ↦ (let found = (law v e).1 same in absurd (ground arith))
            | tail rest ↦ (let found = back rest in ground arith)
          ],
        )
      ]

  -- Nothing is found exactly when no element passes the filter; what is found passes it and is an
  -- element of the slice.
  find_first_from_slice_iff :
      (filter : A → Bool) (s : List A)
      → (find_first_from_slice s filter ≡ none) ↔ All (λ x. filter x ≡ false) s
  unfolding find_first_from_slice
  find_first_from_slice_iff filter [] = (λ e. tt, λ a. refl)
  find_first_from_slice_iff filter (x ∷ s) =
      let (there, back) = find_first_from_slice_iff filter s in
      (
        λ e. (ground arith, there (ground arith)),
        λ (rejected, rest). (let none_left = back rest in ground arith),
      )

  find_first_from_slice-Memᴰ :
      (filter : A → Bool) (s : List A) (v : A)
      → find_first_from_slice s filter ≡ some v
      → (filter v ≡ true) × Memᴰ v s
  unfolding find_first_from_slice
  find_first_from_slice-Memᴰ filter [] v e = absurd (ground arith)
  find_first_from_slice-Memᴰ filter (x ∷ s) v e = elim (Bool-cases (filter x)) [
    | inl passes ↦ let same : x ≡ v = ground arith in (ground arith, head (sym same))
    | inr rejected ↦
        let (passes, m) = find_first_from_slice-Memᴰ filter s v (ground arith) in (passes, tail m)
  ]
