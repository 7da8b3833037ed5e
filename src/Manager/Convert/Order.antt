-- ===== src/Manager/Convert/Order.antt =====
-- The dictionary does not depend on the order in which the API server lists the resources, as long
-- as no two of a kind have one name. Go's maps have no order, so a map is seen as its lookups.
use mathlib.Core.Quot
use mathlib.Core.Quot.{Quot}
use mathlib.Core.List.Permᴰ.{Permᴰ, nil, cons, swap, trans}
use drnavigator.Common.{String, ◌≡◌, refl, ◌∙◌, none, List, [], ◌∷◌, arith, eq_iff}
use drnavigator.Common.Dict.{Dict, get}
use drnavigator.Config.{Config}
use drnavigator.Model.{SmObject}
use drnavigator.Api.V3
use drnavigator.Api.Qubership
use drnavigator.Manager.Convert.{convert_to_dict}
use drnavigator.Common.Named.{last_named}
use drnavigator.Manager.Convert.Lookup.{get-convert_to_dict}

-- A map, seen from outside: what it holds under each key.
abbrev pub SameMap {ℓ} : {V : Type ℓ} → Dict V → Dict V → Type ℓ
SameMap d e = (k : String) → get d k ≡ get e k

abbrev pub Map {ℓ} : Type ℓ → Type ℓ
Map V = Quot (SameMap {V = V})

module _ {ℓ} {A : Type ℓ} (name : A → String) where
  -- No element bears the name of one before it.
  abbrev pub HasDistinctNames : List A → Type ℓ
  HasDistinctNames [] = Unit
  HasDistinctNames (x ∷ xs) = (last_named name (name x) xs ≡ none) × HasDistinctNames xs

  -- In any order there is the same element of each name, and still one of each.
  last_named-Permᴰ :
      {xs ys : List A}
      → Permᴰ xs ys
      → HasDistinctNames xs
      → ((k : String) → last_named name k xs ≡ last_named name k ys) × HasDistinctNames ys
  last_named-Permᴰ nil u = (λ k. refl, u)
  last_named-Permᴰ (cons {a} {b} {l₁} {l₂} same rest) (new, u) =
      let (equal, unique) = last_named-Permᴰ rest u in
      (λ k. ground (arith, equal k), (ground (arith, equal (name a)), unique))
  last_named-Permᴰ (swap {a} {b} {a'} {b'} {l} one two) (new, (newer, u)) = (
    λ k. ground (arith, eq_iff (name a) k, eq_iff (name b) k, eq_iff (name b) (name a)),
    (
      ground (arith, eq_iff (name a) (name b), eq_iff (name b) (name a)),
      (ground (arith, eq_iff (name b) (name a)), u),
    ),
  )
  last_named-Permᴰ (trans first second) u =
      let (equal, unique) = last_named-Permᴰ first u in
      let (equal', unique') = last_named-Permᴰ second unique in (λ k. equal k ∙ equal' k, unique')

module _ (env : Config) where
  -- If no two legacy resources and no two new ones have one name, then the map that the dictionary
  -- is depends only on which resources there are, and not on their order.
  pub convert_to_dict-Permᴰ :
      {legacy legacy' : List V3.Cr} {list list' : List Qubership.SiteManager}
      → Permᴰ legacy legacy'
      → Permᴰ list list'
      → HasDistinctNames V3.get_service_name legacy
      → HasDistinctNames Qubership.get_service_name list
      → Path
          (Map SmObject)
          (Quot.mk (convert_to_dict env legacy list).services)
          (Quot.mk (convert_to_dict env legacy' list').services)
  convert_to_dict-Permᴰ {legacy} {legacy'} {list} {list'} p q u v =
      let (same, _) = last_named-Permᴰ V3.get_service_name p u in
      let (same', _) = last_named-Permᴰ Qubership.get_service_name q v in
      Quot.sound (λ k. ground (
        arith,
        get-convert_to_dict env legacy list k,
        get-convert_to_dict env legacy' list' k,
        same k,
        same' k,
      ))
