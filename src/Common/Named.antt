-- ===== src/Common/Named.antt =====
-- Lists of resources that have a name and a uid.
use mathlib.Core.Path.{subst}
use mathlib.Core.Logic.{⊎_elim}
use mathlib.Core.Bool.{true, false}
use mathlib.Core.List.{List, [], ◌∷◌, map, Memᴰ}
use mathlib.Core.List.Memᴰ
use mathlib.Core.Option.{Option, none, some}
use drnavigator.Common.{
  String, ◌≡◌, refl, ap, sym, ◌∙◌, inl, inr, arith, eq_iff, ◌==◌, elem, Option-cases, Bool-cases,
  if◌then◌else◌,
}

-- The last element of a list that bears the name `k`.
abbrev pub last_named {ℓ} : {A : Type ℓ} → (A → String) → String → List A → Option A
last_named name k [] = none
last_named name k (x ∷ xs) = elim (last_named name k xs) [
  | some y ↦ some y
  | none ↦ if name x == k then some x else none
]

module _ {A : Type 0} (name uid : A → String) where
  -- Two elements of one name are the same, as their uids tell.
  abbrev pub IsUnique : List A → Type 0
  IsUnique xs = (a b : A) → Memᴰ a xs → Memᴰ b xs → name a ≡ name b → uid a ≡ uid b

  -- Each element has a uid of its own.
  abbrev pub HasOwnUids : List A → Type 0
  HasOwnUids [] = Unit
  HasOwnUids (x ∷ xs) = (elem (uid x) (map uid xs) ≡ false) × HasOwnUids xs

  -- The elements without those of one uid.
  unfoldable pub without : String → List A → List A
  without u [] = []
  without u (x ∷ xs) = let rest = without u xs in if uid x == u then rest else x ∷ rest

  pub mem-without : (u : String) (xs : List A) (a : A) → Memᴰ a (without u xs) → Memᴰ a xs
  unfolding without
  mem-without u [] a m = elim m [ ]
  mem-without u (x ∷ xs) a m = elim (Bool-cases (uid x == u)) [
    | inl gone ↦ Memᴰ.tail (mem-without u xs a (rw (gone, without) at m))
    | inr kept ↦
        ⊎_elim Memᴰ.head (λ t. Memᴰ.tail (mem-without u xs a t))
          (Memᴰ.cases_cons (rw (kept, without) at m))
  ]

  -- An element that agrees with every other of its name may join.
  pub IsUnique-cons :
      (x : A) (xs : List A)
      → IsUnique xs
      → ((y : A) → Memᴰ y xs → name y ≡ name x → uid y ≡ uid x)
      → IsUnique (x ∷ xs)
  IsUnique-cons x xs unique h a b (Memᴰ.head e) (Memᴰ.head f) same = cc
  IsUnique-cons x xs unique h a b (Memᴰ.head e) (Memᴰ.tail n) same = ground (arith, h b n)
  IsUnique-cons x xs unique h a b (Memᴰ.tail k) (Memᴰ.head f) same = ground (arith, h a k)
  IsUnique-cons x xs unique h a b (Memᴰ.tail k) (Memᴰ.tail n) same = unique a b k n same

  pub IsUnique-without : (u : String) (xs : List A) → IsUnique xs → IsUnique (without u xs)
  IsUnique-without u xs unique a b k n same =
      unique a b (mem-without u xs a k) (mem-without u xs b n) same

  pub mem-elem : (xs : List A) (a : A) → Memᴰ a xs → elem (uid a) (map uid xs) ≡ true
  mem-elem [] a m = elim m [ ]
  mem-elem (x ∷ xs) a (Memᴰ.head e) = let uids = ap uid e in ground (arith, eq_iff (uid x) (uid a))
  mem-elem (x ∷ xs) a (Memᴰ.tail m) = ground (arith, mem-elem xs a m)

  pub absent-without : (u : String) (xs : List A) → elem u (map uid (without u xs)) ≡ false
  unfolding without
  absent-without u [] = refl
  absent-without u (x ∷ xs) = elim (Bool-cases (uid x == u)) [
    | inl gone ↦ rw (gone, without) (absent-without u xs)
    | inr kept ↦ rw (kept, without) (let rest = absent-without u xs in ground arith)
  ]

  still_absent :
      (u other : String) (xs : List A)
      → elem other (map uid xs) ≡ false
      → elem other (map uid (without u xs)) ≡ false
  unfolding without
  still_absent u other [] h = refl
  still_absent u other (x ∷ xs) h = elim (Bool-cases (uid x == u)) [
    | inl gone ↦ rw (gone, without) (still_absent u other xs (ground arith))
    | inr kept ↦
        rw (kept, without) (let rest = still_absent u other xs (ground arith) in ground arith)
  ]

  pub HasOwnUids-without : (u : String) (xs : List A) → HasOwnUids xs → HasOwnUids (without u xs)
  unfolding without
  HasOwnUids-without u [] own = tt
  HasOwnUids-without u (x ∷ xs) (new, own) = elim (Bool-cases (uid x == u)) [
    | inl gone ↦ rw (gone, without) (HasOwnUids-without u xs own)
    | inr kept ↦ rw (kept, without) (still_absent u (uid x) xs new, HasOwnUids-without u xs own)
  ]

  pub last_named-Memᴰ :
      (xs : List A) (k : String) (a : A) → last_named name k xs ≡ some a → Memᴰ a xs × (name a ≡ k)
  last_named-Memᴰ [] k a e = absurd (ground arith)
  last_named-Memᴰ (x ∷ xs) k a e = elim (Option-cases (last_named name k xs)) [
    | inr (y, found) ↦
        let (m, named) = last_named-Memᴰ xs k y found in
        let same : a ≡ y = ground arith in
        (Memᴰ.tail (subst (λ z. Memᴰ z xs) (sym same) m), ap name same ∙ named)
    | inl missing ↦ elim (Bool-cases (name x == k)) [
      | inl named ↦
          let same : a ≡ x = ground arith in
          (Memᴰ.head same, ap name same ∙ (eq_iff (name x) k).0 named)
      | inr unnamed ↦ absurd (ground arith)
    ]
  ]

  -- An element is found under its name.
  pub last_named_there :
      (xs : List A) (a : A) → Memᴰ a xs → (b : A) × (last_named name (name a) xs ≡ some b)
  last_named_there [] a m = elim m [ ]
  last_named_there (x ∷ xs) a (Memᴰ.tail m) =
      let (b, found) = last_named_there xs a m in (b, ground arith)
  last_named_there (x ∷ xs) a (Memᴰ.head e) = elim (Option-cases (last_named name (name a) xs)) [
    | inr (y, found) ↦ (y, ground arith)
    | inl alone ↦ let named = (eq_iff (name x) (name a)).1 (ap name (sym e)) in (x, ground arith)
  ]

  -- Of elements that are unique, each is the last of its name.
  pub last_named_unique :
      (xs : List A) (a : A)
      → IsUnique xs
      → HasOwnUids xs
      → Memᴰ a xs
      → last_named name (name a) xs ≡ some a
  last_named_unique [] a unique own m = elim m [ ]
  last_named_unique (x ∷ xs) a unique (new, own) (Memᴰ.tail m) =
      let rest = last_named_unique xs a (λ a b k n. unique a b (Memᴰ.tail k) (Memᴰ.tail n)) own m in
      ground arith
  last_named_unique (x ∷ xs) a unique (new, own) (Memᴰ.head e) =
      elim (Option-cases (last_named name (name a) xs)) [
        | inl alone ↦
            let names = ap name e in
            let named = (eq_iff (name x) (name a)).1 (sym names) in ground arith
        | inr (y, found) ↦
            let (m, named) = last_named-Memᴰ xs (name a) y found in
            let uids = unique y x (Memᴰ.tail m) (Memᴰ.head refl) (named ∙ ap name e) in
            let listed = mem-elem xs y m in absurd (ground arith)
      ]
