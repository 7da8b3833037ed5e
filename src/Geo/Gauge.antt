-- ===== src/Geo/Gauge.antt =====
-- A `prometheus.GaugeVec` as the series that it holds, by the values of their labels.
use drnavigator.Common.{
  String, Bool, true, false, ◌≡◌, refl, Option, none, some, List, [], ◌∷◌, ◌==◌, ◌&&◌,
  if◌then◌else◌, arith, eq_iff, ◌↔◌,
}
use drnavigator.Common.Num.{ℤ}

abbrev pub GaugeVec : Type 0
GaugeVec = List (List String × ℤ)

unfoldable pub same_labels : List String → List String → Bool
same_labels [] [] = true
same_labels [] (y ∷ ys) = false
same_labels (x ∷ xs) [] = false
same_labels (x ∷ xs) (y ∷ ys) = x == y && same_labels xs ys

unfoldable pub value : GaugeVec → List String → Option ℤ
value [] k = none
value ((j, v) ∷ g) k = if same_labels j k then some v else value g k

-- `WithLabelValues(k...).Set(v)`
unfoldable pub set : GaugeVec → List String → ℤ → GaugeVec
set [] k v = (k, v) ∷ []
set ((j, u) ∷ g) k v = if same_labels j k then (j, v) ∷ g else (j, u) ∷ set g k v

pub same_labels_iff : (j k : List String) → (same_labels j k ≡ true) ↔ (j ≡ k)
unfolding same_labels
same_labels_iff [] [] = (λ e. refl, λ e. refl)
same_labels_iff [] (y ∷ ys) = ground arith
same_labels_iff (x ∷ xs) [] = ground arith
same_labels_iff (x ∷ xs) (y ∷ ys) = let ih = same_labels_iff xs ys in ground (arith, eq_iff x y)

pub value-set :
    (g : GaugeVec) (k j : List String) (v : ℤ)
    → value (set g k v) j ≡ (if same_labels k j then some v else value g j)
unfolding value set
value-set [] k j v = refl
value-set ((i, u) ∷ g) k j v =
    let (a, a') = same_labels_iff k j in
    let (b, b') = same_labels_iff i k in
    let (c, c') = same_labels_iff i j in let ih = value-set g k j v in ground arith
