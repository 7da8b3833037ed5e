-- ===== src/Geo/Serve/Rounds.antt =====
-- What the loop over BGP leaves in the metrics.
use mathlib.Core.Path.{subst}
use drnavigator.Common.{
  ℕ, zero, suc, String, ◌≡◌, ◌⊎◌, refl, sym, ◌∙◌, some, List, ok, inl, inr, Memᴰ, Result-cases,
}
use drnavigator.Common.Num.{ℤ}
use drnavigator.Geo.Gauge.{value}
use drnavigator.Geo.Bgp.{BgpMetrics, NodeStatus}
use drnavigator.Geo.Bgp.Series.{IsPeerSeries, IsRouteSeries, update_bgp_metrics-IsSeries}
use drnavigator.Geo.Bgp.Complete.{IsCovered, update_bgp_metrics-IsCovered}
use drnavigator.Geo.Serve.{Platform, bgp_round, bgp_rounds}

module _ {W R C : Type 0} (platform : Platform W R C) (clock : W → ℤ × W) (timeout : ℤ)
    (client : C) where
  -- The metrics show one list of statuses, as a whole: every series is of an item of it, and every
  -- item has its series.
  abbrev pub ShowsList : BgpMetrics → List NodeStatus → Type 0
  ShowsList m list =
      ((k : List String) (v : ℤ)
        → value m.bgp_peer k ≡ some v
        → IsPeerSeries clock timeout list k v)
      × ((k : List String) (v : ℤ)
          → value m.bgp_route k ≡ some v
          → IsRouteSeries clock timeout list k v)
      × ((item : NodeStatus) → Memᴰ item list → IsCovered clock timeout m item)

  -- The metrics show a list that the API server returned in some state.
  abbrev pub ShowsListed : BgpMetrics → Type 0
  ShowsListed m =
      (list : List NodeStatus) × (w : W) × ((platform.list_statuses client w).0 ≡ ok list)
      × ShowsList m list

  -- A round either fails to list the statuses, and leaves the metrics, or shows what it listed.
  bgp_round_cases :
      (m : BgpMetrics) (w : W)
      → ((bgp_round platform clock timeout client m w).0 ≡ m)
        ⊎ ShowsListed (bgp_round platform clock timeout client m w).0
  unfolding bgp_round
  bgp_round_cases m w = elim (Result-cases (platform.list_statuses client w).0) [
    | inl (e, fails) ↦ inl (rw (fails, bgp_round) refl)
    | inr (list, works) ↦
        let w1 = (platform.list_statuses client w).1 in
        let (peers, routes) = update_bgp_metrics-IsSeries clock timeout m list w1 in
        inr (
          list,
          w,
          works,
          rw (works, bgp_round)
              (peers, routes, update_bgp_metrics-IsCovered clock timeout m list w1),
        )
  ]

  -- After any number of rounds the metrics are as they were at the start, or show one list that the
  -- API server returned, as a whole and nothing besides; a failed round mixes no two lists.
  pub bgp_rounds-ShowsListed :
      (n : ℕ) (m : BgpMetrics) (w : W)
      → ((bgp_rounds platform clock timeout client n m w).0 ≡ m)
        ⊎ ShowsListed (bgp_rounds platform clock timeout client n m w).0
  unfolding bgp_rounds
  bgp_rounds-ShowsListed zero m w = inl refl
  bgp_rounds-ShowsListed (suc n) m w =
      let (m1, w1) = bgp_round platform clock timeout client m w in
      elim (bgp_rounds-ShowsListed n m1 w1) [
        | inr shows ↦ inr shows
        | inl same ↦ elim (bgp_round_cases m w) [
          | inl kept ↦ inl (same ∙ kept)
          | inr shows ↦ inr (subst (λ x. ShowsListed x) (sym same) shows)
        ]
      ]
