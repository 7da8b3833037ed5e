-- ===== src/Manager/Collect/Requests.antt =====
-- How often the recursion asks: a service that has a status is not asked again.
use drnavigator.Common.{ℕ, ◌+◌, ◌*◌, ◌≤◌, String, Bool, Option, List, arith}
use drnavigator.Model.{SmObject, SmDictionary}
use drnavigator.Manager.Collect.Measure.{missing, missing-insert}
use drnavigator.Manager.Collect.Ends.{missing-noted}
use drnavigator.Manager.Collect.Keeps.{Stores, collect-Keeps}
use drnavigator.Manager.Collect.{Progress, Fetch, collect_services_statuses}

module _ {W : Type 0} (request : SmObject → W → Fetch × W) (dict : SmDictionary) (with_deps : Bool)
    (sent : W → ℕ) where
  -- What was sent, and what the services without a status may still cost.
  abbrev pub budget : Progress W → ℕ
  budget s = sent s.world + 6 * missing dict.services s.result

  module _ (cheap : (obj : SmObject) (w : W) → sent (request obj w).1 ≤ sent w + 6) where
    within-Stores : (bound : ℕ) → Stores request dict with_deps (λ s. budget s ≤ bound)
    within-Stores bound service obj s known new within =
        let fewer =
          missing-insert dict.services s.result service (request obj s.world).0.status
            (ground arith) (ground arith) in
        let fewer' =
          missing-noted request dict with_deps service obj (request obj s.world) s known new in
        (omega (arith, fewer, cheap obj s.world), omega (arith, fewer', cheap obj s.world))

    -- A call sends no more than its first state allows.
    pub collect-budget :
        (fuel : ℕ) (services : List String) (parent : Option String) (s : Progress W)
        → budget (collect_services_statuses request dict with_deps fuel services parent s).1
          ≤ budget s
    collect-budget fuel services parent s =
        collect-Keeps request dict with_deps (λ t. budget t ≤ budget s) (within-Stores (budget s))
          fuel services parent s (omega arith)
