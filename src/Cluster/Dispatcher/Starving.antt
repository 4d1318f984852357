-- ===== src/Cluster/Dispatcher/Starving.antt =====
-- pickWorkerForType of internal/group_types/cluster/dispatcher.go, call after call: its counter against
-- the order in which `range` visits the workers, which Go chooses anew in each call.
use goop.Base.{true, String, List, [], ◌∷◌, ◌≡◌, ◌≢◌, Result, ok, err}
use goop.Base.Map.{Map}
use goop.Cluster.Types.{WorkerInfo}
use goop.Cluster.Dispatcher.{Dispatcher, Fault, is_eligible, pick_worker_for_type}
use goop.Cluster.Dispatcher.Picking.{IsOrder}

-- The workers that a row of picks names, where each visits the workers in its own order.
unfoldable pub pick_each : List (Map WorkerInfo) → String → Dispatcher → Result Fault (List String)
pick_each [] t d = ok []
pick_each (o ∷ os) t d = elim (pick_worker_for_type o d t) [
  | err f ↦ err f
  | ok (x, d') ↦ elim (pick_each os t d') [ err f ↦ err f | ok xs ↦ ok (x ∷ xs) ]
]

abbrev pub AllOrders : List (Map WorkerInfo) → Map WorkerInfo → Type 0
AllOrders [] workers = Unit
AllOrders (o ∷ os) workers = IsOrder o workers × AllOrders os workers

module _ (t a b : String) (v w : WorkerInfo) (differ : a ≢ b) (first : is_eligible t v ≡ true)
    (second : is_eligible t w ≡ true) where
  abbrev both : Map WorkerInfo
  both = (a, v) ∷ (b, w) ∷ []

  abbrev turned : Map WorkerInfo
  turned = (b, w) ∷ (a, v) ∷ []
