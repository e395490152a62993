-- ===== src/Node/Rounds.antt =====
-- internal/runtime/node.go: the rounds of a node. The workers are a map from the group; `log` lists
-- what the node did, the newest first.
pub mod Leases
pub mod Stop
pub mod Start
pub mod Trace
pub mod Size
pub mod Within
pub mod Candidates
pub mod Capacity
use market_data_backend.Prelude.{
  ℕ, ◌+◌, String, Bool, true, false, not, List, [], ◌∷◌, ◌++◌, map, Option, none, some, ◌==◌,
  String_eq, if◌then◌else◌, ◌&&◌, length,
}
use market_data_backend.Prelude.Map
use market_data_backend.Prelude.Int.{ℤ, pos, ◌+ℤ◌, leb_ℤ, ltb_ℤ, wrap64}
use market_data_backend.Model.{GroupInput, MarketGroup, RuntimeCapacity}
use market_data_backend.Reconcile.{ReconcilePlan, plan_reconcile}
use market_data_backend.Worker.State.{WorkerState, terminal}
use market_data_backend.Node.{NodeConfig}

-- `ended`: the node saw that the worker of the group has stopped. `abandoned`: the worker did not
-- stop in time, and its lease is left to expire.
pub data NodeEffect : Type 0 where
  acquired : String → NodeEffect
  started : String → NodeEffect
  ended : String → NodeEffect
  abandoned : String → NodeEffect
  released : String → NodeEffect

pub record Node : Type 0 where
  pub cfg : NodeConfig
  pub workers : List (String × MarketGroup)
  pub log : List NodeEffect

unfoldable pub new_node : NodeConfig → Node
new_node cfg = record { cfg = cfg; workers = []; log = [] }

abbrev pub note : Node → NodeEffect → Node
note n effect = record n { log = effect ∷ n.log }

unfoldable pub group_weight : MarketGroup → ℤ
group_weight g = if leb_ℤ g.weight (pos 0) then pos 1 else g.weight

unfoldable pub running_group_ids : Node → List String
running_group_ids n = Map.keys n.workers

-- The loop over the workers of `capacity`, on `int`.
unfoldable pub add_weights : ℤ → List (String × MarketGroup) → ℤ
unfolding group_weight
add_weights weight [] = weight
add_weights weight ((gid, g) ∷ workers) = add_weights (wrap64 (weight +ℤ group_weight g)) workers

unfoldable pub current_weight : Node → ℤ
unfolding add_weights
current_weight n = add_weights (pos 0) n.workers

-- What the store answers to `TryAcquireGroupLease`.
pub data Acquire : Type 0 where
  granted : Acquire
  held_elsewhere : Acquire
  acquire_failed : Acquire

-- What a round meets: the states of the workers, the runnable groups (`none`: the query failed), and
-- for each group the answer to the lease, whether its inputs load, and whether its worker stops
-- before the deadline.
pub record NodeAnswers : Type 0 where
  pub state_of : String → WorkerState
  pub runnable : Option (List MarketGroup)
  pub acquires : String → Acquire
  pub inputs_load : String → Bool
  pub stops : String → Bool

-- The ids of the workers that exited on their own.
unfoldable pub dead_ids : (String → WorkerState) → List String → List String
unfolding terminal
dead_ids state_of [] = []
dead_ids state_of (gid ∷ gids) =
    let rest = dead_ids state_of gids in if terminal (state_of gid) then gid ∷ rest else rest

unfoldable pub drop_workers : Node → List String → Node
drop_workers n [] = n
drop_workers n (gid ∷ gids) =
    drop_workers (note (record n { workers = Map.delete gid n.workers }) (ended gid)) gids

unfoldable pub release_leases : Node → List String → Node
release_leases n [] = n
release_leases n (gid ∷ gids) = release_leases (note n (released gid)) gids

unfoldable pub prune_dead_workers : Node → (String → WorkerState) → Node
unfolding dead_ids drop_workers release_leases running_group_ids
prune_dead_workers n state_of =
    let dead = dead_ids state_of (running_group_ids n) in release_leases (drop_workers n dead) dead

-- After the wait for a worker that was taken out of the map.
abbrev pub stopped_worker : Node → String → Bool → Node
stopped_worker n gid true = note (note n (ended gid)) (released gid)
stopped_worker n gid false = note n (abandoned gid)

unfoldable pub stop_worker : Node → String → Bool → Node
stop_worker n gid in_time = elim (Map.lookup gid n.workers) [
  | none ↦ n
  | some g ↦ stopped_worker (record n { workers = Map.delete gid n.workers }) gid in_time
]

unfoldable pub stop_workers : Node → List String → (String → Bool) → Node
unfolding stop_worker
stop_workers n [] stops = n
stop_workers n (gid ∷ gids) stops = stop_workers (stop_worker n gid (stops gid)) gids stops

-- With the lease in hand.
abbrev pub start_worker : Node → MarketGroup → Bool → Node × Bool
start_worker n g true =
    (note (record n { workers = Map.insert g.group_id g n.workers }) (started g.group_id), true)
start_worker n g false = (note n (released g.group_id), false)

unfoldable pub try_start_worker : Node → MarketGroup → Acquire → Bool → Node × Bool
try_start_worker n g granted inputs_load = start_worker (note n (acquired g.group_id)) g inputs_load
try_start_worker n g held_elsewhere inputs_load = (n, false)
try_start_worker n g acquire_failed inputs_load = (n, false)

-- The variables of the loop over the candidates.
pub record Starts : Type 0 where
  pub node : Node
  pub count : ℕ
  pub weight : ℤ

abbrev pub counted : Starts → ℤ → Node × Bool → Starts
counted s w (n, true) = record { node = n; count = s.count + 1; weight = wrap64 (s.weight +ℤ w) }
counted s w (n, false) = record s { node = n }

-- One candidate with its group.
unfoldable pub start_one : NodeAnswers → Starts → MarketGroup → Starts
unfolding try_start_worker group_weight
start_one a s g =
    let w = group_weight g in
    let max_weight = s.node.cfg.max_weight in
    if ltb_ℤ (pos 0) max_weight && ltb_ℤ max_weight (wrap64 (s.weight +ℤ w))
    then s
    else counted s w (try_start_worker s.node g (a.acquires g.group_id) (a.inputs_load g.group_id))

-- The loop over the candidates.
unfoldable pub start_workers : NodeAnswers → ℤ → Starts → List MarketGroup → Starts
unfolding start_one
start_workers a slots s [] = s
start_workers a slots s (g ∷ gs) = elim (leb_ℤ slots (pos s.count)) [
  | true ↦ s
  | false ↦ start_workers a slots (start_one a s g) gs
]

-- `groupByID[gid]`: the last of the groups with this id.
unfoldable pub group_by_id : String → List MarketGroup → Option MarketGroup
group_by_id gid [] = none
group_by_id gid (g ∷ gs) = elim (group_by_id gid gs) [
  | some found ↦ some found
  | none ↦ if g.group_id == gid then some g else none
]

-- The ids come from the plan, which takes them from the same groups, so that each has its group.
unfoldable pub groups_by_id : List String → List MarketGroup → List MarketGroup
unfolding group_by_id
groups_by_id [] gs = []
groups_by_id (gid ∷ gids) gs = elim (group_by_id gid gs) [
  | some g ↦ g ∷ groups_by_id gids gs
  | none ↦ groups_by_id gids gs
]

-- The round once the runnable groups are known.
unfoldable pub apply_plan : Node → NodeAnswers → List MarketGroup → Node
unfolding stop_workers start_workers groups_by_id running_group_ids current_weight
apply_plan n a groups =
    let plan =
      plan_reconcile (map (λ (g : MarketGroup). g.group_id) groups) (running_group_ids n)
        n.cfg.max_groups in
    let kept = stop_workers n plan.to_stop a.stops in
    let s : Starts = record { node = kept; count = 0; weight = current_weight kept } in
    (start_workers a plan.start_slots s (groups_by_id plan.to_start groups)).node

unfoldable pub reconcile_once : Node → NodeAnswers → Node
unfolding prune_dead_workers apply_plan
reconcile_once n a =
    let pruned = prune_dead_workers n a.state_of in
    elim a.runnable [ none ↦ pruned | some groups ↦ apply_plan pruned a groups ]

unfoldable pub shutdown : Node → (String → Bool) → Node
unfolding stop_workers running_group_ids
shutdown n stops = stop_workers n (running_group_ids n) stops

-- The rounds of `reconcileLoop`, one for each tick.
unfoldable pub rounds : Node → List NodeAnswers → Node
unfolding reconcile_once
rounds n [] = n
rounds n (a ∷ answers) = rounds (reconcile_once n a) answers
