-- ===== src/Node/Rounds/Trace.antt =====
-- The trace of a node over its rounds and its shutdown is in order.
use market_data_backend.Prelude.{
  String, Bool, true, false, List, [], ◌∷◌, map, none, ◌==◌, String_eq, if◌then◌else◌, ◌&&◌, ◌≡◌,
  refl, sym, subst, eq_test_iff, eq_test_self, Bool-cases, Option-cases, inl, inr, arith, contains,
}
use market_data_backend.Prelude.Map
use market_data_backend.Prelude.Int.{ℤ, pos, ◌+ℤ◌, wrap64, leb_ℤ, ltb_ℤ}
use market_data_backend.Model.{MarketGroup}
use market_data_backend.Reconcile.{plan_reconcile}
use market_data_backend.Node.{NodeConfig}
use market_data_backend.Node.Rounds.{
  acquired, Node, new_node, note, Acquire, granted, held_elsewhere, acquire_failed, NodeAnswers,
  running_group_ids, current_weight, group_weight, prune_dead_workers, stop_workers, start_worker,
  try_start_worker, groups_by_id, Starts, counted, start_one, start_workers, apply_plan,
  reconcile_once, shutdown, rounds,
}
use market_data_backend.Node.Rounds.Leases.{
  IsOrderly, IsTracked, released-IsTracked, acquired-IsTracked, started-IsTracked,
}
use market_data_backend.Node.Rounds.Stop.{prune_dead_workers-IsTracked, stop_workers-IsTracked}
use market_data_backend.Node.Rounds.Start.{ids, AllAbsent, IsFresh, candidates-IsFresh}

-- With the lease in hand: the worker starts, or the lease is given back.
start_worker-IsTracked :
    (n : Node) (g : MarketGroup) (loads : Bool)
    → Map.lookup g.group_id n.workers ≡ none
    → IsTracked n
    → IsTracked (start_worker (note n (acquired g.group_id)) g loads).0
start_worker-IsTracked n g true h t =
    started-IsTracked (note n (acquired g.group_id)) g (rw (eq_test_self g.group_id) refl)
      (acquired-IsTracked n g.group_id h t)
start_worker-IsTracked n g false h t =
    released-IsTracked (note n (acquired g.group_id)) g.group_id (rw (eq_test_self g.group_id) refl)
      (acquired-IsTracked n g.group_id h t)

try_start_worker-IsTracked :
    (n : Node) (g : MarketGroup) (answer : Acquire) (loads : Bool)
    → Map.lookup g.group_id n.workers ≡ none
    → IsTracked n
    → IsTracked (try_start_worker n g answer loads).0
unfolding try_start_worker
try_start_worker-IsTracked n g granted loads h t = start_worker-IsTracked n g loads h t
try_start_worker-IsTracked n g held_elsewhere loads h t = t
try_start_worker-IsTracked n g acquire_failed loads h t = t

-- A start leaves the other groups absent.
pub try_start_worker-absent :
    (n : Node) (g : MarketGroup) (answer : Acquire) (loads : Bool) (j : String)
    → (j == g.group_id) ≡ false
    → Map.lookup j n.workers ≡ none
    → Map.lookup j (try_start_worker n g answer loads).0.workers ≡ none
unfolding try_start_worker
try_start_worker-absent n g granted true j other h = ground (
  arith,
  Map.lookup-insert j g.group_id g n.workers,
  eq_test_iff j g.group_id,
  eq_test_iff g.group_id j,
)
try_start_worker-absent n g granted false j other h = h
try_start_worker-absent n g held_elsewhere loads j other h = h
try_start_worker-absent n g acquire_failed loads j other h = h

if_keeps :
    (P : Node → Type 0) (b : Bool) (s t : Starts)
    → P s.node
    → P t.node
    → P (if b then s else t).node
if_keeps P true s t p q = p
if_keeps P false s t p q = q

counted-node : (s : Starts) (w : ℤ) (r : Node × Bool) → (counted s w r).node ≡ r.0
counted-node s w (n, true) = refl
counted-node s w (n, false) = refl

-- One candidate is passed over, or tried.
pub start_one_keeps :
    (P : Node → Type 0) (a : NodeAnswers) (s : Starts) (g : MarketGroup)
    → P s.node
    → P (try_start_worker s.node g (a.acquires g.group_id) (a.inputs_load g.group_id)).0
    → P (start_one a s g).node
unfolding start_one
start_one_keeps P a s g p q =
    let w = group_weight g in
    let tried = try_start_worker s.node g (a.acquires g.group_id) (a.inputs_load g.group_id) in
    if_keeps P
      (ltb_ℤ (pos 0) s.node.cfg.max_weight && ltb_ℤ s.node.cfg.max_weight (wrap64 (s.weight +ℤ w)))
      s (counted s w tried) p (subst P (sym (counted-node s w tried)) q)

pub AllAbsent-start_one :
    (a : NodeAnswers) (s : Starts) (g : MarketGroup) (gs : List MarketGroup)
    → contains g.group_id (ids gs) ≡ false
    → AllAbsent s.node.workers gs
    → AllAbsent (start_one a s g).node.workers gs
AllAbsent-start_one a s g [] d h = tt
AllAbsent-start_one a s g (x ∷ gs) d h = (
  start_one_keeps (λ n. Map.lookup x.group_id n.workers ≡ none) a s g h.0
      (try_start_worker-absent s.node g (a.acquires g.group_id) (a.inputs_load g.group_id)
        x.group_id (ground arith) h.0),
  AllAbsent-start_one a s g gs (ground arith) h.1,
)

start_workers-IsTracked :
    (a : NodeAnswers) (slots : ℤ) (s : Starts) (gs : List MarketGroup)
    → IsFresh s.node gs
    → IsTracked s.node
    → IsTracked (start_workers a slots s gs).node
unfolding start_workers
start_workers-IsTracked a slots s [] f t = t
start_workers-IsTracked a slots s (g ∷ gs) f t = elim (Bool-cases (leb_ℤ slots (pos s.count))) [
  | inl full ↦ rw (full, start_workers) t
  | inr room ↦
      rw (room, start_workers)
        (start_workers-IsTracked a slots (start_one a s g) gs
          (record {
            absent = AllAbsent-start_one a s g gs f.distinct.0 f.absent.1;
            distinct = f.distinct.1;
          })
          (start_one_keeps IsTracked a s g t (
            try_start_worker-IsTracked s.node g (a.acquires g.group_id) (a.inputs_load g.group_id)
              f.absent.0 t)))
]

apply_plan-IsTracked :
    (n : Node) (a : NodeAnswers) (groups : List MarketGroup)
    → IsTracked n
    → IsTracked (apply_plan n a groups)
unfolding apply_plan running_group_ids
apply_plan-IsTracked n a groups t =
    let desired = map (λ (g : MarketGroup). g.group_id) groups in
    let plan = plan_reconcile desired (Map.keys n.workers) n.cfg.max_groups in
    let kept = stop_workers n plan.to_stop a.stops in
    start_workers-IsTracked a plan.start_slots
      (record { node = kept; count = 0; weight = current_weight kept })
      (groups_by_id plan.to_start groups)
      (candidates-IsFresh n groups desired n.cfg.max_groups a.stops)
      (stop_workers-IsTracked n plan.to_stop a.stops t)

reconcile_once-IsTracked :
    (n : Node) (a : NodeAnswers) → IsTracked n → IsTracked (reconcile_once n a)
unfolding reconcile_once
reconcile_once-IsTracked n a t =
    let pruned = prune_dead_workers-IsTracked n a.state_of t in
    elim (Option-cases a.runnable) [
      | inl missing ↦ rw (missing, reconcile_once) pruned
      | inr (groups, found) ↦
          rw (found, reconcile_once)
            (apply_plan-IsTracked (prune_dead_workers n a.state_of) a groups pruned)
    ]

rounds-IsTracked :
    (n : Node) (answers : List NodeAnswers) → IsTracked n → IsTracked (rounds n answers)
unfolding rounds
rounds-IsTracked n [] t = t
rounds-IsTracked n (a ∷ answers) t =
    rounds-IsTracked (reconcile_once n a) answers (reconcile_once-IsTracked n a t)

-- Over all rounds of a new node and its shutdown, whatever the store, the workers and the clock
-- answer, the calls about each group keep to one protocol: the node takes the lease of a group only
-- while it runs no worker of it; it starts a worker only under a lease that it took, that has not
-- been released or given up since, and under which no worker runs; it notes the end or the giving up
-- only of a worker that it started; and it releases a lease only before a worker is started under it
-- or after the worker under it has ended. A lease under which a worker was given up, since it did not stop in time, is never
-- released unless the node takes it again; that worker may then still be draining.
pub shutdown-IsOrderly :
    (cfg : NodeConfig) (answers : List NodeAnswers) (stops : String → Bool)
    → IsOrderly (shutdown (rounds (new_node cfg) answers) stops).log
unfolding shutdown new_node Map.lookup
shutdown-IsOrderly cfg answers stops =
    let n = rounds (new_node cfg) answers in
    (stop_workers-IsTracked n (running_group_ids n) stops (
      rounds-IsTracked (new_node cfg) answers
        (record { orderly = tt; distinct = tt; same = λ g. refl }))).orderly
