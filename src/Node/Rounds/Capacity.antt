-- ===== src/Node/Rounds/Capacity.antt =====
-- A node stays within its bounds on groups and weight.
use market_data_backend.Prelude.{
  ℕ, ◌+◌, ◌≤◌, ◌<◌, ◌-◌, String, true, List, [], ◌∷◌, map, some, String_eq, ◌≡◌, refl, sym, ap,
  subst, ◌∙◌, Option-cases, inl, inr, arith, All, contains, length,
}
use market_data_backend.Prelude.Map
use market_data_backend.Prelude.Int.{ℤ, pos, pos_part, ◌+ℤ◌, ◌-ℤ◌, ◌≤ℤ◌}
use market_data_backend.Model.{MarketGroup}
use market_data_backend.Reconcile.{plan_reconcile}
use market_data_backend.Reconcile.Laws.{
  Distinct, to_stop-Distinct, length-to_stop-le, plan_reconcile-contains, plan_reconcile-capacity,
}
use market_data_backend.Node.{NodeConfig}
use market_data_backend.Node.Rounds.{
  Node, NodeAnswers, new_node, running_group_ids, current_weight, prune_dead_workers, stop_workers,
  groups_by_id, Starts, add_weights, start_workers, apply_plan, reconcile_once, rounds,
}
use market_data_backend.Node.Rounds.Size.{keys-Distinct, length-keys, add_weights-total}
use market_data_backend.Node.Rounds.Start.{All_of_contains, candidates-IsFresh}
use market_data_backend.Node.Rounds.Within.{
  IsWithin, AllRun, grow-IsWithin, prune_dead_workers-IsWithin, stop_workers-IsWithin,
}
use market_data_backend.Node.Rounds.Candidates.{
  HasBounds, IsLight, start_workers-IsWithin, groups_by_id-IsLight,
}

-- What the plan of a round stops and starts, in numbers: `c` workers stay and `k` are added.
record HasRoom (desired running : List String) (max_groups : ℤ) (M c k : ℕ) : Type 0 where
  stays : length running ≡ c + length (plan_reconcile desired running max_groups).to_stop
  added : (plan_reconcile desired running max_groups).start_slots ≡ pos k
  room : c + k ≤ M

slots_lem :
    (run stop M : ℕ) (slots : ℤ)
    → stop ≤ run
    → pos run -ℤ pos stop +ℤ slots ≤ℤ pos M
    → pos 0 ≤ℤ slots
    → (slots ≡ pos (pos_part slots)) × (run - stop + pos_part slots ≤ M)
slots_lem run stop M slots h k p = ground arith

plan_reconcile-HasRoom :
    (desired running : List String) (M : ℕ)
    → 0 < M
    → Distinct running
    → length running ≤ M
    → let plan = plan_reconcile desired running (pos M) in
      HasRoom desired running
        (pos M)
        M
        (length running - length plan.to_stop)
        (pos_part plan.start_slots)
plan_reconcile-HasRoom desired running M p d l =
    let plan = plan_reconcile desired running (pos M) in
    let law = plan_reconcile-capacity desired running M p d l in
    let stop = length-to_stop-le desired running (pos M) in
    let slots =
      slots_lem (length running) (length plan.to_stop) M plan.start_slots stop law.0 law.1 in
    record { stays = omega (arith, stop); added = slots.0; room = slots.1 }

to_stop-AllRun :
    (desired : List String) (n : Node) (max_groups : ℤ)
    → AllRun (plan_reconcile desired (Map.keys n.workers) max_groups).to_stop n.workers
to_stop-AllRun desired n max_groups =
    All_of_contains (λ g. contains g (Map.keys n.workers) ≡ true)
      (plan_reconcile desired (Map.keys n.workers) max_groups).to_stop
      (λ g c. ground (arith, (plan_reconcile-contains desired (Map.keys n.workers) max_groups g).0))

apply_plan_lem :
    (cfg : NodeConfig) (M W c k : ℕ) (n : Node) (a : NodeAnswers) (groups : List MarketGroup)
    → HasBounds cfg M W
    → All IsLight groups
    → HasRoom
        (map (λ (g : MarketGroup). g.group_id) groups)
        (Map.keys n.workers)
        n.cfg.max_groups
        M
        c
        k
    → IsWithin cfg M W n
    → IsWithin cfg M W (apply_plan n a groups)
unfolding apply_plan running_group_ids current_weight
apply_plan_lem cfg M W c k n a groups b light h v =
    let desired = map (λ (g : MarketGroup). g.group_id) groups in
    let plan = plan_reconcile desired (Map.keys n.workers) n.cfg.max_groups in
    let kept = stop_workers n plan.to_stop a.stops in
    let s : Starts = record { node = kept; count = 0; weight = add_weights (pos 0) kept.workers } in
    let stopped =
      stop_workers-IsWithin cfg c W n plan.to_stop a.stops
        (to_stop-Distinct desired (Map.keys n.workers) n.cfg.max_groups
          (keys-Distinct n.workers v.distinct))
        (to_stop-AllRun desired n n.cfg.max_groups)
        (record {
          same_cfg = v.same_cfg;
          distinct = v.distinct;
          few = omega (arith, h.stays, length-keys n.workers);
          light = v.light;
        }) in
    grow-IsWithin cfg (c + k) M W
      (start_workers a plan.start_slots s (groups_by_id plan.to_start groups)).node h.room
      (subst
        (λ slots.
          IsWithin cfg (c + k) W (start_workers a slots s (groups_by_id plan.to_start groups)).node)
        (sym h.added)
        (start_workers-IsWithin cfg c k M W a s (groups_by_id plan.to_start groups) b
          (candidates-IsFresh n groups desired n.cfg.max_groups a.stops)
          (groups_by_id-IsLight plan.to_start groups light)
          (record {
            within = grow-IsWithin cfg c (c + 0) W kept (omega arith) stopped;
            exact =
                add_weights-total 0 kept.workers (omega (arith, stopped.light, b.small))
                ∙ ap pos (omega arith);
            counts = omega arith;
          })))

apply_plan-IsWithin :
    (cfg : NodeConfig) (M W : ℕ) (n : Node) (a : NodeAnswers) (groups : List MarketGroup)
    → HasBounds cfg M W
    → All IsLight groups
    → IsWithin cfg M W n
    → IsWithin cfg M W (apply_plan n a groups)
apply_plan-IsWithin cfg M W n a groups b light v =
    let desired = map (λ (g : MarketGroup). g.group_id) groups in
    let running = Map.keys n.workers in
    let plan = plan_reconcile desired running (pos M) in
    let c = length running - length plan.to_stop in
    let k = pos_part plan.start_slots in
    apply_plan_lem cfg M W c k n a groups b light
      (subst (λ m. HasRoom desired running m M c k)
        (sym (ap (λ (f : NodeConfig). f.max_groups) v.same_cfg ∙ b.groups))
        (plan_reconcile-HasRoom desired running M b.some_groups (keys-Distinct n.workers v.distinct)
          (omega (arith, v.few, length-keys n.workers))))
      v

-- No runnable group of a round is too heavy.
abbrev pub HasLightGroups : NodeAnswers → Type 0
HasLightGroups a = (gs : List MarketGroup) → a.runnable ≡ some gs → All IsLight gs

-- One round, whatever the store, the workers and the clock answer, keeps the node within its
-- settings: distinct groups, at most `max_groups` of them, and together at most `max_weight` heavy,
-- where the bounds are positive and neither `max_weight` nor a group's weight reaches 2^62.
pub reconcile_once-IsWithin :
    (cfg : NodeConfig) (M W : ℕ) (n : Node) (a : NodeAnswers)
    → HasBounds cfg M W
    → HasLightGroups a
    → IsWithin cfg M W n
    → IsWithin cfg M W (reconcile_once n a)
unfolding reconcile_once
reconcile_once-IsWithin cfg M W n a b light v =
    let pruned = prune_dead_workers-IsWithin cfg M W n a.state_of v in
    elim (Option-cases a.runnable) [
      | inl missing ↦ rw (missing, reconcile_once) pruned
      | inr (groups, found) ↦
          rw (found, reconcile_once)
            (apply_plan-IsWithin cfg M W (prune_dead_workers n a.state_of) a groups b
              (light groups found) pruned)
    ]

-- A new node stays within its settings over all its rounds, whatever the store, the workers and the
-- clock answer: it runs distinct groups, at most `max_groups` of them, and they weigh at most
-- `max_weight` together, where the bounds are positive and neither `max_weight` nor the weight of a
-- runnable group reaches 2^62.
pub rounds-IsWithin :
    (cfg : NodeConfig) (M W : ℕ) (answers : List NodeAnswers)
    → HasBounds cfg M W
    → All HasLightGroups answers
    → IsWithin cfg M W (rounds (new_node cfg) answers)
unfolding new_node rounds
rounds-IsWithin cfg M W answers b light =
    go (new_node cfg) answers light
      (record { same_cfg = refl; distinct = tt; few = omega arith; light = omega arith })
  where
    go :
        (n : Node) (more : List NodeAnswers)
        → All HasLightGroups more
        → IsWithin cfg M W n
        → IsWithin cfg M W (rounds n more)
    go n [] l v = v
    go n (a ∷ more) l v =
        go (reconcile_once n a) more l.1 (reconcile_once-IsWithin cfg M W n a b l.0 v)
