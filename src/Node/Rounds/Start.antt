-- ===== src/Node/Rounds/Start.antt =====
-- The candidates of a round: their groups are new to the node, and none stands twice.
use market_data_backend.Prelude.{
  String, Bool, true, false, List, [], ◌∷◌, none, some, ◌==◌, String_eq, ◌≡◌, refl, sym, subst,
  eq_test_iff, eq_test_self, Bool-cases, Option-cases, inl, inr, arith, All, contains,
}
use market_data_backend.Prelude.Map
use market_data_backend.Prelude.Int.{ℤ}
use market_data_backend.Model.{MarketGroup}
use market_data_backend.Reconcile.{plan_reconcile}
use market_data_backend.Reconcile.Laws.{Distinct, to_start-Distinct, plan_reconcile-contains}
use market_data_backend.Node.Rounds.{Node, stop_worker, stop_workers, group_by_id, groups_by_id}

abbrev pub ids : List MarketGroup → List String
ids [] = []
ids (g ∷ gs) = g.group_id ∷ ids gs

-- No worker of the node runs one of the groups.
abbrev pub AllAbsent : List (String × MarketGroup) → List MarketGroup → Type 0
AllAbsent workers gs = All (λ g. Map.lookup g.group_id workers ≡ none) gs

found_id :
    (gid : String) (gs : List MarketGroup) (g : MarketGroup)
    → group_by_id gid gs ≡ some g
    → g.group_id ≡ gid
unfolding group_by_id
found_id gid [] g h = absurd (cc h)
found_id gid (x ∷ gs) g h = elim (Option-cases (group_by_id gid gs)) [
  | inl missing ↦ elim (Bool-cases (x.group_id == gid)) [
    | inl same ↦ ground (arith, (eq_test_iff x.group_id gid).0 same)
    | inr other ↦ ground arith
  ]
  | inr (y, found) ↦ ground (arith, found_id gid gs y found)
]

contains-lookup :
    (k : String) (workers : List (String × MarketGroup))
    → contains k (Map.keys workers) ≡ false
    → Map.lookup k workers ≡ none
unfolding Map.lookup
contains-lookup k [] h = refl
contains-lookup k ((j, g) ∷ workers) h = ground (arith, contains-lookup k workers)

ids-groups_by_id :
    (a : String) (gids : List String) (gs : List MarketGroup)
    → contains a gids ≡ false
    → contains a (ids (groups_by_id gids gs)) ≡ false
unfolding groups_by_id
ids-groups_by_id a [] gs h = refl
ids-groups_by_id a (gid ∷ gids) gs h = elim (Option-cases (group_by_id gid gs)) [
  | inl missing ↦ rw (missing, groups_by_id) (ids-groups_by_id a gids gs (ground arith))
  | inr (g, found) ↦
      rw (found, groups_by_id) (ground (arith, found_id gid gs g found, ids-groups_by_id a gids gs))
]

groups_by_id-Distinct :
    (gids : List String) (gs : List MarketGroup)
    → Distinct gids
    → Distinct (ids (groups_by_id gids gs))
unfolding groups_by_id
groups_by_id-Distinct [] gs d = tt
groups_by_id-Distinct (gid ∷ gids) gs d = elim (Option-cases (group_by_id gid gs)) [
  | inl missing ↦ rw (missing, groups_by_id) (groups_by_id-Distinct gids gs d.1)
  | inr (g, found) ↦
      rw (found, groups_by_id)
        (
          subst (λ x. contains x (ids (groups_by_id gids gs)) ≡ false)
              (sym (found_id gid gs g found)) (ids-groups_by_id gid gids gs d.0),
          groups_by_id-Distinct gids gs d.1,
        )
]

-- Groups that are found by ids which no worker has are absent.
groups_by_id-AllAbsent :
    (workers : List (String × MarketGroup)) (gids : List String) (gs : List MarketGroup)
    → All (λ gid. Map.lookup gid workers ≡ none) gids
    → AllAbsent workers (groups_by_id gids gs)
unfolding groups_by_id
groups_by_id-AllAbsent workers [] gs a = tt
groups_by_id-AllAbsent workers (gid ∷ gids) gs a = elim (Option-cases (group_by_id gid gs)) [
  | inl missing ↦ rw (missing, groups_by_id) (groups_by_id-AllAbsent workers gids gs a.1)
  | inr (g, found) ↦
      rw (found, groups_by_id)
        (
          subst (λ x. Map.lookup x workers ≡ none) (sym (found_id gid gs g found)) a.0,
          groups_by_id-AllAbsent workers gids gs a.1,
        )
]

stop_worker-absent :
    (n : Node) (gid g : String) (in_time : Bool)
    → Map.lookup g n.workers ≡ none
    → Map.lookup g (stop_worker n gid in_time).workers ≡ none
unfolding stop_worker
stop_worker-absent n gid g true h = ground (arith, Map.lookup-delete g gid n.workers)
stop_worker-absent n gid g false h = ground (arith, Map.lookup-delete g gid n.workers)

stop_workers-absent :
    (n : Node) (gids : List String) (stops : String → Bool) (g : String)
    → Map.lookup g n.workers ≡ none
    → Map.lookup g (stop_workers n gids stops).workers ≡ none
unfolding stop_workers
stop_workers-absent n [] stops g h = h
stop_workers-absent n (gid ∷ gids) stops g h =
    stop_workers-absent (stop_worker n gid (stops gid)) gids stops g
      (stop_worker-absent n gid g (stops gid) h)

pub All_of_contains :
    (P : String → Type 0) (xs : List String)
    → ((x : String) → contains x xs ≡ true → P x)
    → All P xs
All_of_contains P [] h = tt
All_of_contains P (x ∷ xs) h =
    (h x (rw (eq_test_self x) refl), All_of_contains P xs (λ y c. h y (ground arith)))

-- What the plan of a round offers to start, once the workers to stop are gone.
pub record IsFresh (n : Node) (gs : List MarketGroup) : Type 0 where
  pub absent : AllAbsent n.workers gs
  pub distinct : Distinct (ids gs)

pub candidates-IsFresh :
    (n : Node) (groups : List MarketGroup) (desired : List String) (max_groups : ℤ)
    (stops : String → Bool)
    → let plan = plan_reconcile desired (Map.keys n.workers) max_groups in
      IsFresh (stop_workers n plan.to_stop stops) (groups_by_id plan.to_start groups)
candidates-IsFresh n groups desired max_groups stops =
    let plan = plan_reconcile desired (Map.keys n.workers) max_groups in
    let kept = stop_workers n plan.to_stop stops in
    record {
      absent = groups_by_id-AllAbsent kept.workers plan.to_start groups (
          All_of_contains (λ gid. Map.lookup gid kept.workers ≡ none) plan.to_start
            (λ gid c. stop_workers-absent n plan.to_stop stops gid (
              contains-lookup gid n.workers (
                ground (
                  arith,
                  (plan_reconcile-contains desired (Map.keys n.workers) max_groups gid).1,
                )))));
      distinct =
          groups_by_id-Distinct plan.to_start groups
            (to_start-Distinct desired (Map.keys n.workers) max_groups);
    }
