-- ===== src/Node/Rounds/Stop.antt =====
-- Pruning and stopping workers keep the trace in order.
use market_data_backend.Prelude.{
  String, Bool, true, false, List, [], ◌∷◌, is_some, String_eq, ◌≡◌, refl, ap, ◌∙◌, eq_test_iff,
  eq_test_self, Option-cases, inl, inr, arith, All, contains,
}
use market_data_backend.Prelude.Map
use market_data_backend.Model.{MarketGroup}
use market_data_backend.Reconcile.Laws.{Distinct}
use market_data_backend.Worker.State.{WorkerState}
use market_data_backend.Node.Rounds.{
  ended, released, Node, note, dead_ids, drop_workers, release_leases, running_group_ids,
  prune_dead_workers, stopped_worker, stop_worker, stop_workers,
}
use market_data_backend.Node.Rounds.Size.{keys-Distinct}
use market_data_backend.Node.Rounds.Start.{All_of_contains}
use market_data_backend.Node.Rounds.Leases.{
  leased, standing, IsTracked, Runs, drop_worker-IsTracked, give_up-IsTracked, released-IsTracked,
}

abbrev AllRun : Node → List String → Type 0
AllRun n gids = All (Runs n) gids

AllRun-delete :
    (n : Node) (h : String) (gids : List String)
    → contains h gids ≡ false
    → AllRun n gids
    → AllRun (note (record n { workers = Map.delete h n.workers }) (ended h)) gids
AllRun-delete n h [] c r = tt
AllRun-delete n h (g ∷ gids) c r = (
  rw (Map.lookup-delete g h n.workers) (ground (arith, r.0, eq_test_iff h g, eq_test_iff g h)),
  AllRun-delete n h gids (ground arith) r.1,
)

standing-drop_workers :
    (n : Node) (gids : List String) (g : String)
    → contains g gids ≡ false
    → standing g (drop_workers n gids).log ≡ standing g n.log
unfolding drop_workers
standing-drop_workers n [] g c = refl
standing-drop_workers n (h ∷ gids) g c =
    standing-drop_workers (note (record n { workers = Map.delete h n.workers }) (ended h)) gids g
      (ground arith)
    ∙ ground arith

abbrev AllLeased : Node → List String → Type 0
AllLeased n gids = All (λ g. standing g n.log ≡ leased) gids

drop_workers-IsTracked :
    (n : Node) (gids : List String)
    → Distinct gids
    → AllRun n gids
    → IsTracked n
    → IsTracked (drop_workers n gids) × AllLeased (drop_workers n gids) gids
unfolding drop_workers
drop_workers-IsTracked n [] d r t = (t, tt)
drop_workers-IsTracked n (g ∷ gids) d r t =
    let m = note (record n { workers = Map.delete g n.workers }) (ended g) in
    let rest =
      drop_workers-IsTracked m gids d.1 (AllRun-delete n g gids d.0 r.1)
        (drop_worker-IsTracked n g r.0 t) in
    (rest.0, (standing-drop_workers m gids g d.0 ∙ rw (eq_test_self g) refl, rest.1))

AllLeased-released :
    (n : Node) (h : String) (gids : List String)
    → contains h gids ≡ false
    → AllLeased n gids
    → AllLeased (note n (released h)) gids
AllLeased-released n h [] c a = tt
AllLeased-released n h (g ∷ gids) c a = (
  ground (arith, a.0, eq_test_iff h g, eq_test_iff g h),
  AllLeased-released n h gids (ground arith) a.1,
)

release_leases-IsTracked :
    (n : Node) (gids : List String)
    → Distinct gids
    → AllLeased n gids
    → IsTracked n
    → IsTracked (release_leases n gids)
unfolding release_leases
release_leases-IsTracked n [] d a t = t
release_leases-IsTracked n (g ∷ gids) d a t =
    release_leases-IsTracked (note n (released g)) gids d.1 (AllLeased-released n g gids d.0 a.1)
      (released-IsTracked n g a.0 t)

-- The dead are among the running, each once.
contains-dead_ids :
    (state_of : String → WorkerState) (g : String) (gids : List String)
    → contains g (dead_ids state_of gids) ≡ true
    → contains g gids ≡ true
unfolding dead_ids
contains-dead_ids state_of g [] c = c
contains-dead_ids state_of g (h ∷ gids) c = ground (arith, contains-dead_ids state_of g gids)

dead_ids-Distinct :
    (state_of : String → WorkerState) (gids : List String)
    → Distinct gids
    → Distinct (dead_ids state_of gids)
unfolding dead_ids
dead_ids-Distinct state_of [] d = tt
dead_ids-Distinct state_of (g ∷ gids) d =
    ground (arith, dead_ids-Distinct state_of gids, contains-dead_ids state_of g gids)

keys-Runs :
    (g : String) (m : List (String × MarketGroup))
    → contains g (Map.keys m) ≡ true
    → is_some (Map.lookup g m) ≡ true
unfolding Map.lookup
keys-Runs g [] c = absurd (cc c)
keys-Runs g ((j, x) ∷ m) c = ground (arith, keys-Runs g m)

pub prune_dead_workers-IsTracked :
    (n : Node) (state_of : String → WorkerState)
    → IsTracked n
    → IsTracked (prune_dead_workers n state_of)
unfolding prune_dead_workers running_group_ids
prune_dead_workers-IsTracked n state_of t =
    let dead = dead_ids state_of (Map.keys n.workers) in
    let once =
      dead_ids-Distinct state_of (Map.keys n.workers) (keys-Distinct n.workers t.distinct) in
    let run =
      All_of_contains (Runs n) dead
        (λ g c. keys-Runs g n.workers (contains-dead_ids state_of g (Map.keys n.workers) c)) in
    let dropped = drop_workers-IsTracked n dead once run t in
    release_leases-IsTracked (drop_workers n dead) dead once dropped.1 dropped.0

stopped_worker-IsTracked :
    (n : Node) (gid : String) (in_time : Bool)
    → Runs n gid
    → IsTracked n
    → IsTracked (stopped_worker (record n { workers = Map.delete gid n.workers }) gid in_time)
stopped_worker-IsTracked n gid true r t =
    released-IsTracked (note (record n { workers = Map.delete gid n.workers }) (ended gid)) gid
      (rw (eq_test_self gid) refl) (drop_worker-IsTracked n gid r t)
stopped_worker-IsTracked n gid false r t = give_up-IsTracked n gid r t

stop_worker-IsTracked :
    (n : Node) (gid : String) (in_time : Bool) → IsTracked n → IsTracked (stop_worker n gid in_time)
unfolding stop_worker
stop_worker-IsTracked n gid in_time t = elim (Option-cases (Map.lookup gid n.workers)) [
  | inl missing ↦ rw (missing, stop_worker) t
  | inr (g, found) ↦
      rw (found, stop_worker) (stopped_worker-IsTracked n gid in_time (ap is_some found) t)
]

pub stop_workers-IsTracked :
    (n : Node) (gids : List String) (stops : String → Bool)
    → IsTracked n
    → IsTracked (stop_workers n gids stops)
unfolding stop_workers
stop_workers-IsTracked n [] stops t = t
stop_workers-IsTracked n (g ∷ gids) stops t =
    stop_workers-IsTracked (stop_worker n g (stops g)) gids stops
      (stop_worker-IsTracked n g (stops g) t)
