-- ===== src/Node/Rounds/Within.antt =====
-- A node whose workers are few and light, kept by all that stops workers.
use market_data_backend.Prelude.{
  ℕ, ◌+◌, ◌≤◌, String, Bool, true, false, List, [], ◌∷◌, String_eq, ◌≡◌, refl, sym, subst, ◌∙◌,
  eq_test_iff, Option-cases, inl, inr, arith, All, contains, length,
}
use market_data_backend.Prelude.Map
use market_data_backend.Model.{MarketGroup}
use market_data_backend.Reconcile.Laws.{Distinct}
use market_data_backend.Worker.State.{WorkerState}
use market_data_backend.Node.{NodeConfig}
use market_data_backend.Node.Rounds.{
  Node, note, ended, released, dead_ids, drop_workers, release_leases, running_group_ids,
  prune_dead_workers, stopped_worker, stop_worker, stop_workers,
}
use market_data_backend.Node.Rounds.Size.{
  total, length-delete-le, total-delete-le, length-delete, lookup-contains, contains-keys-delete,
}

-- The settings stay; the workers are distinct, at most `count` of them, and at most `weight` heavy.
pub record IsWithin (cfg : NodeConfig) (count weight : ℕ) (n : Node) : Type 0 where
  pub same_cfg : n.cfg ≡ cfg
  pub distinct : Map.Distinct n.workers
  pub few : length n.workers ≤ count
  pub light : total n.workers ≤ weight

pub grow-IsWithin :
    (cfg : NodeConfig) (c d w : ℕ) (n : Node) → c ≤ d → IsWithin cfg c w n → IsWithin cfg d w n
grow-IsWithin cfg c d w n le v = record {
  same_cfg = v.same_cfg;
  distinct = v.distinct;
  few = omega (arith, v.few);
  light = v.light;
}

delete-IsWithin :
    (cfg : NodeConfig) (c w : ℕ) (n : Node) (gid : String)
    → IsWithin cfg c w n
    → IsWithin cfg c w (record n { workers = Map.delete gid n.workers })
delete-IsWithin cfg c w n gid v = record {
  same_cfg = v.same_cfg;
  distinct = Map.delete-Distinct gid n.workers v.distinct;
  few = omega (arith, v.few, length-delete-le gid n.workers);
  light = omega (arith, v.light, total-delete-le gid n.workers);
}

pub note-IsWithin :
    (cfg : NodeConfig) (c w : ℕ) (n : Node) (effect : _)
    → IsWithin cfg c w n
    → IsWithin cfg c w (note n effect)
note-IsWithin cfg c w n effect v = record {
  same_cfg = v.same_cfg;
  distinct = v.distinct;
  few = v.few;
  light = v.light;
}

drop_workers-IsWithin :
    (cfg : NodeConfig) (c w : ℕ) (n : Node) (gids : List String)
    → IsWithin cfg c w n
    → IsWithin cfg c w (drop_workers n gids)
unfolding drop_workers
drop_workers-IsWithin cfg c w n [] v = v
drop_workers-IsWithin cfg c w n (g ∷ gids) v =
    let m = record n { workers = Map.delete g n.workers } in
    drop_workers-IsWithin cfg c w (note m (ended g)) gids
      (note-IsWithin cfg c w m (ended g) (delete-IsWithin cfg c w n g v))

release_leases-IsWithin :
    (cfg : NodeConfig) (c w : ℕ) (n : Node) (gids : List String)
    → IsWithin cfg c w n
    → IsWithin cfg c w (release_leases n gids)
unfolding release_leases
release_leases-IsWithin cfg c w n [] v = v
release_leases-IsWithin cfg c w n (g ∷ gids) v =
    release_leases-IsWithin cfg c w (note n (released g)) gids
      (note-IsWithin cfg c w n (released g) v)

pub prune_dead_workers-IsWithin :
    (cfg : NodeConfig) (c w : ℕ) (n : Node) (state_of : String → WorkerState)
    → IsWithin cfg c w n
    → IsWithin cfg c w (prune_dead_workers n state_of)
unfolding prune_dead_workers
prune_dead_workers-IsWithin cfg c w n state_of v =
    let dead = dead_ids state_of (running_group_ids n) in
    release_leases-IsWithin cfg c w (drop_workers n dead) dead
      (drop_workers-IsWithin cfg c w n dead v)

abbrev pub AllRun : List String → List (String × MarketGroup) → Type 0
AllRun gids m = All (λ g. contains g (Map.keys m) ≡ true) gids

AllRun-delete :
    (g : String) (gids : List String) (m : List (String × MarketGroup))
    → contains g gids ≡ false
    → AllRun gids m
    → AllRun gids (Map.delete g m)
AllRun-delete g [] m d r = tt
AllRun-delete g (h ∷ gids) m d r = (
  contains-keys-delete h g m (ground (arith, eq_test_iff h g, eq_test_iff g h)) r.0,
  AllRun-delete g gids m (ground arith) r.1,
)

stopped_worker-workers :
    (n : Node) (gid : String) (in_time : Bool)
    → ((stopped_worker n gid in_time).workers ≡ n.workers)
      × ((stopped_worker n gid in_time).cfg ≡ n.cfg)
stopped_worker-workers n gid true = (refl, refl)
stopped_worker-workers n gid false = (refl, refl)

-- What a stop does to the workers and the settings.
stop_worker-workers :
    (n : Node) (gid : String) (in_time : Bool)
    → contains gid (Map.keys n.workers) ≡ true
    → ((stop_worker n gid in_time).workers ≡ Map.delete gid n.workers)
      × ((stop_worker n gid in_time).cfg ≡ n.cfg)
unfolding stop_worker
stop_worker-workers n gid in_time c = elim (Option-cases (Map.lookup gid n.workers)) [
  | inl missing ↦ absurd (cc (lookup-contains gid n.workers missing, c))
  | inr (g, found) ↦
      rw (found, stop_worker)
        (stopped_worker-workers (record n { workers = Map.delete gid n.workers }) gid in_time)
]

stop_worker-IsWithin :
    (cfg : NodeConfig) (c w : ℕ) (n : Node) (gid : String) (in_time : Bool)
    → contains gid (Map.keys n.workers) ≡ true
    → IsWithin cfg (c + 1) w n
    → IsWithin cfg c w (stop_worker n gid in_time)
stop_worker-IsWithin cfg c w n gid in_time r v =
    let after = stop_worker-workers n gid in_time r in
    record {
      same_cfg = after.1 ∙ v.same_cfg;
      distinct = subst Map.Distinct (sym after.0) (Map.delete-Distinct gid n.workers v.distinct);
      few =
          subst (λ m. length m ≤ c) (sym after.0)
            (omega (arith, v.few, length-delete gid n.workers v.distinct r));
      light =
          subst (λ m. total m ≤ w) (sym after.0)
            (omega (arith, v.light, total-delete-le gid n.workers));
    }

-- Each worker that is stopped makes room for one.
pub stop_workers-IsWithin :
    (cfg : NodeConfig) (c w : ℕ) (n : Node) (gids : List String) (stops : String → Bool)
    → Distinct gids
    → AllRun gids n.workers
    → IsWithin cfg (c + length gids) w n
    → IsWithin cfg c w (stop_workers n gids stops)
unfolding stop_workers
stop_workers-IsWithin cfg c w n [] stops d r v = record {
  same_cfg = v.same_cfg;
  distinct = v.distinct;
  few = omega (arith, v.few);
  light = v.light;
}
stop_workers-IsWithin cfg c w n (g ∷ gids) stops d r v =
    stop_workers-IsWithin cfg c w (stop_worker n g (stops g)) gids stops d.1
      (subst (AllRun gids) (sym (stop_worker-workers n g (stops g) r.0).0)
        (AllRun-delete g gids n.workers d.0 r.1))
      (stop_worker-IsWithin cfg (c + length gids) w n g (stops g) r.0 (record {
        same_cfg = v.same_cfg;
        distinct = v.distinct;
        few = omega (arith, v.few);
        light = v.light;
      }))
