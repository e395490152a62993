-- ===== src/Node/Rounds/Leases.antt =====
-- When a node takes and releases a lease and when it starts a worker, over all rounds and the
-- shutdown.
use market_data_backend.Prelude.{
  String, Bool, true, false, List, [], ◌∷◌, none, is_some, ◌==◌, String_eq, if◌then◌else◌, ◌≡◌,
  refl, sym, ap, ◌∙◌, subst, eq_test_iff, Bool-cases, inl, inr, arith,
}
use market_data_backend.Prelude.Map
use market_data_backend.Model.{MarketGroup}
use market_data_backend.Node.Rounds.{
  NodeEffect, acquired, started, ended, abandoned, released, Node, note,
}

-- How a node stands with a group: it has no lease, a lease and no worker, a lease and a worker, or it
-- has given a worker up and left the lease to run out.
pub data Standing : Type 0 where
  free : Standing
  leased : Standing
  working : Standing
  given_up : Standing

-- The last effect on the group decides.
abbrev pub standing : String → List NodeEffect → Standing
standing g [] = free
standing g (acquired h ∷ log) = if h == g then leased else standing g log
standing g (started h ∷ log) = if h == g then working else standing g log
standing g (ended h ∷ log) = if h == g then leased else standing g log
standing g (abandoned h ∷ log) = if h == g then given_up else standing g log
standing g (released h ∷ log) = if h == g then free else standing g log

abbrev pub is_working : Standing → Bool
is_working working = true
is_working _ = false

-- A lease is taken for a group without a worker; a worker is started under a lease without one; only
-- a worker ends or is given up; and a lease is released when it has no worker, never when the last
-- worker under it was given up.
abbrev pub Allowed : NodeEffect → List NodeEffect → Type 0
Allowed (acquired g) log = is_working (standing g log) ≡ false
Allowed (started g) log = standing g log ≡ leased
Allowed (ended g) log = standing g log ≡ working
Allowed (abandoned g) log = standing g log ≡ working
Allowed (released g) log = standing g log ≡ leased

abbrev pub IsOrderly : List NodeEffect → Type 0
IsOrderly [] = Unit
IsOrderly (effect ∷ log) = Allowed effect log × IsOrderly log

-- The trace is in order, and the map holds the groups with a worker.
pub record IsTracked (n : Node) : Type 0 where
  pub orderly : IsOrderly n.log
  pub distinct : Map.Distinct n.workers
  pub same : (g : String) → is_working (standing g n.log) ≡ is_some (Map.lookup g n.workers)

pub is_working_lem : (s : Standing) → is_working s ≡ true → s ≡ working
is_working_lem s h = ground arith

abbrev pub Runs : Node → String → Type 0
Runs n g = is_some (Map.lookup g n.workers) ≡ true

-- One worker leaves the map, and its group has another standing than `working`.
same-delete :
    (n : Node) (gid g : String) (s : Standing)
    → is_working s ≡ false
    → is_working (standing g n.log) ≡ is_some (Map.lookup g n.workers)
    → is_working (if gid == g then s else standing g n.log)
      ≡ is_some (Map.lookup g (Map.delete gid n.workers))
same-delete n gid g s i h = elim (Bool-cases (gid == g)) [
  | inl here ↦ rw (here, Map.lookup-delete g gid n.workers, here) i
  | inr other ↦ rw (other, Map.lookup-delete g gid n.workers, other) h
]

pub drop_worker-IsTracked :
    (n : Node) (gid : String)
    → Runs n gid
    → IsTracked n
    → IsTracked (note (record n { workers = Map.delete gid n.workers }) (ended gid))
drop_worker-IsTracked n gid r t = record {
  orderly = (is_working_lem (standing gid n.log) (t.same gid ∙ r), t.orderly);
  distinct = Map.delete-Distinct gid n.workers t.distinct;
  same = λ g. same-delete n gid g leased refl (t.same g);
}

pub give_up-IsTracked :
    (n : Node) (gid : String)
    → Runs n gid
    → IsTracked n
    → IsTracked (note (record n { workers = Map.delete gid n.workers }) (abandoned gid))
give_up-IsTracked n gid r t = record {
  orderly = (is_working_lem (standing gid n.log) (t.same gid ∙ r), t.orderly);
  distinct = Map.delete-Distinct gid n.workers t.distinct;
  same = λ g. same-delete n gid g given_up refl (t.same g);
}

-- A group without a worker gets another standing than `working`.
same_idle :
    (n : Node) (gid g : String) (s : Standing)
    → is_working s ≡ false
    → is_working (standing gid n.log) ≡ false
    → is_working (standing g n.log) ≡ is_some (Map.lookup g n.workers)
    → is_working (if gid == g then s else standing g n.log) ≡ is_some (Map.lookup g n.workers)
same_idle n gid g s i k h = elim (Bool-cases (gid == g)) [
  | inl here ↦
      rw (here, i)
        (sym (subst (λ x. is_working (standing x n.log) ≡ false) ((eq_test_iff gid g).0 here) k)
          ∙ h)
  | inr other ↦ rw other h
]

pub released-IsTracked :
    (n : Node) (gid : String)
    → standing gid n.log ≡ leased
    → IsTracked n
    → IsTracked (note n (released gid))
released-IsTracked n gid l t = record {
  orderly = (l, t.orderly);
  distinct = t.distinct;
  same = λ g. same_idle n gid g free refl (ap is_working l) (t.same g);
}

pub acquired-IsTracked :
    (n : Node) (gid : String)
    → Map.lookup gid n.workers ≡ none
    → IsTracked n
    → IsTracked (note n (acquired gid))
acquired-IsTracked n gid h t =
    let idle = t.same gid ∙ ap is_some h in
    record {
      orderly = (idle, t.orderly);
      distinct = t.distinct;
      same = λ g. same_idle n gid g leased refl idle (t.same g);
    }

pub started-IsTracked :
    (n : Node) (g : MarketGroup)
    → standing g.group_id n.log ≡ leased
    → IsTracked n
    → IsTracked
        (note (record n { workers = Map.insert g.group_id g n.workers }) (started g.group_id))
started-IsTracked n g l t = record {
  orderly = (l, t.orderly);
  distinct = Map.insert-Distinct g.group_id g n.workers t.distinct;
  same = λ j. elim (Bool-cases (g.group_id == j)) [
    | inl here ↦ rw (here, Map.lookup-insert j g.group_id g n.workers, here) refl
    | inr other ↦ rw (other, Map.lookup-insert j g.group_id g n.workers, other) (t.same j)
  ];
}
