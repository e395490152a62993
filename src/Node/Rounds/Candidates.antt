-- ===== src/Node/Rounds/Candidates.antt =====
-- The loop over the candidates of a round counts and weighs them rightly.
use market_data_backend.Prelude.{
  ℕ, ◌+◌, ◌≤◌, ◌<◌, String, Bool, true, false, List, [], ◌∷◌, none, some, String_eq, ◌&&◌, ◌≡◌, ap,
  subst, Bool-cases, Option-cases, inl, inr, arith, All,
}
use market_data_backend.Prelude.Map
use market_data_backend.Prelude.Int.{ℤ, pos, ◌+ℤ◌, wrap64, leb_ℤ, ltb_ℤ}
use market_data_backend.Model.{MarketGroup}
use market_data_backend.Node.{NodeConfig}
use market_data_backend.Node.Rounds.{
  Acquire, granted, held_elsewhere, acquire_failed, NodeAnswers, group_weight, try_start_worker,
  group_by_id, groups_by_id, Starts, counted, start_one, start_workers,
}
use market_data_backend.Node.Rounds.Size.{
  weight_of, total, insert_missing, group_weight-pos, wrap64-add,
}
use market_data_backend.Node.Rounds.Start.{IsFresh}
use market_data_backend.Node.Rounds.Trace.{AllAbsent-start_one}
use market_data_backend.Node.Rounds.Within.{IsWithin, grow-IsWithin}

-- The bounds of the settings, and no weight so large that `int` could wrap around.
pub record HasBounds (cfg : NodeConfig) (max_groups max_weight : ℕ) : Type 0 where
  pub groups : cfg.max_groups ≡ pos max_groups
  pub weight : cfg.max_weight ≡ pos max_weight
  pub some_groups : 0 < max_groups
  pub some_weight : 0 < max_weight
  pub small : max_weight < 4611686018427387904

abbrev pub IsLight : MarketGroup → Type 0
IsLight g = weight_of g < 4611686018427387904

-- The loop over the candidates, which began with `before` workers and may add `slots`.
pub record IsLoop (cfg : NodeConfig) (before slots max_weight : ℕ) (s : Starts) : Type 0 where
  pub within : IsWithin cfg (before + s.count) max_weight s.node
  pub exact : s.weight ≡ pos (total s.node.workers)
  pub counts : s.count ≤ slots

-- What a candidate that was tried leaves behind.
counted-IsLoop :
    (cfg : NodeConfig) (before slots W : ℕ) (s : Starts) (g : MarketGroup) (answer : Acquire)
    (loads : Bool)
    → Map.lookup g.group_id s.node.workers ≡ none
    → total s.node.workers + weight_of g ≤ W
    → W < 4611686018427387904
    → s.count < slots
    → IsLoop cfg before slots W s
    → IsLoop cfg before slots W
        (counted s (group_weight g) (try_start_worker s.node g answer loads))
unfolding try_start_worker
counted-IsLoop cfg before slots W s g granted true h fits small room l =
    let added = insert_missing g.group_id g s.node.workers h in
    record {
      within = record {
        same_cfg = l.within.same_cfg;
        distinct = Map.insert-Distinct g.group_id g s.node.workers l.within.distinct;
        few = omega (arith, added.0, l.within.few);
        light = omega (arith, added.1, fits);
      };
      exact =
          rw (l.exact, (group_weight-pos g).0, added.1)
            (wrap64-add (total s.node.workers) (weight_of g) (omega arith));
      counts = omega arith;
    }
counted-IsLoop cfg before slots W s g granted false h fits small room l = record {
  within = record {
    same_cfg = l.within.same_cfg;
    distinct = l.within.distinct;
    few = l.within.few;
    light = l.within.light;
  };
  exact = l.exact;
  counts = l.counts;
}
counted-IsLoop cfg before slots W s g held_elsewhere loads h fits small room l = record {
  within = l.within;
  exact = l.exact;
  counts = l.counts;
}
counted-IsLoop cfg before slots W s g acquire_failed loads h fits small room l = record {
  within = l.within;
  exact = l.exact;
  counts = l.counts;
}

-- The test of `start_one`.
abbrev is_over : NodeConfig → ℤ → ℤ → Bool
is_over cfg x y = ltb_ℤ (pos 0) cfg.max_weight && ltb_ℤ cfg.max_weight (wrap64 (x +ℤ y))

-- Where it fails, the weight of the candidate still fits.
is_over_lem :
    (cfg : NodeConfig) (max_groups W w v : ℕ) (x y : ℤ)
    → HasBounds cfg max_groups W
    → x ≡ pos w
    → y ≡ pos v
    → w ≤ W
    → v < 4611686018427387904
    → is_over cfg x y ≡ false
    → w + v ≤ W
is_over_lem cfg max_groups W w v x y b p q l m h = ground (
  arith,
  b.weight,
  b.some_weight,
  b.small,
  ap (is_over cfg x) q,
  ap (λ i. is_over cfg i (pos v)) p,
)

start_one-IsLoop :
    (cfg : NodeConfig) (before slots max_groups W : ℕ) (a : NodeAnswers) (s : Starts)
    (g : MarketGroup)
    → HasBounds cfg max_groups W
    → Map.lookup g.group_id s.node.workers ≡ none
    → IsLight g
    → s.count < slots
    → IsLoop cfg before slots W s
    → IsLoop cfg before slots W (start_one a s g)
unfolding start_one
start_one-IsLoop cfg before slots max_groups W a s g b h small room l =
    elim (Bool-cases (is_over s.node.cfg s.weight (group_weight g))) [
      | inl over ↦ rw (over, start_one) l
      | inr fits ↦
          rw (fits, start_one)
            (counted-IsLoop cfg before slots W s g (a.acquires g.group_id)
              (a.inputs_load g.group_id) h
              (is_over_lem cfg max_groups W (total s.node.workers) (weight_of g) s.weight
                (group_weight g) b l.exact (group_weight-pos g).0 l.within.light small
                (subst (λ c. is_over c s.weight (group_weight g) ≡ false) l.within.same_cfg fits))
              b.small room l)
    ]

pub start_workers-IsWithin :
    (cfg : NodeConfig) (before slots max_groups W : ℕ) (a : NodeAnswers) (s : Starts)
    (gs : List MarketGroup)
    → HasBounds cfg max_groups W
    → IsFresh s.node gs
    → All IsLight gs
    → IsLoop cfg before slots W s
    → IsWithin cfg (before + slots) W (start_workers a (pos slots) s gs).node
unfolding start_workers
start_workers-IsWithin cfg before slots max_groups W a s [] b f light l =
    grow-IsWithin cfg (before + s.count) (before + slots) W s.node (omega (arith, l.counts))
      l.within
start_workers-IsWithin cfg before slots max_groups W a s (g ∷ gs) b f light l =
    elim (Bool-cases (leb_ℤ (pos slots) (pos s.count))) [
      | inl full ↦
          rw (full, start_workers)
            (grow-IsWithin cfg (before + s.count) (before + slots) W s.node
              (omega (arith, l.counts)) l.within)
      | inr room ↦
          rw (room, start_workers)
            (start_workers-IsWithin cfg before slots max_groups W a (start_one a s g) gs b
              (record {
                absent = AllAbsent-start_one a s g gs f.distinct.0 f.absent.1;
                distinct = f.distinct.1;
              })
              light.1
              (start_one-IsLoop cfg before slots max_groups W a s g b f.absent.0 light.0
                (ground arith) l))
    ]

group_by_id-IsLight :
    (gid : String) (gs : List MarketGroup) (g : MarketGroup)
    → All IsLight gs
    → group_by_id gid gs ≡ some g
    → IsLight g
unfolding group_by_id
group_by_id-IsLight gid [] g l h = absurd (cc h)
group_by_id-IsLight gid (x ∷ gs) g l h = elim (Option-cases (group_by_id gid gs)) [
  | inl missing ↦ ground (arith, l.0)
  | inr (y, found) ↦ ground (arith, group_by_id-IsLight gid gs y l.1 found)
]

pub groups_by_id-IsLight :
    (gids : List String) (gs : List MarketGroup)
    → All IsLight gs
    → All IsLight (groups_by_id gids gs)
unfolding groups_by_id
groups_by_id-IsLight [] gs l = tt
groups_by_id-IsLight (gid ∷ gids) gs l = elim (Option-cases (group_by_id gid gs)) [
  | inl missing ↦ rw (missing, groups_by_id) (groups_by_id-IsLight gids gs l)
  | inr (g, found) ↦
      rw (found, groups_by_id)
        (group_by_id-IsLight gid gs g l found, groups_by_id-IsLight gids gs l)
]
