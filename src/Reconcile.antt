-- ===== src/Reconcile.antt =====
-- internal/runtime/reconcile.go: which groups a node starts and stops in one round.
pub mod Laws
use market_data_backend.Prelude.{
  ℕ, String, Bool, true, not, List, [], ◌∷◌, String_eq, if◌then◌else◌, keep, contains, length,
}
use market_data_backend.Prelude.Text.{str_leb}
use market_data_backend.Prelude.Int.{ℤ, pos, sub_ℕ, ◌-ℤ◌, ltb_ℤ}
use market_data_backend.Prelude.Sort.{sort}

pub record ReconcilePlan : Type 0 where
  pub to_start : List String
  pub to_stop : List String
  pub start_slots : ℤ

-- The keys of the set that the loop over a list of ids fills.
unfoldable pub id_set : List String → List String
id_set [] = []
id_set (id ∷ ids) = let rest = id_set ids in if contains id rest then rest else id ∷ rest

unfoldable pub stop_list : List String → List String → List String
stop_list desired running = sort str_leb (keep (λ id. not (contains id (id_set desired))) running)

unfoldable pub start_candidates : List String → List String → List String
start_candidates desired running =
    sort str_leb (keep (λ id. not (contains id (id_set running))) (id_set desired))

-- The number of slots: `kept` groups keep theirs, and no more than the candidates are offered.
unfoldable pub free_slots : (kept max_groups : ℤ) (candidates : ℕ) → ℤ
free_slots kept max_groups candidates =
    let bounded = if ltb_ℤ (max_groups -ℤ kept) (pos 0) then pos 0 else max_groups -ℤ kept in
    let available = if ltb_ℤ (pos 0) max_groups then bounded else pos candidates in
    if ltb_ℤ (pos candidates) available then pos candidates else available

unfoldable pub plan_reconcile : List String → List String → ℤ → ReconcilePlan
unfolding id_set stop_list start_candidates free_slots
plan_reconcile desired running max_groups =
    let to_stop = stop_list desired running in
    let candidates = start_candidates desired running in
    let kept = sub_ℕ (length (id_set running)) (length to_stop) in
    record {
      to_start = candidates;
      to_stop = to_stop;
      start_slots = free_slots kept max_groups (length candidates);
    }
