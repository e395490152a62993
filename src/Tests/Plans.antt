-- ===== src/Tests/Plans.antt =====
-- internal/runtime/reconcile.go on a small node.
use market_data_backend.Prelude.{
  ◌≡◌, refl, List, [], ◌∷◌, String, String_eq, contains, length, not, ◌&&◌, arith,
}
use market_data_backend.Prelude.Int.{pos, ◌≤ℤ◌, ◌+ℤ◌, ◌-ℤ◌}
use market_data_backend.Prelude.Sort.{sort}
use market_data_backend.Prelude.Text.{str_leb}
use market_data_backend.Reconcile.{plan_reconcile}
use market_data_backend.Reconcile.Laws.{plan_reconcile-contains, plan_reconcile-capacity}

abbrev desired : List String
desired = "c" ∷ "a" ∷ "b" ∷ []

abbrev running : List String
running = "b" ∷ "x" ∷ []

plan :
    plan_reconcile desired running (pos 2)
    ≡ record { to_start = "a" ∷ "c" ∷ []; to_stop = "x" ∷ []; start_slots = pos 1 }
unfolding plan_reconcile sort str_leb
plan = refl

plan_reconcile-contains_example :
    let p = plan_reconcile desired running (pos 2) in
    (contains "x" p.to_stop ≡ (contains "x" running && not (contains "x" desired)))
    × (contains "x" p.to_start ≡ (contains "x" desired && not (contains "x" running)))
plan_reconcile-contains_example = plan_reconcile-contains desired running (pos 2) "x"

plan_reconcile-capacity_example :
    let p = plan_reconcile desired running (pos 2) in
    (pos 2 -ℤ pos (length p.to_stop) +ℤ p.start_slots ≤ℤ pos 2)
    × (pos 0 ≤ℤ p.start_slots)
    × (p.start_slots ≤ℤ pos (length p.to_start))
plan_reconcile-capacity_example =
    plan_reconcile-capacity desired running 2 (omega arith) (refl, (refl, tt)) (omega arith)
