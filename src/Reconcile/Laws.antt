-- ===== src/Reconcile/Laws.antt =====
-- What one round of `planReconcile` decides.
use market_data_backend.Prelude.{
  eq_test_iff, ℕ, ◌+◌, ◌≤◌, ◌<◌, String, Bool, false, not, ◌&&◌, ◌||◌, List, [], ◌∷◌, String_eq,
  keep, contains, length, ◌==◌, ◌≡◌, refl, ◌∙◌, arith, Bool-cases, inl, inr, length-keep-le, ap,
}
use market_data_backend.Prelude.Text.{str_leb}
use market_data_backend.Prelude.Int.{ℤ, pos, ◌-ℤ◌, ◌+ℤ◌, ◌≤ℤ◌, ◌<ℤ◌}
use market_data_backend.Prelude.Sort.{sort, insert_sorted}
use market_data_backend.Reconcile.{id_set, stop_list, start_candidates, free_slots, plan_reconcile}

contains-insert_sorted :
    (le : String → String → Bool) (a x : String) (xs : List String)
    → contains a (insert_sorted le x xs) ≡ (x == a || contains a xs)
unfolding insert_sorted
contains-insert_sorted le a x [] = refl
contains-insert_sorted le a x (y ∷ ys) = ground (arith, contains-insert_sorted le a x ys)

contains-sort :
    (le : String → String → Bool) (a : String) (xs : List String)
    → contains a (sort le xs) ≡ contains a xs
unfolding sort
contains-sort le a [] = refl
contains-sort le a (x ∷ xs) =
    contains-insert_sorted le a x (sort le xs) ∙ ap (λ r. x == a || r) (contains-sort le a xs)

contains-id_set : (a : String) (xs : List String) → contains a (id_set xs) ≡ contains a xs
unfolding id_set
contains-id_set a [] = refl
contains-id_set a (x ∷ xs) =
    ground (arith, contains-id_set a xs, contains-id_set x xs, eq_test_iff x a)

contains-keep :
    (p : String → Bool) (a : String) (xs : List String)
    → contains a (keep p xs) ≡ (contains a xs && p a)
contains-keep p a [] = refl
contains-keep p a (x ∷ xs) = elim (Bool-cases (x == a)) [
  | inl same ↦ ground (arith, ap p ((eq_test_iff x a).0 same), contains-keep p a xs)
  | inr other ↦ ground (arith, contains-keep p a xs)
]

-- A group is stopped exactly when it runs here and is not desired, and is a candidate for a start
-- exactly when it is desired and does not run here.
pub plan_reconcile-contains :
    (desired running : List String) (max_groups : ℤ) (id : String)
    → let plan = plan_reconcile desired running max_groups in
      (contains id plan.to_stop ≡ (contains id running && not (contains id desired)))
      × (contains id plan.to_start ≡ (contains id desired && not (contains id running)))
unfolding plan_reconcile stop_list start_candidates
plan_reconcile-contains desired running max_groups id = (
  contains-sort str_leb id (keep (λ j. not (contains j (id_set desired))) running)
      ∙ contains-keep (λ j. not (contains j (id_set desired))) id running
      ∙ ap (λ b. contains id running && not b) (contains-id_set id desired),
  contains-sort str_leb id (keep (λ j. not (contains j (id_set running))) (id_set desired))
      ∙ contains-keep (λ j. not (contains j (id_set running))) id (id_set desired)
      ∙ ap (λ b. b && not (contains id (id_set running))) (contains-id_set id desired)
      ∙ ap (λ b. contains id desired && not b) (contains-id_set id running),
)

-- With a cap that the groups kept do not exceed, the slots do not exceed what the cap leaves and
-- not the candidates, and one of the two bounds is met.
pub free_slots_bounds :
    (kept max_groups : ℤ) (candidates : ℕ)
    → pos 0 <ℤ max_groups
    → kept ≤ℤ max_groups
    → let slots = free_slots kept max_groups candidates in
      (kept +ℤ slots ≤ℤ max_groups) × (slots ≤ℤ pos candidates) × (pos 0 ≤ℤ slots)
unfolding free_slots
free_slots_bounds kept max_groups candidates h k = ground arith

length-insert_sorted :
    (le : String → String → Bool) (x : String) (xs : List String)
    → length (insert_sorted le x xs) ≡ length xs + 1
unfolding insert_sorted
length-insert_sorted le x [] = omega arith
length-insert_sorted le x (y ∷ ys) = ground (arith, length-insert_sorted le x ys)

length-sort : (le : String → String → Bool) (xs : List String) → length (sort le xs) ≡ length xs
unfolding sort
length-sort le [] = refl
length-sort le (x ∷ xs) = omega (arith, length-insert_sorted le x (sort le xs), length-sort le xs)

-- No id stands twice.
abbrev pub Distinct : List String → Type 0
Distinct [] = Unit
Distinct (x ∷ xs) = (contains x xs ≡ false) × Distinct xs

pub id_set_of_Distinct : (ids : List String) → Distinct ids → id_set ids ≡ ids
unfolding id_set
id_set_of_Distinct [] d = refl
id_set_of_Distinct (x ∷ xs) d = ground (arith, id_set_of_Distinct xs d.1)

stop_list-length :
    (desired running : List String) → length (stop_list desired running) ≤ length running
unfolding stop_list
stop_list-length desired running =
    let p = λ (id : String). not (contains id (id_set desired)) in
    omega (arith, length-sort str_leb (keep p running), length-keep-le p running)

pub length-to_stop-le :
    (desired running : List String) (max_groups : ℤ)
    → length (plan_reconcile desired running max_groups).to_stop ≤ length running
unfolding plan_reconcile
length-to_stop-le desired running max_groups = stop_list-length desired running

-- A node that runs distinct groups, no more of them than a positive cap, and starts as many
-- candidates as the plan has slots after it stopped the groups to stop, stays within the cap; the
-- slots are never negative and never more than the candidates.
pub plan_reconcile-capacity :
    (desired running : List String) (max_groups : ℕ)
    → 0 < max_groups
    → Distinct running
    → length running ≤ max_groups
    → let plan = plan_reconcile desired running (pos max_groups) in
      (pos (length running) -ℤ pos (length plan.to_stop) +ℤ plan.start_slots ≤ℤ pos max_groups)
      × (pos 0 ≤ℤ plan.start_slots)
      × (plan.start_slots ≤ℤ pos (length plan.to_start))
unfolding plan_reconcile free_slots
plan_reconcile-capacity desired running max_groups h d k =
    ground (arith, id_set_of_Distinct running d, stop_list-length desired running)

insert_sorted-Distinct :
    (le : String → String → Bool) (x : String) (xs : List String)
    → contains x xs ≡ false
    → Distinct xs
    → Distinct (insert_sorted le x xs)
unfolding insert_sorted
insert_sorted-Distinct le x [] h d = (refl, tt)
insert_sorted-Distinct le x (y ∷ ys) h d = ground (
  arith,
  contains-insert_sorted le y x ys,
  insert_sorted-Distinct le x ys,
  eq_test_iff y x,
  eq_test_iff x y,
)

sort-Distinct :
    (le : String → String → Bool) (xs : List String) → Distinct xs → Distinct (sort le xs)
unfolding sort
sort-Distinct le [] d = tt
sort-Distinct le (x ∷ xs) d =
    insert_sorted-Distinct le x (sort le xs) (contains-sort le x xs ∙ d.0) (sort-Distinct le xs d.1)

keep-Distinct : (p : String → Bool) (xs : List String) → Distinct xs → Distinct (keep p xs)
keep-Distinct p [] d = tt
keep-Distinct p (x ∷ xs) d = ground (arith, contains-keep p x xs, keep-Distinct p xs)

id_set-Distinct : (ids : List String) → Distinct (id_set ids)
unfolding id_set
id_set-Distinct [] = tt
id_set-Distinct (x ∷ xs) = ground (arith, id_set-Distinct xs)

-- No group is offered for a start twice.
pub to_start-Distinct :
    (desired running : List String) (max_groups : ℤ)
    → Distinct (plan_reconcile desired running max_groups).to_start
unfolding plan_reconcile start_candidates
to_start-Distinct desired running max_groups =
    let fresh = λ (id : String). not (contains id (id_set running)) in
    sort-Distinct str_leb (keep fresh (id_set desired))
      (keep-Distinct fresh (id_set desired) (id_set-Distinct desired))

-- No group is stopped twice.
pub to_stop-Distinct :
    (desired running : List String) (max_groups : ℤ)
    → Distinct running
    → Distinct (plan_reconcile desired running max_groups).to_stop
unfolding plan_reconcile stop_list
to_stop-Distinct desired running max_groups d =
    let gone = λ (id : String). not (contains id (id_set desired)) in
    sort-Distinct str_leb (keep gone running) (keep-Distinct gone running d)
