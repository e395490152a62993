-- ===== src/Metrics/Cumulative.antt =====
-- What the lines of a histogram count.
use market_data_backend.Prelude.{
  ℕ, zero, suc, ◌+◌, ◌≤◌, ◌<◌, true, List, [], ◌∷◌, map, Option, none, some, length, keep, All,
  if◌then◌else◌, ◌≡◌, refl, ap, ◌∙◌, arith, Bool-cases, inl, inr,
}
use market_data_backend.Prelude.Int.{ℤ, pos, ◌+ℤ◌, wrap64, succ64, succ64-pos}
use market_data_backend.Metrics.{
  Float64, Histogram, zero_counts, new_histogram, count_value, observe, cumulative, observe_all,
}

module _ (f : Float64) where
  open f use {Float, le}

  -- Bounds that ascend.
  abbrev pub IsSorted : List Float → Type 0
  IsSorted [] = Unit
  IsSorted (u ∷ us) = All (λ w. le u w ≡ true) us × IsSorted us

  abbrev pub bound_at : ℕ → List Float → Option Float
  bound_at i [] = none
  bound_at zero (u ∷ us) = some u
  bound_at (suc i) (u ∷ us) = bound_at i us

  -- The counts as exact numbers.
  count_exact : Float → List Float → List ℕ → List ℕ
  count_exact v us [] = []
  count_exact v [] (n ∷ ns) = suc n ∷ ns
  count_exact v (u ∷ us) (n ∷ ns) =
      let rest = count_exact v us ns in if le v u then suc n ∷ ns else n ∷ rest

  abbrev add_up : List ℕ → ℕ
  add_up [] = 0
  add_up (n ∷ ns) = n + add_up ns

  abbrev add_to : ℕ → List ℕ → ℕ
  add_to i [] = 0
  add_to zero (n ∷ ns) = n
  add_to (suc i) (n ∷ ns) = n + add_to i ns

  add_to-le : (i : ℕ) (ns : List ℕ) → add_to i ns ≤ add_up ns
  add_to-le i [] = omega arith
  add_to-le zero (n ∷ ns) = omega arith
  add_to-le (suc i) (n ∷ ns) = omega (arith, add_to-le i ns)

  add_up-count_exact :
      (v : Float) (us : List Float) (ns : List ℕ) → add_up (count_exact v us ns) ≤ add_up ns + 1
  unfolding count_exact
  add_up-count_exact v us [] = omega arith
  add_up-count_exact v [] (n ∷ ns) = omega arith
  add_up-count_exact v (u ∷ us) (n ∷ ns) = ground (arith, add_up-count_exact v us ns)

  length-count_exact :
      (v : Float) (us : List Float) (ns : List ℕ) → length (count_exact v us ns) ≡ length ns
  unfolding count_exact
  length-count_exact v us [] = refl
  length-count_exact v [] (n ∷ ns) = refl
  length-count_exact v (u ∷ us) (n ∷ ns) = ground (arith, length-count_exact v us ns)

  -- The counts of the code do not wrap around where the exact ones fit.
  count_value-exact :
      (v : Float) (us : List Float) (ns : List ℕ)
      → add_up ns < 9223372036854775807
      → count_value f v us (map pos ns) ≡ map pos (count_exact v us ns)
  unfolding count_value count_exact
  count_value-exact v us [] h = refl
  count_value-exact v [] (n ∷ ns) h =
      rw (succ64-pos n (omega arith)) (ap (λ k. pos k ∷ map pos ns) (omega arith))
  count_value-exact v (u ∷ us) (n ∷ ns) h = elim (Bool-cases (le v u)) [
    | inl fits ↦ rw (fits, succ64-pos n (omega arith)) (ap (λ k. pos k ∷ map pos ns) (omega arith))
    | inr above ↦ rw above (ap (λ r. pos n ∷ r) (count_value-exact v us ns (omega arith)))
  ]

  cumulative-exact :
      (i : ℕ) (ns : List ℕ) (acc : ℕ)
      → acc + add_up ns < 9223372036854775808
      → cumulative f i (map pos ns) (pos acc) ≡ pos (acc + add_to i ns)
  unfolding cumulative
  cumulative-exact i [] acc h = ap pos (omega arith)
  cumulative-exact zero (n ∷ ns) acc h = ground arith
  cumulative-exact (suc i) (n ∷ ns) acc h =
      let one : wrap64 (pos acc +ℤ pos n) ≡ pos (acc + n) = ground arith in
      rw (cumulative, one) (cumulative-exact i ns (acc + n) (omega arith) ∙ ap pos (omega arith))

  -- A bound is not below the ones before it.
  below_all :
      (transitive : (x y z : Float) → le x y ≡ true → le y z ≡ true → le x z ≡ true) (v u w : Float)
      (us : List Float) (i : ℕ)
      → le v u ≡ true
      → All (λ x. le u x ≡ true) us
      → bound_at i us ≡ some w
      → le v w ≡ true
  below_all transitive v u w [] i h a b = absurd (cc b)
  below_all transitive v u w (x ∷ us) zero h a b = ground (arith, transitive v u x h a.0)
  below_all transitive v u w (x ∷ us) (suc i) h a b = below_all transitive v u w us i h a.1 b

  -- One more value counts in the lines whose bound is not below it.
  add_to-count_exact :
      (transitive : (x y z : Float) → le x y ≡ true → le y z ≡ true → le x z ≡ true) (v w : Float)
      (us : List Float) (ns : List ℕ) (i : ℕ)
      → IsSorted us
      → length ns ≡ length us + 1
      → bound_at i us ≡ some w
      → add_to i (count_exact v us ns) ≡ add_to i ns + (if le v w then 1 else 0)
  unfolding count_exact
  add_to-count_exact transitive v w [] ns i s l b = absurd (cc b)
  add_to-count_exact transitive v w (u ∷ us) [] i s l b = absurd (omega (arith, l))
  add_to-count_exact transitive v w (u ∷ us) (n ∷ ns) zero s l b = ground arith
  add_to-count_exact transitive v w (u ∷ us) (n ∷ ns) (suc i) s l b = elim (Bool-cases (le v u)) [
    | inl fits ↦ rw (fits, below_all transitive v u w us i fits s.0 b) (omega arith)
    | inr above ↦
        rw above (omega (arith, add_to-count_exact transitive v w us ns i s.1 (omega (arith, l)) b))
  ]

  -- A histogram whose counts are the exact ones.
  abbrev at_counts : List Float → List ℕ → Float → ℤ → Histogram f
  at_counts us ns sum total = record { buckets = us; counts = map pos ns; sum = sum; total = total }

  observe_all-cumulative :
      (transitive : (x y z : Float) → le x y ≡ true → le y z ≡ true → le x z ≡ true)
      (us : List Float) (w : Float) (i : ℕ) (ns : List ℕ) (sum : Float) (total : ℤ)
      (values : List Float)
      → IsSorted us
      → bound_at i us ≡ some w
      → length ns ≡ length us + 1
      → add_up ns + length values < 9223372036854775807
      → cumulative f i (observe_all f (at_counts us ns sum total) values).counts (pos 0)
        ≡ pos (add_to i ns + length (keep (λ v. le v w) values))
  unfolding observe_all observe
  observe_all-cumulative transitive us w i ns sum total [] s b l h =
      cumulative-exact i ns 0 (omega (arith, h)) ∙ ap pos (omega arith)
  observe_all-cumulative transitive us w i ns sum total (v ∷ values) s b l h =
      ap
        (λ cs.
          cumulative f i
            (observe_all f
              (record { buckets = us; counts = cs; sum = f.add sum v; total = succ64 total })
              values).counts
            (pos 0))
        (count_value-exact v us ns (omega arith))
      ∙ observe_all-cumulative transitive us w i (count_exact v us ns) (f.add sum v) (succ64 total)
          values s b (length-count_exact v us ns ∙ l) (omega (arith, add_up-count_exact v us ns))
      ∙ ap pos (ground (arith, add_to-count_exact transitive v w us ns i s l b))

  zeros : List Float → List ℕ
  zeros [] = 0 ∷ []
  zeros (u ∷ us) = 0 ∷ zeros us

  zero_counts_lem :
      (us : List Float)
      → (zero_counts f us ≡ map pos (zeros us))
        × (length (zeros us) ≡ length us + 1)
        × (add_up (zeros us) ≡ 0)
  unfolding zero_counts zeros
  zero_counts_lem [] = (refl, refl, refl)
  zero_counts_lem (u ∷ us) =
      let rest = zero_counts_lem us in
      (ap (λ cs. pos 0 ∷ cs) rest.0, omega (arith, rest.1), omega (arith, rest.2))

  add_to-zeros : (i : ℕ) (us : List Float) → add_to i (zeros us) ≡ 0
  add_to-zeros i us = omega (arith, add_to-le i (zeros us), (zero_counts_lem us).2)

  -- The line of a bucket shows how many of the observed values are not above its bound, where the
  -- bounds ascend, the order of the values is transitive (as that of float64 is), and fewer than
  -- 2^63 - 1 values were observed.
  pub new_histogram-cumulative :
      (transitive : (x y z : Float) → le x y ≡ true → le y z ≡ true → le x z ≡ true)
      (us : List Float) (w : Float) (i : ℕ) (values : List Float)
      → IsSorted us
      → bound_at i us ≡ some w
      → length values < 9223372036854775807
      → cumulative f i (observe_all f (new_histogram f us) values).counts (pos 0)
        ≡ pos (length (keep (λ v. le v w) values))
  unfolding new_histogram
  new_histogram-cumulative transitive us w i values s b h =
      let none_yet = zero_counts_lem us in
      rw (none_yet.0) (
        observe_all-cumulative transitive us w i (zeros us) f.zero_float (pos 0) values s b
          none_yet.1 (omega (arith, none_yet.2))
        ∙ ap pos (omega (arith, add_to-zeros i us)))
