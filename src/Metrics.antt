-- ===== src/Metrics.antt =====
-- internal/observability/metrics.go: the histogram and the lines that it shows. Go's float64 is a
-- parameter.
pub mod Cumulative
use market_data_backend.Prelude.{ℕ, zero, suc, Bool, List, [], ◌∷◌, length, if◌then◌else◌}
use market_data_backend.Prelude.Int.{ℤ, pos, ◌+ℤ◌, wrap64, succ64}

pub record Float64 : Type 1 where
  pub Float : Type 0
  pub zero_float : Float
  pub add : Float → Float → Float
  pub le : Float → Float → Bool

module _ (f : Float64) where
  open f use {Float, zero_float, add, le}

  pub record Histogram : Type 0 where
    pub buckets : List Float
    pub counts : List ℤ
    pub sum : Float
    pub total : ℤ

  -- A count for each bucket, and the last for what is above them.
  unfoldable pub zero_counts : List Float → List ℤ
  zero_counts [] = pos 0 ∷ []
  zero_counts (upper ∷ buckets) = pos 0 ∷ zero_counts buckets

  unfoldable pub new_histogram : List Float → Histogram
  unfolding zero_counts
  new_histogram buckets = record {
    buckets = buckets;
    counts = zero_counts buckets;
    sum = zero_float;
    total = pos 0;
  }

  -- The loop over the buckets: the first that is not below the value is counted.
  unfoldable pub count_value : Float → List Float → List ℤ → List ℤ
  count_value v buckets [] = []
  count_value v [] (c ∷ counts) = succ64 c ∷ counts
  count_value v (upper ∷ buckets) (c ∷ counts) =
      let rest = count_value v buckets counts in if le v upper then succ64 c ∷ counts else c ∷ rest

  unfoldable pub observe : Histogram → Float → Histogram
  unfolding count_value
  observe h v = record h {
    counts = count_value v h.buckets h.counts;
    sum = add h.sum v;
    total = succ64 h.total;
  }

  -- `cum` of the bucket with the index.
  unfoldable pub cumulative : ℕ → List ℤ → ℤ → ℤ
  cumulative index [] cum = cum
  cumulative zero (c ∷ counts) cum = wrap64 (cum +ℤ c)
  cumulative (suc index) (c ∷ counts) cum = cumulative index counts (wrap64 (cum +ℤ c))

  unfoldable pub observe_all : Histogram → List Float → Histogram
  unfolding observe
  observe_all h [] = h
  observe_all h (v ∷ values) = observe_all (observe h v) values
