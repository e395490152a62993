-- ===== src/Tests/Lines.antt =====
-- A histogram of whole numbers.
use market_data_backend.Prelude.{ℕ, ◌+◌, List, [], ◌∷◌, leb, ◌≡◌, refl, arith}
use market_data_backend.Prelude.Int.{pos}
use market_data_backend.Metrics.{Float64, new_histogram, observe_all, cumulative}
use market_data_backend.Metrics.Cumulative.{new_histogram-cumulative}
use market_data_backend.Tests.Samples.{leb_trans}

abbrev numbers : Float64
numbers = record { Float = ℕ; zero_float = 0; add = ◌+◌; le = leb }

abbrev bounds : List ℕ
bounds = 1 ∷ 5 ∷ 10 ∷ []

-- Three of the four values are at most five.
new_histogram-cumulative_example :
    cumulative numbers 1
      (observe_all numbers (new_histogram numbers bounds) (3 ∷ 7 ∷ 5 ∷ 1 ∷ [])).counts
      (pos 0)
    ≡ pos 3
new_histogram-cumulative_example =
    new_histogram-cumulative numbers leb_trans bounds 5 1 (3 ∷ 7 ∷ 5 ∷ 1 ∷ [])
      ((refl, (refl, tt)), ((refl, tt), (tt, tt))) refl (omega arith)
