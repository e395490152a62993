-- ===== src/Node/Rounds/Size.antt =====
-- How many workers a node has and what they weigh, as exact numbers.
use market_data_backend.Prelude.{
  ℕ, ◌+◌, ◌≤◌, ◌<◌, String, true, false, List, [], ◌∷◌, none, ◌==◌, String_eq, ◌≡◌, refl, ap, ◌∙◌,
  eq_test_iff, arith, contains, length,
}
use market_data_backend.Prelude.Map
use market_data_backend.Prelude.Int.{pos, pos_part, ◌+ℤ◌, wrap64}
use market_data_backend.Model.{MarketGroup}
use market_data_backend.Reconcile.Laws.{Distinct}
use market_data_backend.Node.Rounds.{group_weight, add_weights}

abbrev Workers : Type 0
Workers = List (String × MarketGroup)

abbrev pub weight_of : MarketGroup → ℕ
weight_of g = pos_part (group_weight g)

abbrev pub total : Workers → ℕ
total [] = 0
total ((gid, g) ∷ workers) = weight_of g + total workers

pub length-delete-le : (k : String) (m : Workers) → length (Map.delete k m) ≤ length m
unfolding Map.delete
length-delete-le k [] = omega arith
length-delete-le k ((j, g) ∷ m) = ground (arith, length-delete-le k m)

pub total-delete-le : (k : String) (m : Workers) → total (Map.delete k m) ≤ total m
unfolding Map.delete
total-delete-le k [] = omega arith
total-delete-le k ((j, g) ∷ m) = ground (arith, total-delete-le k m)

delete_missing : (k : String) (m : Workers) → Map.lookup k m ≡ none → Map.delete k m ≡ m
unfolding Map.delete Map.lookup
delete_missing k [] h = refl
delete_missing k ((j, g) ∷ m) h = ground (arith, delete_missing k m)

-- With distinct keys one worker goes.
pub length-delete :
    (k : String) (m : Workers)
    → Map.Distinct m
    → contains k (Map.keys m) ≡ true
    → length (Map.delete k m) + 1 ≡ length m
unfolding Map.delete Map.lookup
length-delete k [] d c = absurd (cc c)
length-delete k ((j, g) ∷ m) d c =
    ground (arith, length-delete k m, delete_missing j m, eq_test_iff j k)

-- A new key adds its worker.
pub insert_missing :
    (k : String) (g : MarketGroup) (m : Workers)
    → Map.lookup k m ≡ none
    → (length (Map.insert k g m) ≡ length m + 1)
      × (total (Map.insert k g m) ≡ total m + weight_of g)
unfolding Map.insert Map.lookup
insert_missing k g [] h = omega arith
insert_missing k g ((j, x) ∷ m) h = ground (arith, insert_missing k g m)

pub lookup-contains :
    (k : String) (m : Workers) → Map.lookup k m ≡ none → contains k (Map.keys m) ≡ false
unfolding Map.lookup
lookup-contains k [] h = refl
lookup-contains k ((i, x) ∷ m) h = ground (arith, lookup-contains k m)

pub keys-Distinct : (m : Workers) → Map.Distinct m → Distinct (Map.keys m)
keys-Distinct [] d = tt
keys-Distinct ((j, g) ∷ m) d = (lookup-contains j m d.0, keys-Distinct m d.1)

pub contains-keys-delete :
    (k j : String) (m : Workers)
    → (j == k) ≡ false
    → contains k (Map.keys m) ≡ true
    → contains k (Map.keys (Map.delete j m)) ≡ true
unfolding Map.delete
contains-keys-delete k j [] o c = c
contains-keys-delete k j ((i, x) ∷ m) o c =
    ground (arith, contains-keys-delete k j m, eq_test_iff i j, eq_test_iff i k, eq_test_iff j k)

pub length-keys : (m : Workers) → length (Map.keys m) ≡ length m
length-keys [] = refl
length-keys ((j, g) ∷ m) = omega (arith, length-keys m)

pub group_weight-pos : (g : MarketGroup) → (group_weight g ≡ pos (weight_of g)) × (0 < weight_of g)
unfolding group_weight
group_weight-pos g = ground arith

pub wrap64-add : (w v : ℕ) → w + v < 9223372036854775808 → wrap64 (pos w +ℤ pos v) ≡ pos (w + v)
wrap64-add w v h = ground arith

-- The sum of `capacity` does not wrap around where the exact one fits.
pub add_weights-total :
    (w : ℕ) (m : Workers)
    → w + total m < 9223372036854775808
    → add_weights (pos w) m ≡ pos (w + total m)
unfolding add_weights
add_weights-total w [] h = ap pos (omega arith)
add_weights-total w ((j, g) ∷ m) h =
    rw ((group_weight-pos g).0, wrap64-add w (weight_of g) (omega arith), add_weights)
      (add_weights-total (w + weight_of g) m (omega arith) ∙ ap pos (omega arith))
