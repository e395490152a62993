-- ===== src/Partitions/Kept.antt =====
-- A pass drops expired partitions only.
use market_data_backend.Prelude.{
  ℕ, ◌<◌, String, Bool, false, List, [], ◌∷◌, none, some, leb, keep, contains, ◌||◌, String_eq,
  ◌==◌, ◌≡◌, refl, ap, ◌∙◌, subst, inl, inr, arith, Bool-cases, Option-cases, eq_test_iff,
}
use market_data_backend.Prelude.Map
use market_data_backend.Prelude.Sort.{insert_sorted, sort}
use market_data_backend.Partitions.{
  Range, Database, DbCall, list_expired, drop_table_of, drop_delta_partition, expired,
  drop_partitions, drop_expired,
}

abbrev Rows : Type 0
Rows = List (String × Range)

keys-insert_sorted :
    (le : String × Range → String × Range → Bool) (k : String) (r : String × Range) (m : Rows)
    → contains k (Map.keys (insert_sorted le r m)) ≡ (r.0 == k || contains k (Map.keys m))
unfolding insert_sorted
keys-insert_sorted le k r [] = refl
keys-insert_sorted le k r (s ∷ m) = ground (arith, keys-insert_sorted le k r m)

pub keys-sort :
    (le : String × Range → String × Range → Bool) (k : String) (m : Rows)
    → contains k (Map.keys (sort le m)) ≡ contains k (Map.keys m)
unfolding sort
keys-sort le k [] = refl
keys-sort le k (r ∷ m) =
    keys-insert_sorted le k r (sort le m) ∙ ap (λ b. r.0 == k || b) (keys-sort le k m)

pub keys-keep :
    (p : String × Range → Bool) (k : String) (m : Rows)
    → Map.lookup k m ≡ none
    → contains k (Map.keys (keep p m)) ≡ false
unfolding Map.lookup
keys-keep p k [] h = refl
keys-keep p k ((j, r) ∷ m) h = ground (arith, keys-keep p k m)

-- A row that a test leaves out is not among what is kept.
keys-keep-out :
    (cutoff : ℕ) (k : String) (r : Range) (m : Rows)
    → Map.Distinct m
    → Map.lookup k m ≡ some r
    → cutoff < r.range_end
    → contains k (Map.keys (keep (λ (x : String × Range). leb x.1.range_end cutoff) m)) ≡ false
unfolding Map.lookup
keys-keep-out cutoff k r [] d h l = absurd (cc h)
keys-keep-out cutoff k r ((j, x) ∷ m) d h l = elim (Bool-cases (j == k)) [
  | inl same ↦ ground (
    arith,
    keys-keep (λ (y : String × Range). leb y.1.range_end cutoff) k m
        (subst (λ i. Map.lookup i m ≡ none) ((eq_test_iff j k).0 same) d.0),
  )
  | inr other ↦ ground (arith, keys-keep-out cutoff k r m d.1)
]

pub expired_lem :
    (name_of : ℕ → String) (fails : DbCall → Bool) (cutoff : ℕ) (k : String) (r : Range)
    (db : Database)
    → Map.Distinct db.rows
    → Map.lookup k db.rows ≡ some r
    → cutoff < r.range_end
    → contains k (Map.keys (expired name_of fails cutoff db)) ≡ false
unfolding expired
expired_lem name_of fails cutoff k r db d h l =
    keys-sort _ k (keep (λ (x : String × Range). leb x.1.range_end cutoff) db.rows)
    ∙ keys-keep-out cutoff k r db.rows d h l

module _ (name_of : ℕ → String) (fails : DbCall → Bool) where
  drop_delta_partition-keeps :
      (db : Database) (name k : String)
      → (name == k) ≡ false
      → let after = (drop_delta_partition name_of fails db name).0 in
        (Map.lookup k after.rows ≡ Map.lookup k db.rows)
        × (Map.lookup k after.tables ≡ Map.lookup k db.tables)
  unfolding drop_delta_partition drop_table_of
  drop_delta_partition-keeps db name k other = ground (
    arith,
    Map.lookup-delete k name db.rows,
    Map.lookup-delete k name db.tables,
    Map.lookup-insert k name false db.tables,
    Map.lookup-delete k name (Map.insert name false db.tables),
  )

  pub drop_partitions-keeps :
      (db : Database) (names : List String) (k : String)
      → contains k names ≡ false
      → let after = (drop_partitions name_of fails db names).0 in
        (Map.lookup k after.rows ≡ Map.lookup k db.rows)
        × (Map.lookup k after.tables ≡ Map.lookup k db.tables)
  unfolding drop_partitions
  drop_partitions-keeps db [] k h = (refl, refl)
  drop_partitions-keeps db (name ∷ names) k h =
      let gone = drop_delta_partition name_of fails db name in
      let one = drop_delta_partition-keeps db name k (ground arith) in
      elim (Option-cases gone.1) [
        | inr (e, bad) ↦ rw (bad, drop_partitions) one
        | inl good ↦
            let rest = drop_partitions-keeps gone.0 names k (ground arith) in
            rw (good, drop_partitions) (rest.0 ∙ one.0, rest.1 ∙ one.1)
      ]

  -- What a pass drops, whatever the database refuses: a partition with a row whose range ends behind
  -- the cutoff keeps its row and its table.
  pub drop_expired-keeps :
      (db : Database) (cutoff : ℕ) (name : String) (r : Range)
      → Map.Distinct db.rows
      → Map.lookup name db.rows ≡ some r
      → cutoff < r.range_end
      → let after = (drop_expired name_of fails cutoff (db, none)).0 in
        (Map.lookup name after.rows ≡ some r)
        × (Map.lookup name after.tables ≡ Map.lookup name db.tables)
  unfolding drop_expired
  drop_expired-keeps db cutoff name r d h l = elim (Bool-cases (fails list_expired)) [
    | inl bad ↦ rw (bad, drop_expired) (h, refl)
    | inr good ↦
        let kept =
          drop_partitions-keeps db (Map.keys (expired name_of fails cutoff db)) name
            (expired_lem name_of fails cutoff name r db d h l) in
        rw (good, drop_expired) (kept.0 ∙ h, kept.1)
  ]
