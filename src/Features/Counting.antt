-- ===== src/Features/Counting.antt =====
-- The rows that a sealed batch counts (market_pipeline_lib/features/snapshots.py).
use idea2strategy_data_pipel.Prelude.{
  ℕ, ◌<◌, String, Bool, true, ◌≡◌, subst, List, [], ◌∷◌, arith, inl, inr, Bool-cases, All, all, any,
  ◌||◌, &&-true, ltb,
}
use idea2strategy_data_pipel.Prelude.Eq.{Eq, string_eq, pair_eq, beq_refl}
use idea2strategy_data_pipel.Prelude.Dict.{Dict, lookup, has, insert, keys, values, lookup-insert}
use idea2strategy_data_pipel.Prelude.Result.{ok, ◌>>=◌, >>=-eq-ok, guard}
use idea2strategy_data_pipel.Features.Plan.{Member}
use idea2strategy_data_pipel.Features.Sealing.{members_of}
use idea2strategy_data_pipel.Features.Builder.{
  MaterializationResult, SnapshotError, Usable, expected_results, agrees, count_results,
  row_count_of, same_keys, sum, result_missing, no_rows,
}

module _ {K V W : Type 0} ⦃e : Eq K⦄ where
  pub all-keys :
      (k : K) (a : Dict K V) (b : Dict K W)
      → all (λ j. has j b) (keys a) ≡ true
      → has k a ≡ true
      → has k b ≡ true
  all-keys k [] b h there = absurd ground arith
  all-keys k ((j, v) ∷ a) b h there = elim (Bool-cases (e.beq j k)) [
    | inl same ↦
        subst (λ i. has i b ≡ true) ((e.beq_iff j k).0 same)
          (&&-true (has j b) (all (λ i. has i b) (keys a)) h).0
    | inr other ↦
        all-keys k a b (&&-true (has j b) (all (λ i. has i b) (keys a)) h).1 (ground (arith, other))
  ]

abbrev pub Key : Type 0
Key = String × String

abbrev pub key_of : Member → Key
key_of m = (m.0, m.1.instrument_id)

abbrev pub result_key : MaterializationResult → Key
result_key r = (r.definition_hash, r.instrument_id)

has-insert :
    {V : Type 0} (k j : Key) (v : V) (d : Dict Key V)
    → has j (insert k v d) ≡ (pair_eq.beq k j || has j d)
has-insert k j v d = ground (arith, lookup-insert k j v d)

expected_results-keeps :
    (k : Key) (members : List Usable) (d : Dict Key String)
    → has k d ≡ true
    → has k (expected_results d members) ≡ true
expected_results-keeps k [] d h = h
expected_results-keeps k ((m, hash) ∷ members) d h =
    expected_results-keeps k members (insert (key_of m) hash d)
      (ground (arith, has-insert (key_of m) k hash d))

-- Every member's key is a key of the dictionary of the expected hashes.
pub expected_results-All :
    (members : List Usable) (d : Dict Key String)
    → All (λ m. has (key_of m) (expected_results d members) ≡ true) (members_of members)
expected_results-All [] d = tt
expected_results-All ((m, hash) ∷ members) d = (
  expected_results-keeps (key_of m) members (insert (key_of m) hash d)
      (ground (arith, has-insert (key_of m) (key_of m) hash d, beq_refl (key_of m))),
  expected_results-All members (insert (key_of m) hash d),
)

or_supplied : (a b c : Bool) → ((b || a) || c) ≡ true → (a || (b || c)) ≡ true
or_supplied a b c h = ground arith

-- A key that was counted is that of one of the supplied results.
count_results-supplied :
    (expected : Dict Key String) (k : Key) (results : List MaterializationResult)
    (seen found : Dict Key ℕ)
    → count_results expected seen results ≡ ok found
    → has k found ≡ true
    → (has k seen || any (λ r. pair_eq.beq (result_key r) k) results) ≡ true
unfolding count_results
count_results-supplied expected k [] seen found h there = ground arith
count_results-supplied expected k (r ∷ results) seen found h there =
    elim (Bool-cases (agrees (lookup (result_key r) expected) r.result_hash)) [
      | inr differs ↦ absurd ground arith
      | inl same ↦
          let counted = count_results expected (insert (result_key r) r.row_count seen) results in
          let rest =
            count_results-supplied expected k results (insert (result_key r) r.row_count seen) found
              (ground (arith, same)) there in
          or_supplied (has k seen) (pair_eq.beq (result_key r) k)
            (any (λ r'. pair_eq.beq (result_key r') k) results)
            (subst (λ b. (b || any (λ r'. pair_eq.beq (result_key r') k) results) ≡ true)
              (has-insert (result_key r) k r.row_count seen) rest)
    ]

two_guards-ok :
    (a b : Bool) (e f : SnapshotError) (n count : ℕ)
    → (guard a e >>= λ _. guard b f >>= λ _. ok n) ≡ ok count
    → (a ≡ true) × (b ≡ true) × (n ≡ count)
two_guards-ok a b e f n count h = ground arith

row_count_of-checks :
    (members : List Usable) (results : List MaterializationResult) (count : ℕ)
    → row_count_of members results ≡ ok count
    → (seen : Dict Key ℕ) × (count_results (expected_results [] members) [] results ≡ ok seen)
      × (same_keys seen (expected_results [] members) ≡ true)
      × (0 < count)
unfolding row_count_of
row_count_of-checks members results count h =
    let (seen, counted, checked) =
      >>=-eq-ok (count_results (expected_results [] members) [] results)
        (λ seen. do
          _ ← guard (same_keys seen (expected_results [] members)) result_missing
          _ ← guard (ltb 0 (sum (values seen))) no_rows
          ok (sum (values seen)))
        h in
    let (same, positive, counts) =
      two_guards-ok (same_keys seen (expected_results [] members)) (ltb 0 (sum (values seen)))
        result_missing no_rows (sum (values seen)) count checked in
    (seen, counted, same, ground arith)

-- A row count was made of one result at least for each of the members, and it is positive.
pub row_count_of-supplied :
    (members : List Usable) (results : List MaterializationResult) (count : ℕ)
    → row_count_of members results ≡ ok count
    → (0 < count)
      × ((k : Key)
          → has k (expected_results [] members) ≡ true
          → any (λ r. pair_eq.beq (result_key r) k) results ≡ true)
row_count_of-supplied members results count h =
    let (seen, counted, same, positive) = row_count_of-checks members results count h in
    (
      positive,
      λ k there. count_results-supplied (expected_results [] members) k results [] seen counted (
          all-keys k (expected_results [] members) seen
            (&&-true (all (λ j. has j (expected_results [] members)) (keys seen))
              (all (λ j. has j seen) (keys (expected_results [] members))) same).1
            there),
    )
