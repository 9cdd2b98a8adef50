-- ===== src/PipelineState/Restart.antt =====
-- A partition's checkpoint survives a restart (pipeline_state.py).
use idea2strategy_data_pipel.Prelude.{
  String, Bool, true, false, ◌&&◌, ◌≡◌, refl, List, Option, none, some, arith, Bool-cases, inl, inr,
  ◌⊎◌, if◌then◌else◌,
}
use idea2strategy_data_pipel.Prelude.Eq.{string_eq, nat_eq, ◌==◌}
use idea2strategy_data_pipel.Prelude.Dict.{insert, lookup-insert}
use idea2strategy_data_pipel.Prelude.Result.{Result, ok, err, ◌>>=◌}
use idea2strategy_data_pipel.PipelineState.Replace.{
  StateError, not_positive, raised, replace_with_retry,
}
use idea2strategy_data_pipel.PipelineState.Store.{
  PartitionName, PartitionEntry, partition_key, key_text, StateData, Loaded, dictionary,
  PipelineStateStore, FileSystem, or_empty, updated, with_partitions, accepts, load,
  is_partition_complete, replaced_file, written, save, mark_partition, state_replace_attempts,
  state_replace_retry, default_checkpoints,
}
use idea2strategy_data_pipel.PipelineState.Key.{is_clean, same_partition, key_text-names}

abbrev pub answer : {E D : Type 0} → Result E (D × Bool) → Result E Bool
answer (err e) = err e
answer (ok (_, b)) = ok b

module _ {C R F T : Type 0} (dumps : StateData C R → T) where
  abbrev kept : StateData C R → PipelineStateStore C R T × Result (StateError F) (Unit {0})
  kept d = (record { contents = d; file = some (dumps d) }, ok tt)

  abbrev Saved :
      StateData C R
      → Option T
      → PipelineStateStore C R T × Result (StateError F) (Unit {0})
      → Type 0
  Saved d file call =
      (call ≡ kept d) ⊎ ((e : StateError F) × (call.1 ≡ err e) × (call.0.file ≡ file))

  replaced_file-Saved :
      (d : StateData C R) (file : Option T) (r : Result (StateError F) (Unit {0}))
      → Saved d file (replaced_file dumps d file r)
  replaced_file-Saved d file (ok _) = inl refl
  replaced_file-Saved d file (err e) = inr (e, refl, refl)

  written-Saved :
      (system : FileSystem F) (d : StateData C R) (file : Option T) (fault : Option F)
      → Saved d file (written dumps system d file fault)
  written-Saved system d file (some fault) = inr (raised fault, refl, refl)
  written-Saved system d file none =
      replaced_file-Saved d file
        (replace_with_retry system.replace state_replace_attempts state_replace_retry).1

  save-Saved :
      (system : FileSystem F) (now : String) (store : PipelineStateStore C R T)
      → Saved (updated now store.contents) store.file (save dumps system now store)
  unfolding save
  save-Saved system now store =
      written-Saved system (updated now store.contents) store.file system.write_fault

module _ {C R F T : Type 0} (loads : T → Option (Loaded C R)) (no_checkpoints : C)
    (nothing : R) where
  -- What a store that loads the file says of a partition.
  abbrev pub after_restart : Option T → PartitionName → Option String → Result (StateError F) Bool
  after_restart file q expected =
      load loads no_checkpoints nothing file >>= λ d. answer (is_partition_complete d q expected)

module _ {C R F T : Type 0} (dumps : StateData C R → T) (loads : T → Option (Loaded C R))
    (no_checkpoints : C) (nothing : R) where
  load-kept :
      (d : StateData C R)
      → loads (dumps d) ≡ some (dictionary d)
      → d.version ≡ some 1
      → load {F = F} loads no_checkpoints nothing (some (dumps d))
        ≡ ok (default_checkpoints no_checkpoints d)
  unfolding load
  load-kept d reads version = rw (load, reads) rw version refl

  answer-marked :
      (d : StateData C R) (p q : PartitionName) (entry : PartitionEntry) (now : String)
      (expected : Option String)
      → is_clean p ≡ true
      → is_clean q ≡ true
      → (p.revision == 0) ≡ false
      → answer {E = StateError F} (
          is_partition_complete
            (default_checkpoints no_checkpoints (
              updated now
                (with_partitions (insert (key_text p) entry (or_empty d.partition_checkpoints)) d)))
            q
            expected)
        ≡ (if same_partition p q
            then ok (entry.status == "success" && accepts expected entry.content_hash)
            else answer (is_partition_complete d q expected))
  unfolding is_partition_complete partition_key
  answer-marked d p q entry now expected hp hq positive = elim (Bool-cases (q.revision == 0)) [
    | inl zero ↦ let other : same_partition p q ≡ false = ground (arith) in rw (zero, other) refl
    | inr some_revision ↦ elim (Bool-cases (same_partition p q)) [
      | inl same ↦
          rw (some_revision, same) rw
            (
              lookup-insert (key_text p) (key_text q) entry (or_empty d.partition_checkpoints),
              key_text-names p q hp hq,
              same,
            )
            refl
      | inr other ↦
          rw (some_revision, other) rw
            (
              lookup-insert (key_text p) (key_text q) entry (or_empty d.partition_checkpoints),
              key_text-names p q hp hq,
              other,
            )
            refl
    ]
  ]

  -- A call of `mark_partition` returns, and a store that loads the file afterwards gives for any partition the
  -- answer of the marked entry, where it is the marked one, and the answer from before for every other; or
  -- it raises, and the file is as it was. No bar stands in the texts of the two partitions, the state has
  -- version 1, and the text of a file is read as it was written.
  pub mark_partition-restart :
      (system : FileSystem F) (now : String) (p q : PartitionName) (status : String)
      (object_ids : List String) (content_hash : Option String) (error : String)
      (store : PipelineStateStore C R T) (expected : Option String)
      → ((d : StateData C R) → loads (dumps d) ≡ some (dictionary d))
      → store.contents.version ≡ some 1
      → is_clean p ≡ true
      → is_clean q ≡ true
      → (((mark_partition dumps system now p status object_ids content_hash error store).1 ≡ ok tt)
          × (after_restart {F = F} loads no_checkpoints nothing
                (mark_partition dumps system now p status object_ids content_hash error
                  store).0.file
                q
                expected
              ≡ (if same_partition p q
                  then ok (status == "success" && accepts expected content_hash)
                  else answer (is_partition_complete store.contents q expected))))
        ⊎ ((e : StateError F) × ((mark_partition dumps system now p status object_ids content_hash
                error store).1
              ≡ err e)
            × ((mark_partition dumps system now p status object_ids content_hash error store).0.file
                ≡ store.file))
  unfolding mark_partition partition_key
  mark_partition-restart system now p q status object_ids content_hash error store expected reads
        version hp hq =
      elim (Bool-cases (p.revision == 0)) [
        | inl zero ↦ inr (
          not_positive,
          rw (mark_partition, partition_key, zero) refl,
          rw (mark_partition, partition_key, zero) refl,
        )
        | inr positive ↦
            let entry : PartitionEntry = record {
              status = status;
              object_ids = object_ids;
              content_hash = content_hash;
              error = error;
              updated_at_utc = now;
            } in
            let d : StateData C R =
              with_partitions
                (insert (key_text p) entry (or_empty store.contents.partition_checkpoints))
                store.contents in
            let marked : mark_partition dumps system now p status object_ids content_hash error
                  store
                ≡ save dumps system now (record { contents = d; file = store.file }) =
              rw (mark_partition, partition_key, positive) refl in
            rw marked
              elim (save-Saved dumps system now (record { contents = d; file = store.file })) [
                | inr failed ↦ inr failed
                | inl saved ↦ rw saved (
                    inl (
                      refl,
                      rw (load-kept (updated now d) (reads (updated now d)) version)
                          (answer-marked store.contents p q entry now expected hp hq positive),
                    ))
              ]
      ]
