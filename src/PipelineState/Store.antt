-- ===== src/PipelineState/Store.antt =====
-- The partition checkpoints of `PipelineStateStore` in pipeline_state.py: the state in memory, and the file
-- that holds it between runs. The text of the file, `json.dumps` with its final newline, and
-- `json.loads` are parameters.
use idea2strategy_data_pipel.Prelude.{
  ℕ, String, Bool, true, false, ◌&&◌, List, [], Option, none, some, if◌then◌else◌,
}
use idea2strategy_data_pipel.Prelude.Eq.{string_eq, nat_eq, ◌==◌}
use idea2strategy_data_pipel.Prelude.Text.{append, decimal}
use idea2strategy_data_pipel.Prelude.Dict.{Dict, lookup, insert}
use idea2strategy_data_pipel.Prelude.Result.{Result, ok, err}
use idea2strategy_data_pipel.PipelineState.Replace.{
  StateError, not_positive, unreadable, unsupported, raised, Attempt, replace_with_retry,
}

-- The arguments that name a partition.
pub record PartitionName : Type 0 where
  pub pipeline : String
  pub layer : String
  pub resolution : String
  pub partition_start : String
  pub partition_end : String
  pub shard_key : String
  pub revision : ℕ

abbrev pub bar : String → String → String
bar left right = append left (append "|" right)

unfoldable pub key_text : PartitionName → String
key_text p = bar p.pipeline (
    bar p.layer (
      bar p.resolution
        (bar p.partition_start (bar p.partition_end (bar p.shard_key (decimal p.revision))))))

unfoldable pub partition_key : {F : Type 0} → PartitionName → Result (StateError F) String
partition_key p = if p.revision == 0 then err not_positive else ok (key_text p)

pub record PartitionEntry : Type 0 where
  pub status : String
  pub object_ids : List String
  pub content_hash : Option String
  pub error : String
  pub updated_at_utc : String

-- The dictionary `data`, with the stage checkpoints and the other keys as they are.
pub record StateData (C R : Type 0) : Type 0 where
  pub version : Option ℕ
  pub checkpoints : Option C
  pub partition_checkpoints : Option (Dict String PartitionEntry)
  pub updated_at_utc : Option String
  pub others : R

-- What `json.loads` returns.
pub data Loaded (C R : Type 0) : Type 0 where
  not_a_dict : Loaded C R
  dictionary : StateData C R → Loaded C R

-- The store, with its `data`, and the text of the file at its path.
pub record PipelineStateStore (C R T : Type 0) : Type 0 where
  pub contents : StateData C R
  pub file : Option T

-- The file system during one save: the exception of writing the temporary file, if it raises one, and the
-- answers of `os.replace`.
pub record FileSystem (F : Type 0) : Type 0 where
  pub write_fault : Option F
  pub replace : ℕ → Attempt F

abbrev pub or_empty : {A B : Type 0} → Option (Dict A B) → Dict A B
or_empty none = []
or_empty (some d) = d

abbrev pub is_version_1 : Option ℕ → Bool
is_version_1 none = false
is_version_1 (some n) = n == 1

-- `loaded.setdefault("checkpoints", {})`
abbrev pub default_checkpoints : {C R : Type 0} → C → StateData C R → StateData C R
default_checkpoints empty d = record {
  version = d.version;
  checkpoints = some (elim d.checkpoints [ none ↦ empty | some c ↦ c ]);
  partition_checkpoints = d.partition_checkpoints;
  updated_at_utc = d.updated_at_utc;
  others = d.others;
}

abbrev pub updated : {C R : Type 0} → String → StateData C R → StateData C R
updated now d = record {
  version = d.version;
  checkpoints = d.checkpoints;
  partition_checkpoints = d.partition_checkpoints;
  updated_at_utc = some now;
  others = d.others;
}

abbrev pub with_partitions :
    {C R : Type 0} → Dict String PartitionEntry → StateData C R → StateData C R
with_partitions partitions d = record {
  version = d.version;
  checkpoints = d.checkpoints;
  partition_checkpoints = some partitions;
  updated_at_utc = d.updated_at_utc;
  others = d.others;
}

-- In tenths of a second.
abbrev pub state_replace_attempts : ℕ
state_replace_attempts = 6

abbrev pub state_replace_retry : ℕ
state_replace_retry = 1

-- Whether a hash is the expected one, if one is expected.
abbrev pub accepts : Option String → Option String → Bool
accepts none found = true
accepts (some hash) none = false
accepts (some hash) (some found) = found == hash

abbrev pub is_success_of : Option String → Option PartitionEntry → Bool
is_success_of expected none = false
is_success_of expected (some entry) =
    entry.status == "success" && accepts expected entry.content_hash

module _ {C R F T : Type 0} (loads : T → Option (Loaded C R)) (no_checkpoints : C)
    (nothing : R) where
  abbrev pub checked : Option (Loaded C R) → Result (StateError F) (StateData C R)
  checked none = err unreadable
  checked (some not_a_dict) = err unsupported
  checked (some (dictionary d)) =
      if is_version_1 d.version then ok (default_checkpoints no_checkpoints d) else err unsupported

  -- `_load`, of the text of the file, if there is one.
  unfoldable pub load : Option T → Result (StateError F) (StateData C R)
  load none = ok (record {
    version = some 1;
    checkpoints = some no_checkpoints;
    partition_checkpoints = none;
    updated_at_utc = none;
    others = nothing;
  })
  load (some text) = checked (loads text)

module _ {C R F : Type 0} where
  abbrev pub read_at :
      StateData C R
      → Option String
      → Result (StateError F) String
      → Result (StateError F) (StateData C R × Bool)
  read_at d expected (err e) = err e
  read_at d expected (ok key) = ok (
    with_partitions (or_empty d.partition_checkpoints) d,
    is_success_of expected (lookup key (or_empty d.partition_checkpoints)),
  )

  -- The answer, and the dictionary, where the partitions are an empty dictionary from then on if they were missing.
  unfoldable pub is_partition_complete :
      StateData C R → PartitionName → Option String → Result (StateError F) (StateData C R × Bool)
  is_partition_complete d p expected = read_at d expected (partition_key p)

module _ {C R F T : Type 0} (dumps : StateData C R → T) where
  -- What the attempts to replace the file leave of the store.
  abbrev pub replaced_file :
      StateData C R
      → Option T
      → Result (StateError F) (Unit {0})
      → PipelineStateStore C R T × Result (StateError F) (Unit {0})
  replaced_file d file (ok _) = (record { contents = d; file = some (dumps d) }, ok tt)
  replaced_file d file (err e) = (record { contents = d; file = file }, err e)

  abbrev pub written :
      FileSystem F
      → StateData C R
      → Option T
      → Option F
      → PipelineStateStore C R T × Result (StateError F) (Unit {0})
  written system d file (some fault) = (record { contents = d; file = file }, err (raised fault))
  written system d file none =
      replaced_file d file
        (replace_with_retry system.replace state_replace_attempts state_replace_retry).1

  unfoldable pub save :
      FileSystem F
      → String
      → PipelineStateStore C R T
      → PipelineStateStore C R T × Result (StateError F) (Unit {0})
  save system now store = written system (updated now store.contents) store.file system.write_fault

  abbrev pub mark_at :
      FileSystem F
      → String
      → PartitionEntry
      → PipelineStateStore C R T
      → Result (StateError F) String
      → PipelineStateStore C R T × Result (StateError F) (Unit {0})
  mark_at system now entry store (err e) = (store, err e)
  mark_at system now entry store (ok key) = save system now (record {
    contents =
        with_partitions (insert key entry (or_empty store.contents.partition_checkpoints))
          store.contents;
    file = store.file;
  })

  -- The object ids are empty where none are given.
  unfoldable pub mark_partition :
      FileSystem F
      → String
      → PartitionName
      → String
      → List String
      → Option String
      → String
      → PipelineStateStore C R T
      → PipelineStateStore C R T × Result (StateError F) (Unit {0})
  mark_partition system now p status object_ids content_hash error store =
      mark_at system now
        (record {
          status = status;
          object_ids = object_ids;
          content_hash = content_hash;
          error = error;
          updated_at_utc = now;
        })
        store (partition_key p)
