-- ===== src/Storage/Startup.antt =====
-- What `UnifiedStorage::Open` does with an open database: the initial state (`InitializeNew`),
-- `Validate` and `RecoverPreparingObjects` (src/storage/unified_storage.cpp).
pub mod Validated
pub mod Initial
pub mod Recovered
use openevent.Common.{
  String, ℕ, Bool, true, false, not, Option, none, some, List, [], ◌∷◌, ◌++◌, map, Bytes, ◌==◌,
  is_empty, if◌then◌else◌,
}
use openevent.Status.{
  Status, success, Result, ok, fail, Error, text, corruption, rocks_to_status, RocksError, ◌>>=◌,
  ◌>>◌, fail_if,
}
use openevent.Platform.{Platform}
use openevent.Storage.Encoding.{encode_uint64}
use openevent.Storage.Faults.{
  StorageFaultInjector, inject_storage_fault, before_initialization_commit,
  after_initialization_commit,
}
use openevent.Storage.Keys.{
  numeric_key, schema_version_key, max_seq_key, next_uuid_key, next_channel_id_key,
  next_object_id_key, uuid_prefix, message_prefix,
}
use openevent.Storage.Reads.{
  get_required_uint64, get_max_seq, get_next_uuid, get_next_channel_id, get_next_object_id,
  get_used_uuid_seq, get_committed_object, list_preparing_objects,
}
use openevent.Storage.Records.{StoredObject}
use openevent.Storage.Rocks.{found, absent, broken}
use openevent.Storage.Rocks.Updates.{Batch, put, meta, messages}
use openevent.Storage.State.{UnifiedStorage, create_snapshot, commit}
use openevent.Storage.SystemMessages.{initialization_message, valid_initialization_message}
use openevent.Storage.Writes.{delete_preparing_object}

abbrev pub schema_version : ℕ
schema_version = 6

module _ (p : Platform) where
  -- `SerializeAsString` returns the empty string on failure.
  abbrev serialized_or_empty : Option Bytes → Bytes
  serialized_or_empty none = []
  serialized_or_empty (some b) = b

  unfoldable pub initial_batch : ℕ → Batch
  initial_batch now_ms =
      put meta schema_version_key (encode_uint64 schema_version)
      ∷ put meta max_seq_key (encode_uint64 0)
      ∷ put meta next_uuid_key (encode_uint64 1)
      ∷ put meta next_channel_id_key (encode_uint64 1)
      ∷ put meta next_object_id_key (encode_uint64 1)
      ∷ put meta (numeric_key uuid_prefix 0) (encode_uint64 0)
      ∷ put messages (numeric_key message_prefix 0)
          (serialized_or_empty (p.event_messages.serialize (initialization_message now_ms)))
      ∷ []

  abbrev written_status : Option RocksError → Status
  written_status none = success
  written_status (some e) = fail (rocks_to_status e (text "finish storage initialization" ∷ []))

  abbrev destroyed_status : Option RocksError → String → Status
  destroyed_status none operation = success
  destroyed_status (some e) operation = fail (rocks_to_status e (text operation ∷ []))

  -- The end of both column family handles: `objects_destroy` and `messages_destroy` are what
  -- `DestroyColumnFamilyHandle` returned.
  unfoldable pub destroy_handles : Status → Option RocksError → Option RocksError → Status
  destroy_handles init_status objects_destroy messages_destroy =
      init_status
      >> (destroyed_status objects_destroy "destroy objects column family handle"
          >> destroyed_status messages_destroy "destroy messages column family handle")

  -- The commit of the initial state to a database that was just created.
  unfoldable pub initialize_new :
      StorageFaultInjector
      → Option RocksError
      → Option RocksError
      → p.rocks.Db
      → ℕ
      → Status × p.rocks.Db
  unfolding destroy_handles
  initialize_new injector objects_destroy messages_destroy db now_ms =
      elim (inject_storage_fault injector before_initialization_commit) [
        | fail e ↦ (destroy_handles (fail e) objects_destroy messages_destroy, db)
        | ok _ ↦
            let (written, db') = p.rocks.write db (initial_batch now_ms) in
            (
              destroy_handles
                  (written_status written
                    >> inject_storage_fault injector after_initialization_commit)
                  objects_destroy messages_destroy,
              db',
            )
      ]

  unfoldable pub check_schema : p.rocks.Snapshot → Status
  check_schema snapshot = do
    schema ← get_required_uint64 p snapshot schema_version_key "meta:schema_version"
    fail_if (not (schema == schema_version))
        (corruption "validate storage" "unsupported storage schema version")

  unfoldable pub check_counters : p.rocks.Snapshot → Status
  check_counters snapshot = do
    get_max_seq p snapshot >>= λ _. success
    next_uuid ← get_next_uuid p snapshot
    fail_if (next_uuid == 0) (corruption "validate storage" "invalid next uuid")
    next_channel_id ← get_next_channel_id p snapshot
    fail_if (next_channel_id == 0) (corruption "validate storage" "invalid next channel ID")
    next_object_id ← get_next_object_id p snapshot
    fail_if (next_object_id == 0) (corruption "validate storage" "invalid next object ID")

  unfoldable pub check_initialization_message : p.rocks.Snapshot → Status
  check_initialization_message snapshot =
      elim (p.rocks.get snapshot messages (numeric_key message_prefix 0)) [
        | absent ↦ fail (corruption "validate storage" "missing system initialization message")
        | broken s ↦ fail (rocks_to_status s (text "read system initialization message" ∷ []))
        | found encoded ↦ elim (p.event_messages.parse encoded) [
          | none ↦ fail (corruption "validate storage" "invalid system initialization message")
          | some message ↦
              fail_if (not (valid_initialization_message p.json message))
                (corruption "validate storage" "invalid system initialization message")
        ]
      ]

  abbrev is_zero : Option ℕ → Bool
  is_zero none = false
  is_zero (some seq) = seq == 0

  unfoldable pub check_system_uuid : p.rocks.Snapshot → Status
  check_system_uuid snapshot = do
    system_seq ← get_used_uuid_seq p snapshot 0
    fail_if (not (is_zero system_seq))
        (corruption "validate storage" "missing or conflicting system UUID mapping")

  unfoldable pub validate : p.rocks.Db → Status
  unfolding check_schema check_counters check_initialization_message check_system_uuid
  validate db = do
    snapshot ← create_snapshot p db
    check_schema snapshot
    check_counters snapshot
    check_initialization_message snapshot
    check_system_uuid snapshot

  -- No preparing object may be committed too.
  unfoldable pub check_not_committed : p.rocks.Snapshot → List StoredObject → Status
  check_not_committed snapshot [] = success
  check_not_committed snapshot (object ∷ rest) = do
    already ← get_committed_object p snapshot object.object_id
    elim already [
      | some _ ↦ fail (
          corruption "recover preparing objects"
            "object ID has both PREPARING and COMMITTED metadata")
      | none ↦ check_not_committed snapshot rest
    ]

  abbrev object_ids : List StoredObject → List ℕ
  object_ids = map (λ o. o.object_id)

  unfoldable pub delete_preparing_objects : Batch → List StoredObject → Batch
  delete_preparing_objects batch [] = batch
  delete_preparing_objects batch (object ∷ rest) =
      delete_preparing_objects (delete_preparing_object batch object.object_id) rest

  -- The reads of `RecoverPreparingObjects`: the objects that are to be removed.
  unfoldable pub objects_to_recover : p.rocks.Db → Result (List StoredObject)
  objects_to_recover db = do
    preparing ← list_preparing_objects p db
    if is_empty preparing then ok [] else (do
      snapshot ← create_snapshot p db
      check_not_committed snapshot preparing
      ok preparing)

  unfoldable pub remove_prepared : UnifiedStorage p → List StoredObject → Status × UnifiedStorage p
  remove_prepared storage [] = (success, storage)
  remove_prepared storage (o ∷ rest) =
      let (cleaned, files') = p.object_files.cleanup storage.files (object_ids (o ∷ rest)) in
      let storage' : UnifiedStorage p = record storage { files = files' } in
      elim cleaned [
        | fail e ↦ (fail e, storage')
        | ok _ ↦ commit p storage' (delete_preparing_objects [] (o ∷ rest))
      ]

  unfoldable pub recover_preparing_objects : UnifiedStorage p → Status × UnifiedStorage p
  unfolding objects_to_recover remove_prepared
  recover_preparing_objects storage = elim (objects_to_recover storage.db) [
    | fail e ↦ (fail e, storage)
    | ok preparing ↦ remove_prepared storage preparing
  ]

  -- The end of `OpenExisting`.
  unfoldable pub open_existing : UnifiedStorage p → Status × UnifiedStorage p
  unfolding validate recover_preparing_objects
  open_existing storage = elim (validate storage.db) [
    | fail e ↦ (fail e, storage)
    | ok _ ↦ recover_preparing_objects storage
  ]
