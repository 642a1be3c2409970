-- ===== src/Storage/Startup/Initial.antt =====
-- The state that `InitializeNew` commits.
use openevent.Common.{ℕ, ◌≡◌, true, Option, none, some, Bytes, arith, bytes_eq}
use openevent.Status.{ok, RocksError}
use openevent.Platform.{Platform, Lawful}
use openevent.Storage.Encoding.{encode_uint64}
use openevent.Storage.Faults.{StorageFaultInjector}
use openevent.Storage.Keys.{
  numeric_key, schema_version_key, max_seq_key, next_uuid_key, next_channel_id_key,
  next_object_id_key, message_prefix,
}
use openevent.Storage.Reads.Views.{Holds-encode_uint64}
use openevent.Storage.Rocks.Updates.{Cf, meta, messages, Contents, after}
use openevent.Storage.Startup.{initial_batch, initialize_new, destroy_handles}
use openevent.Storage.Startup.Validated.{IsValid}
use openevent.Storage.SystemMessages.{initialization_message, valid_initialization_message}
use openevent.Storage.SystemMessages.Initialized.{ReadsInitialization, initialization-valid}

module _ (p : Platform) where
  initialize_new-ok :
      (injector : StorageFaultInjector) (objects_destroy messages_destroy : Option RocksError)
      (d d' : p.rocks.Db) (now_ms : ℕ)
      → initialize_new p injector objects_destroy messages_destroy d now_ms ≡ (ok tt, d')
      → p.rocks.write d (initial_batch p now_ms) ≡ (none, d')
  unfolding initialize_new destroy_handles
  initialize_new-ok injector objects_destroy messages_destroy d d' now_ms h = ground arith

  initial_batch-IsValid :
      (c c' : Contents) (now_ms : ℕ) (b : Bytes)
      → p.event_messages.serialize (initialization_message now_ms) ≡ some b
      → p.event_messages.parse b ≡ some (initialization_message now_ms)
      → valid_initialization_message p.json (initialization_message now_ms) ≡ true
      → ((cf : Cf) (k : Bytes) → c' cf k ≡ after c (initial_batch p now_ms) cf k)
      → IsValid p c'
  unfolding initial_batch bytes_eq numeric_key encode_uint64
  initial_batch-IsValid c c' now_ms b serialized parses valid e = record {
    schema = Holds-encode_uint64 _ 6 (omega arith) (e meta schema_version_key);
    max_seq = 0;
    max_seq_stored = Holds-encode_uint64 _ 0 (omega arith) (e meta max_seq_key);
    next_uuid = 1;
    next_uuid_stored = Holds-encode_uint64 _ 1 (omega arith) (e meta next_uuid_key);
    next_uuid_nonzero = λ q. absurd (omega arith);
    next_channel_id = 1;
    next_channel_id_stored = Holds-encode_uint64 _ 1 (omega arith) (e meta next_channel_id_key);
    next_channel_id_nonzero = λ q. absurd (omega arith);
    next_object_id = 1;
    next_object_id_stored = Holds-encode_uint64 _ 1 (omega arith) (e meta next_object_id_key);
    next_object_id_nonzero = λ q. absurd (omega arith);
    initialization = initialization_message now_ms;
    initialization_bytes = b;
    initialization_stored = rw serialized at (e messages (numeric_key message_prefix 0));
    initialization_parses = parses;
    initialization_valid = valid;
  }

  -- If the initialization message serialises, and the reader of JSON makes of the literal text of
  -- its payload the kind `system.initialization` and a schema version that is one, and neither
  -- `seq`, `channel_id`, `principal` nor `uuid`, an initialization that returns leaves contents
  -- with schema version 6, stored counters, those of ids not zero, and a valid initialization
  -- message under the number 0.
  pub initialize_new-IsValid :
      (law : Lawful p) (injector : StorageFaultInjector)
      (objects_destroy messages_destroy : Option RocksError) (d d' : p.rocks.Db) (now_ms : ℕ)
      (b : Bytes)
      → p.event_messages.serialize (initialization_message now_ms) ≡ some b
      → ReadsInitialization p.json
      → initialize_new p injector objects_destroy messages_destroy d now_ms ≡ (ok tt, d')
      → IsValid p (p.rocks.contents d')
  initialize_new-IsValid law injector objects_destroy messages_destroy d d' now_ms b serialized
        reads h =
      initial_batch-IsValid (p.rocks.contents d) (p.rocks.contents d') now_ms b serialized
        (law.event_messages (initialization_message now_ms) b serialized)
        (initialization-valid p.json now_ms reads)
        (law.rocks.write_applies d d' (initial_batch p now_ms)
          (initialize_new-ok injector objects_destroy messages_destroy d d' now_ms h))
