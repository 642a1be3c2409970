-- ===== src/Examples/Starting.antt =====
-- The theorems on the start of the storage in memory.
use openevent.Common.{ℕ, ◌≡◌, refl, true, none, some, [], ◌∷◌, ◌++◌, Bytes, codes, arith}
use openevent.Status.{Result, ok}
use openevent.Storage.Keys.{preparing_object_prefix}
use openevent.Storage.Records.{ObjectRecord}
use openevent.Storage.Rocks.Updates.{Batch, put, objects}
use openevent.Storage.Startup.{validate, initialize_new, recover_preparing_objects}
use openevent.Storage.Startup.Initial.{initialize_new-IsValid}
use openevent.Storage.Startup.Validated.{IsValid, validate-IsValid}
use openevent.Storage.State.{UnifiedStorage}
use openevent.Storage.SystemMessages.{initialization_message, valid_initialization_message}
use openevent.Examples.Codecs.{encode_message, write_record}
use openevent.Examples.Fixtures.{database, number, attachment}
use openevent.Examples.Memory.{memory, memory-Lawful}
use openevent.Storage.SystemMessages.Initialized.{ReadsInitialization}

validate_returns : validate memory database ≡ ok tt
unfolding validate openevent.Storage.State.create_snapshot
    openevent.Storage.Reads.get_required_uint64 openevent.Common.bytes_eq
    openevent.Storage.Keys.decode_required_uint64 openevent.Storage.Encoding.decode_uint64
    openevent.Storage.Reads.get_max_seq openevent.Storage.Reads.get_next_uuid
    openevent.Storage.Reads.get_next_channel_id openevent.Storage.Reads.get_next_object_id
    openevent.Storage.Keys.numeric_key openevent.Storage.Encoding.encode_uint64
    valid_initialization_message openevent.Examples.Memory.read openevent.Examples.Memory.field
    openevent.Storage.Reads.get_used_uuid_seq
validate_returns = refl

validate-IsValid_example : IsValid memory (memory.rocks.contents database)
validate-IsValid_example = validate-IsValid memory memory-Lawful database validate_returns

abbrev new_database : Batch
new_database = (initialize_new memory none none none [] 7).1

initialize_new_returns : initialize_new memory none none none [] 7 ≡ (ok tt, new_database)
unfolding initialize_new openevent.Storage.Startup.destroy_handles
    openevent.Storage.Faults.inject_storage_fault
initialize_new_returns = refl

memory_reads : ReadsInitialization memory.json
unfolding openevent.Examples.Memory.read openevent.Examples.Memory.field
memory_reads = record {
  fields = _;
  read_text = refl;
  kind = _;
  kind_there = refl;
  kind_is = refl;
  data_value = _;
  data_there = refl;
  data_fields = _;
  data_is = refl;
  version = _;
  version_there = refl;
  number = _;
  version_is = refl;
  is_one = refl;
  no_seq = refl;
  no_channel_id = refl;
  no_principal = refl;
  no_uuid = refl;
}

initialize_new-IsValid_example : IsValid memory (memory.rocks.contents new_database)
initialize_new-IsValid_example =
    initialize_new-IsValid memory memory-Lawful none none none [] new_database 7
      (encode_message (initialization_message 7)) refl memory_reads initialize_new_returns

-- A server that stopped while it wrote an object.
abbrev unfinished : ObjectRecord
unfinished = record attachment { object_id = 2 }

abbrev stopped : UnifiedStorage memory
stopped = record {
  db = database ++ put objects (preparing_object_prefix ++ number 2) (write_record unfinished) ∷ [];
  fault_injector = none;
  files = (2, 1 ∷ []) ∷ [];
}

abbrev recovered : UnifiedStorage memory
recovered = (recover_preparing_objects memory stopped).1
