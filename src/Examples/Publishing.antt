-- ===== src/Examples/Publishing.antt =====
-- The theorems on publishing at a server in memory.
use openevent.Common.{ℕ, ◌≡◌, refl, true, Option, none, some, List, [], ◌∷◌, codes, arith, All, inr}
use openevent.Status.{ok}
use openevent.Storage.State.{create_snapshot}
use openevent.Core.State.{Core}
use openevent.Core.State.Inversion.{stored}
use openevent.Core.State.Atomicity.{IsAtomic}
use openevent.Core.Atomic.Methods.{publishing-IsAtomic}
use openevent.Core.Publish.{publish, publish_auto_seq, message_of, check_capabilities}
use openevent.Core.Publish.Accepted.{IsReadable, publishing-IsReadable}
use openevent.Core.Publish.Authorized.{IsAuthorized, publish-IsAuthorized}
use openevent.Core.Publish.Capabilities.{IsCapability, check_capabilities-ok}
use openevent.Core.Publish.Log.{Extends, publish-Extends, publish_auto_seq-Extends}
use openevent.Examples.Fixtures.{server, request}
use openevent.Examples.Memory.{memory, memory-Lawful}

abbrev pub after_publish : Core memory
after_publish = (publish memory request 9 none none server).1

pub publish_returns : publish memory request 9 none none server ≡ (ok tt, after_publish)
unfolding publish openevent.Core.Publish.check_publish openevent.Core.State.ensure_available
    openevent.Core.State.check_rpc_active openevent.Core.State.snapshot_now create_snapshot
    openevent.Core.Publish.authenticate openevent.Storage.Reads.has_token openevent.Common.bytes_eq
    openevent.Storage.Keys.token_key openevent.Storage.Encoding.encode_uint64
    openevent.Core.Publish.validate_available_uuid openevent.Storage.Reads.get_next_uuid
    openevent.Storage.Reads.get_required_uint64 openevent.Storage.Keys.decode_required_uint64
    openevent.Storage.Encoding.decode_uint64 openevent.Storage.Reads.get_used_uuid_seq
    openevent.Core.Access.can_write openevent.Core.Access.constant_time_equals
    openevent.Core.Access.is_member openevent.Core.Access.system_channel
    openevent.Core.Access.validate_object_keys_shape openevent.Core.Access.validate_payload_size
    openevent.Core.Access.validate_recipients openevent.Core.Publish.build_and_commit
    openevent.Core.Publish.build_publish_batch check_capabilities
    openevent.Core.Publish.check_object_keys openevent.Core.Publish.check_target
    openevent.Core.Publish.distinct_ids openevent.Core.Publish.load_channel
    openevent.Core.Publish.load_objects openevent.Core.Publish.message_batch
    openevent.Core.Publish.object_at openevent.Core.Publish.publish_checked
    openevent.Core.Publish.refuse_if_used openevent.Core.Publish.require_channel
    openevent.Core.State.commit_batch openevent.Core.State.fatal_storage_error
    openevent.Core.State.raise_storage openevent.Status.rocks_to_status
    openevent.Storage.Encoding.decode_loop openevent.Storage.Encoding.encode_loop
    openevent.Storage.Faults.inject_storage_fault openevent.Storage.Keys.numeric_key
    openevent.Storage.Reads.get_channel openevent.Storage.Reads.get_committed_objects
    openevent.Storage.Reads.get_max_seq openevent.Storage.Reads.get_object
    openevent.Storage.Reads.parse_channel openevent.Storage.Records.is_base64_url_token
    openevent.Storage.Records.is_token_char openevent.Storage.Records.is_valid_record
    openevent.Storage.Records.parse_object openevent.Storage.Records.valid_stored_channel
    openevent.Storage.State.commit openevent.Storage.State.committed
    openevent.Storage.Writes.put_message openevent.Storage.Writes.put_used_uuid
    openevent.Storage.Writes.set_max_seq openevent.Examples.Memory.compare_bytes
    openevent.Examples.Memory.order_of
publish_returns = refl

publish-Extends_example : Extends memory request 2 9 (stored server) (stored after_publish)
publish-Extends_example =
    publish-Extends memory memory-Lawful request 9 none none server after_publish (omega arith)
      publish_returns

abbrev pub after_auto_publish : Core memory
after_auto_publish = (publish_auto_seq memory request 9 none none server).1

pub publish_auto_seq_returns :
    publish_auto_seq memory request 9 none none server ≡ (ok 2, after_auto_publish)
unfolding publish_auto_seq openevent.Core.Publish.check_publish
    openevent.Core.State.ensure_available openevent.Core.State.check_rpc_active
    openevent.Core.State.snapshot_now create_snapshot openevent.Core.Publish.authenticate
    openevent.Storage.Reads.has_token openevent.Common.bytes_eq openevent.Storage.Keys.token_key
    openevent.Storage.Encoding.encode_uint64 openevent.Core.Publish.validate_available_uuid
    openevent.Storage.Reads.get_next_uuid openevent.Storage.Reads.get_required_uint64
    openevent.Storage.Keys.decode_required_uint64 openevent.Storage.Encoding.decode_uint64
    openevent.Storage.Reads.get_used_uuid_seq openevent.Core.Access.can_write
    openevent.Core.Access.constant_time_equals openevent.Core.Access.is_member
    openevent.Core.Access.system_channel openevent.Core.Access.validate_object_keys_shape
    openevent.Core.Access.validate_payload_size openevent.Core.Access.validate_recipients
    openevent.Core.Publish.build_and_commit openevent.Core.Publish.build_publish_batch
    check_capabilities openevent.Core.Publish.check_object_keys openevent.Core.Publish.check_target
    openevent.Core.Publish.distinct_ids openevent.Core.Publish.load_channel
    openevent.Core.Publish.load_objects openevent.Core.Publish.message_batch
    openevent.Core.Publish.object_at openevent.Core.Publish.publish_auto_checked
    openevent.Core.Publish.refuse_if_used openevent.Core.Publish.require_channel
    openevent.Core.State.commit_batch openevent.Core.State.fatal_storage_error
    openevent.Core.State.raise_storage openevent.Status.rocks_to_status
    openevent.Storage.Encoding.decode_loop openevent.Storage.Encoding.encode_loop
    openevent.Storage.Faults.inject_storage_fault openevent.Storage.Keys.numeric_key
    openevent.Storage.Reads.get_channel openevent.Storage.Reads.get_committed_objects
    openevent.Storage.Reads.get_max_seq openevent.Storage.Reads.get_object
    openevent.Storage.Reads.parse_channel openevent.Storage.Records.is_base64_url_token
    openevent.Storage.Records.is_token_char openevent.Storage.Records.is_valid_record
    openevent.Storage.Records.parse_object openevent.Storage.Records.valid_stored_channel
    openevent.Storage.State.commit openevent.Storage.State.committed
    openevent.Storage.Writes.put_message openevent.Storage.Writes.put_used_uuid
    openevent.Storage.Writes.set_max_seq openevent.Examples.Memory.compare_bytes
    openevent.Examples.Memory.order_of
publish_auto_seq_returns = refl

publish_auto_seq-Extends_example :
    Extends memory request 2 9 (stored server) (stored after_auto_publish)
publish_auto_seq-Extends_example =
    publish_auto_seq-Extends memory memory-Lawful request 9 none none 2 server after_auto_publish
      (omega arith) publish_auto_seq_returns

publishing-IsReadable_example :
    IsReadable memory (message_of memory request 2 9) (stored after_auto_publish)
publishing-IsReadable_example =
    publishing-IsReadable memory memory-Lawful request 9 none none 2 server after_auto_publish
      (inr publish_auto_seq_returns)

capabilities_return :
    check_capabilities memory server.storage.db request.object_keys server ≡ (ok tt, server)
unfolding check_capabilities openevent.Core.Publish.load_objects
    openevent.Storage.Reads.get_committed_objects openevent.Core.Publish.distinct_ids
    openevent.Storage.Reads.get_object openevent.Common.bytes_eq openevent.Storage.Keys.numeric_key
    openevent.Storage.Encoding.encode_uint64 openevent.Storage.Records.parse_object
    openevent.Storage.Records.is_valid_record openevent.Storage.Records.is_base64_url_token
    openevent.Storage.Records.is_token_char openevent.Core.Publish.check_object_keys
    openevent.Core.Publish.object_at openevent.Core.Access.constant_time_equals
    openevent.Examples.Memory.compare_bytes openevent.Examples.Memory.order_of
capabilities_return = refl

check_capabilities-ok_example :
    (server ≡ server) × All (IsCapability memory server.storage.db) request.object_keys
check_capabilities-ok_example =
    check_capabilities-ok memory memory-Lawful server.storage.db request.object_keys server server
      capabilities_return

publishing-IsAtomic_example :
    IsAtomic (publish memory request 9 none none)
    × IsAtomic (publish_auto_seq memory request 9 none none)
publishing-IsAtomic_example = publishing-IsAtomic memory request 9 none none

publish-IsAuthorized_example : IsAuthorized memory request server
publish-IsAuthorized_example =
    publish-IsAuthorized memory memory-Lawful request 9 none none server after_publish
      publish_returns
