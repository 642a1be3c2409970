-- ===== src/Examples/Uploads.antt =====
-- The theorem on writing an object at a server in memory.
use openevent.Common.{ℕ, ◌≡◌, refl, false, none, [], ◌∷◌, Bytes, codes, arith}
use openevent.Status.{ok}
use openevent.Core.State.{Core}
use openevent.Core.State.Inversion.{stored}
use openevent.Core.Objects.{WriteObjectRequest, write_object, invalid_object_request, prepared}
use openevent.Core.Objects.Prepared.{Prepares}
use openevent.Core.Objects.Written.{Finishes, write_object-Committed}
use openevent.Examples.Fixtures.{server, object_token}
use openevent.Examples.Memory.{memory, memory-Lawful}

abbrev upload : WriteObjectRequest
upload = record {
  principal = 1;
  token = codes "tok";
  name = codes "b";
  type = codes "t";
  description = [];
  content = 1 ∷ 2 ∷ [];
}

abbrev after_upload : Core memory
after_upload = (write_object memory (λ c. c) upload (ok object_token) server).1

write_object_returns :
    write_object memory (λ c. c) upload (ok object_token) server
    ≡ (ok (2, object_token), after_upload)
unfolding write_object openevent.Core.State.ensure_available invalid_object_request
    openevent.Core.Objects.prepare_object openevent.Core.State.snapshot_now
    openevent.Storage.State.create_snapshot openevent.Core.Publish.authenticate
    openevent.Storage.Reads.has_token openevent.Common.bytes_eq openevent.Storage.Keys.token_key
    openevent.Storage.Encoding.encode_uint64 openevent.Storage.Reads.get_next_object_id
    openevent.Storage.Reads.get_required_uint64 openevent.Storage.Keys.decode_required_uint64
    openevent.Storage.Writes.put_preparing_object openevent.Storage.Records.serialize_object
    openevent.Storage.Writes.set_next_object_id openevent.Core.Access.same_object
    openevent.Core.Objects.cleanup_object_files openevent.Core.Objects.cleanup_preparing_object
    openevent.Core.Objects.commit_object openevent.Core.Objects.commit_prepared
    openevent.Core.Objects.conclude openevent.Core.Objects.finish_object prepared
    openevent.Core.Objects.write_object_file openevent.Core.State.commit_batch
    openevent.Core.State.fatal_storage_error openevent.Core.State.raise_storage
    openevent.Status.rocks_to_status openevent.Storage.Encoding.decode_loop
    openevent.Storage.Encoding.decode_uint64 openevent.Storage.Encoding.encode_loop
    openevent.Storage.Faults.inject_storage_fault openevent.Storage.Keys.numeric_key
    openevent.Storage.Reads.get_object openevent.Storage.Reads.get_preparing_object
    openevent.Storage.Records.is_base64_url_token openevent.Storage.Records.is_token_char
    openevent.Storage.Records.is_valid_record openevent.Storage.Records.parse_object
    openevent.Storage.State.commit openevent.Storage.State.committed
    openevent.Storage.Writes.delete_preparing_object openevent.Storage.Writes.put_committed_object
write_object_returns = refl

write_object-Committed_example :
    (invalid_object_request upload ≡ false)
    × (ok object_token ≡ ok object_token)
    × (c₁ : Core memory) × (c₁.storage.files ≡ server.storage.files)
    × Prepares memory upload (prepared memory upload object_token 2) (stored server) (stored c₁)
    × Finishes memory (λ c. c) upload (prepared memory upload object_token 2) c₁ after_upload
write_object-Committed_example =
    write_object-Committed memory memory-Lawful (λ c. c) upload (ok object_token) 2 object_token
      server after_upload (omega arith) write_object_returns
