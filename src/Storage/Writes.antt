-- ===== src/Storage/Writes.antt =====
-- The updates that `UnifiedStorage` adds to a batch (src/storage/unified_storage.cpp). A batch is
-- passed in and returned with the update at its end.
use openevent.Common.{ℕ, ◌||◌, none, some, [], ◌∷◌, ◌++◌, Bytes, ◌==◌, if◌then◌else◌}
use openevent.Status.{Result, ok, fail, error, internal, invalid_argument, ◌>>=◌}
use openevent.Proto.{EventMessage, ChannelInfo}
use openevent.Platform.{Platform}
use openevent.Storage.Encoding.{encode_uint64}
use openevent.Storage.Keys.{
  numeric_key, token_key, max_seq_key, next_uuid_key, next_channel_id_key, next_object_id_key,
  channel_prefix, message_prefix, uuid_prefix, preparing_object_prefix, committed_object_prefix,
}
use openevent.Storage.Records.{StoredObject, serialize_object}
use openevent.Storage.Rocks.Updates.{Batch, put, delete, meta, messages, objects}

unfoldable pub set_max_seq : Batch → ℕ → Result Batch
set_max_seq batch seq = ok (batch ++ put meta max_seq_key (encode_uint64 seq) ∷ [])

unfoldable pub set_next_uuid : Batch → ℕ → Result Batch
set_next_uuid batch uuid =
    if uuid == 0
    then fail (error invalid_argument "next uuid must be nonzero")
    else ok (batch ++ put meta next_uuid_key (encode_uint64 uuid) ∷ [])

unfoldable pub put_used_uuid : Batch → ℕ → ℕ → Result Batch
put_used_uuid batch uuid seq =
    if uuid == 0 || seq == 0
    then fail (error invalid_argument "used uuid and seq must be nonzero")
    else ok (batch ++ put meta (numeric_key uuid_prefix uuid) (encode_uint64 seq) ∷ [])

unfoldable pub set_next_channel_id : Batch → ℕ → Result Batch
set_next_channel_id batch channel_id =
    ok (batch ++ put meta next_channel_id_key (encode_uint64 channel_id) ∷ [])

unfoldable pub set_next_object_id : Batch → ℕ → Result Batch
set_next_object_id batch object_id =
    ok (batch ++ put meta next_object_id_key (encode_uint64 object_id) ∷ [])

unfoldable pub put_token : Batch → ℕ → Bytes → Result Batch
put_token batch principal token = ok (batch ++ put meta (token_key principal token) [] ∷ [])

unfoldable pub delete_token : Batch → ℕ → Bytes → Batch
delete_token batch principal token = batch ++ delete meta (token_key principal token) ∷ []

unfoldable pub delete_preparing_object : Batch → ℕ → Batch
delete_preparing_object batch object_id =
    batch ++ delete objects (numeric_key preparing_object_prefix object_id) ∷ []

module _ (p : Platform) where
  unfoldable pub put_message : Batch → EventMessage → Result Batch
  put_message batch message = elim (p.event_messages.serialize message) [
    | none ↦ fail (error internal "serialize message failed")
    | some payload ↦
        ok (batch ++ put messages (numeric_key message_prefix message.seq) payload ∷ [])
  ]

  unfoldable pub put_channel : Batch → ChannelInfo → Result Batch
  put_channel batch channel = elim (p.channel_infos.serialize channel) [
    | none ↦ fail (error internal "serialize channel failed")
    | some payload ↦
        ok (batch ++ put meta (numeric_key channel_prefix channel.channel_id) payload ∷ [])
  ]

  unfoldable pub put_preparing_object : Batch → StoredObject → Result Batch
  put_preparing_object batch object = do
    payload ← serialize_object p.object_records object
    ok (batch ++ put objects (numeric_key preparing_object_prefix object.object_id) payload ∷ [])

  unfoldable pub put_committed_object : Batch → StoredObject → Result Batch
  put_committed_object batch object = do
    payload ← serialize_object p.object_records object
    ok (
        batch
        ++ (delete objects (numeric_key preparing_object_prefix object.object_id)
            ∷ put objects (numeric_key committed_object_prefix object.object_id) payload
            ∷ []))
