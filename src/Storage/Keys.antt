-- ===== src/Storage/Keys.antt =====
-- The keys of src/storage/unified_storage.cpp.
pub mod Laws
pub mod Distinct
use openevent.Common.{
  ℕ, ◌+◌, Bool, true, false, List, [], ◌∷◌, ◌++◌, String, Bytes, codes, length, drop, ◌==◌, ◌&&◌,
  if◌then◌else◌,
}
use openevent.Status.{Result, ok, fail, text, storage_corruption}
use openevent.Storage.Encoding.{encode_uint64, decode_uint64}

abbrev pub schema_version_key : Bytes
schema_version_key = codes "meta:schema_version"

abbrev pub max_seq_key : Bytes
max_seq_key = codes "meta:max_seq"

abbrev pub next_uuid_key : Bytes
next_uuid_key = codes "meta:next_uuid"

abbrev pub next_channel_id_key : Bytes
next_channel_id_key = codes "meta:next_channel_id"

abbrev pub next_object_id_key : Bytes
next_object_id_key = codes "meta:next_object_id"

abbrev pub channel_prefix : Bytes
channel_prefix = codes "ch/"

abbrev pub token_prefix : Bytes
token_prefix = codes "token/"

abbrev pub message_prefix : Bytes
message_prefix = codes "msg/"

abbrev pub uuid_prefix : Bytes
uuid_prefix = codes "uuid/"

abbrev pub preparing_object_prefix : Bytes
preparing_object_prefix = codes "preparing/"

abbrev pub committed_object_prefix : Bytes
committed_object_prefix = codes "object/"

unfoldable pub numeric_key : Bytes → ℕ → Bytes
numeric_key prefix value = prefix ++ encode_uint64 value

unfoldable pub token_key : ℕ → Bytes → Bytes
unfolding numeric_key
token_key principal token = numeric_key token_prefix principal ++ token

-- `Slice::starts_with`, and the `memcmp` of `DecodeNumericKey`.
unfoldable pub starts_with : Bytes → Bytes → Bool
starts_with key [] = true
starts_with [] (p ∷ ps) = false
starts_with (c ∷ key) (p ∷ ps) = c == p && starts_with key ps

unfoldable pub decode_required_uint64 : Bytes → String → Result ℕ
decode_required_uint64 value description =
    if length value == 8
    then ok (decode_uint64 value)
    else fail (
        storage_corruption (text "decode " ∷ text description ∷ [])
          (text "invalid " ∷ text description ∷ text " encoding" ∷ []))

unfoldable pub decode_numeric_key : Bytes → Bytes → String → Result ℕ
unfolding starts_with
decode_numeric_key key prefix description =
    if length key == length prefix + 8 && starts_with key prefix
    then ok (decode_uint64 (drop (length prefix) key))
    else fail (
        storage_corruption (text "decode " ∷ text description ∷ [])
          (text "invalid " ∷ text description ∷ text " key" ∷ []))
