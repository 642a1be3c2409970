-- ===== src/Storage/Records.antt =====
-- The stored records of src/storage/unified_storage.cpp and their validation.
pub mod Laws
use openevent.Common.{
  ℕ, Bool, true, false, not, ◌&&◌, ◌||◌, Option, none, some, List, [], ◌∷◌, Bytes, length, is_empty,
  all, elem, leb, ltb, ◌==◌, ◌*◌, if◌then◌else◌,
}
use openevent.Status.{Result, ok, fail, error, internal, corruption}
use openevent.Proto.{ChannelInfo, ObjectKey, Visibility, Codec, creator_or_zero}

abbrev pub object_token_encoded_bytes : ℕ
object_token_encoded_bytes = 43

abbrev pub max_object_name_bytes : ℕ
max_object_name_bytes = 255

abbrev pub max_object_type_bytes : ℕ
max_object_type_bytes = 255

abbrev pub max_object_description_bytes : ℕ
max_object_description_bytes = 4096

abbrev pub max_object_bytes : ℕ
max_object_bytes = 4 * 1024 * 1024

abbrev pub max_object_keys : ℕ
max_object_keys = 1024

pub record StoredObject : Type 0 where
  pub object_id : ℕ
  pub object_token : Bytes
  pub creator_principal : ℕ
  pub name : Bytes
  pub type : Bytes
  pub description : Bytes
  pub nbytes : ℕ

-- The message of src/storage/object_record.proto.
pub record ObjectRecord : Type 0 where
  pub object_id : ℕ
  pub object_token : Bytes
  pub creator_principal : ℕ
  pub name : Bytes
  pub type : Bytes
  pub description : Bytes
  pub nbytes : ℕ

unfoldable pub is_token_char : ℕ → Bool
is_token_char ch =
    (leb b'A' ch && leb ch b'Z')
    || (leb b'a' ch && leb ch b'z')
    || (leb b'0' ch && leb ch b'9')
    || ch == b'-'
    || ch == b'_'

unfoldable pub is_base64_url_token : Bytes → Bool
is_base64_url_token token = length token == object_token_encoded_bytes && all is_token_char token

abbrev record_of : StoredObject → ObjectRecord
record_of object = record {
  object_id = object.object_id;
  object_token = object.object_token;
  creator_principal = object.creator_principal;
  name = object.name;
  type = object.type;
  description = object.description;
  nbytes = object.nbytes;
}

abbrev object_of : ObjectRecord → StoredObject
object_of r = record {
  object_id = r.object_id;
  object_token = r.object_token;
  creator_principal = r.creator_principal;
  name = r.name;
  type = r.type;
  description = r.description;
  nbytes = r.nbytes;
}

module _ (codec : Codec ObjectRecord) where
  unfoldable pub serialize_object : StoredObject → Result Bytes
  serialize_object object = elim (codec.serialize (record_of object)) [
    | none ↦ fail (error internal "serialize object metadata failed")
    | some payload ↦ ok payload
  ]

-- The fields that `ParseObject` accepts under the key of `expected_id`.
unfoldable pub is_valid_record : ObjectRecord → ℕ → Bool
is_valid_record r expected_id =
    r.object_id == expected_id
    && not (expected_id == 0)
    && is_base64_url_token r.object_token
    && not (r.creator_principal == 0)
    && not (is_empty r.name)
    && leb (length r.name) max_object_name_bytes
    && not (is_empty r.type)
    && leb (length r.type) max_object_type_bytes
    && leb (length r.description) max_object_description_bytes
    && not (r.nbytes == 0)
    && leb r.nbytes max_object_bytes

abbrev invalid_object {ℓ} : {A : Type ℓ} → Result A
invalid_object = fail (corruption "decode object metadata" "invalid stored object metadata")

module _ (codec : Codec ObjectRecord) where
  unfoldable pub parse_object : Bytes → ℕ → Result StoredObject
  parse_object payload expected_id = elim (codec.parse payload) [
    | none ↦ invalid_object
    | some r ↦ if is_valid_record r expected_id then ok (object_of r) else invalid_object
  ]

abbrev has_valid_creator : Option ℕ → Bool
has_valid_creator none = false
has_valid_creator (some p) = not (p == 0)

-- `valid` is `Visibility_IsValid`, which protoc generates.
unfoldable pub valid_stored_channel : (Visibility → Bool) → ChannelInfo → Bool
valid_stored_channel valid channel =
    not (channel.channel_id == 0)
    && has_valid_creator channel.creator
    && not (is_empty channel.name)
    && leb (length channel.name) 255
    && leb (length channel.protocol) 255
    && leb (length channel.description) 4096
    && valid channel.visibility
    && elem (creator_or_zero channel) channel.members
    && not (elem 0 channel.members)
