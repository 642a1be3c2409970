-- ===== src/Core/Access.antt =====
-- The checks of `OpenEventCore` that look at values only (src/service/open_event_core.cpp).
use openevent.Common.{
  ℕ, Bool, true, false, not, ◌&&◌, ◌||◌, none, List, [], ◌∷◌, Bytes, codes, elem, is_empty, length,
  any, ltb, leb, ◌==◌, bytes_eq, if◌then◌else◌,
}
use openevent.Status.{
  Status, success, fail, error, status, text, number, invalid_argument, resource_exhausted,
}
use openevent.Proto.{
  ChannelInfo, EventMessage, ObjectKey, Visibility, ChannelFilter, visibility_public,
  visibility_protected, visibility_private, visibility_other, filter_all, filter_joined,
  filter_owned, filter_other,
}
use openevent.Platform.{Platform}
use openevent.Storage.Records.{max_object_keys, StoredObject}

abbrev pub max_uuid_batch : ℕ
max_uuid_batch = 1024

abbrev pub max_channel_members : ℕ
max_channel_members = 1024

-- `Contains`, and with it `IsMember` and `HasRecipient`.
unfoldable pub is_member : ChannelInfo → ℕ → Bool
is_member channel principal = elem principal channel.members

unfoldable pub has_recipient : EventMessage → ℕ → Bool
has_recipient message principal = elem principal message.recipients

abbrev is_open_to_readers : Visibility → Bool
is_open_to_readers visibility_public = true
is_open_to_readers visibility_protected = true
is_open_to_readers _ = false

abbrev is_open_to_writers : Visibility → Bool
is_open_to_writers visibility_public = true
is_open_to_writers _ = false

unfoldable pub can_read : ChannelInfo → ℕ → Bool
can_read channel principal =
    if channel.channel_id == 0
    then true
    else if is_open_to_readers channel.visibility
    then true
    else is_member channel principal

unfoldable pub can_write : ChannelInfo → ℕ → Bool
can_write channel principal =
    if channel.channel_id == 0
    then false
    else if is_open_to_writers channel.visibility
    then true
    else is_member channel principal

unfoldable pub validate_recipients : ChannelInfo → List ℕ → Status
validate_recipients channel [] = success
validate_recipients channel (recipient ∷ rest) =
    if elem recipient channel.members
    then validate_recipients channel rest
    else fail (error invalid_argument "recipient must be channel member")

unfoldable pub system_channel : ChannelInfo
system_channel = record {
  channel_id = 0;
  name = codes "system";
  visibility = visibility_protected;
  protocol = codes "system.v1";
  description = [];
  creator = none;
  members = [];
}

unfoldable pub validate_visibility : Visibility → Status
validate_visibility visibility_public = success
validate_visibility visibility_protected = success
validate_visibility visibility_private = success
validate_visibility (visibility_other n) = fail (error invalid_argument "invalid visibility")

unfoldable pub validate_filter : ChannelFilter → Status
validate_filter filter_all = success
validate_filter filter_joined = success
validate_filter filter_owned = success
validate_filter (filter_other n) = fail (error invalid_argument "invalid channel filter")

unfoldable pub validate_payload_size : ℕ → Bytes → Status
validate_payload_size max_payload_bytes payload =
    if leb (length payload) max_payload_bytes
    then success
    else fail (
        status resource_exhausted (
          text "payload exceeds limits.max_payload_bytes ("
          ∷ number (length payload)
          ∷ text " > "
          ∷ number max_payload_bytes
          ∷ text ")"
          ∷ []))

abbrev is_shapeless : ObjectKey → Bool
is_shapeless k = k.object_id == 0 || is_empty k.object_token

unfoldable pub validate_object_keys_shape : List ObjectKey → Status
validate_object_keys_shape object_keys =
    if ltb max_object_keys (length object_keys)
    then fail (error invalid_argument "object_keys must contain at most 1024 items")
    else if any is_shapeless object_keys
    then fail (
        error invalid_argument
          "each ObjectKey requires nonzero object_id and nonempty object_token")
    else success

-- `ObjectFileStore::ConstantTimeEquals`.
unfoldable pub constant_time_equals : Platform → Bytes → Bytes → Bool
constant_time_equals p left right =
    if not (length left == length right)
    then false
    else p.crypto_memcmp left right (length left) == 0

unfoldable pub same_object : StoredObject → StoredObject → Bool
same_object left right =
    left.object_id == right.object_id
    && bytes_eq left.object_token right.object_token
    && left.creator_principal == right.creator_principal
    && bytes_eq left.name right.name
    && bytes_eq left.type right.type
    && bytes_eq left.description right.description
    && left.nbytes == right.nbytes
