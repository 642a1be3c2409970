-- ===== src/Storage/Reads.antt =====
-- The reads of `UnifiedStorage` that look at one snapshot (src/storage/unified_storage.cpp).
pub mod Views
use openevent.Common.{
  ℕ, Bool, true, false, not, ◌&&◌, ◌||◌, Option, none, some, List, [], ◌∷◌, ◌++◌, String, Bytes,
  is_empty, ◌==◌, if◌then◌else◌,
}
use openevent.Status.{
  Result, ok, fail, Text, text, RocksError, rocks_to_status, corruption, storage_corruption, ◌>>=◌,
}
use openevent.Proto.{ChannelInfo, Codec}
use openevent.Platform.{Platform}
use openevent.Storage.Keys.{
  numeric_key, token_key, max_seq_key, next_uuid_key, next_channel_id_key, next_object_id_key,
  schema_version_key, channel_prefix, uuid_prefix, preparing_object_prefix, committed_object_prefix,
  decode_required_uint64, decode_numeric_key, starts_with,
}
use openevent.Storage.Records.{StoredObject, parse_object, valid_stored_channel}
use openevent.Storage.Rocks.{Lookup, found, absent, broken, Cursor}
use openevent.Storage.Rocks.Updates.{Cf, meta, messages, objects}

abbrev different : Bool → Bool → Bool
different true b = not b
different false b = b

module _ (p : Platform) where
  unfoldable pub get_required_uint64 : p.rocks.Snapshot → Bytes → String → Result ℕ
  get_required_uint64 snapshot key name = elim (p.rocks.get snapshot meta key) [
    | absent ↦ fail (
        storage_corruption (text "read " ∷ text name ∷ [])
          (text "missing required storage key: " ∷ text name ∷ []))
    | broken s ↦ fail (rocks_to_status s (text "read " ∷ text name ∷ []))
    | found value ↦ decode_required_uint64 value name
  ]

  unfoldable pub get_max_seq : p.rocks.Snapshot → Result ℕ
  get_max_seq snapshot = get_required_uint64 snapshot max_seq_key "meta:max_seq"

  unfoldable pub get_next_uuid : p.rocks.Snapshot → Result ℕ
  get_next_uuid snapshot = get_required_uint64 snapshot next_uuid_key "meta:next_uuid"

  unfoldable pub get_next_channel_id : p.rocks.Snapshot → Result ℕ
  get_next_channel_id snapshot =
      get_required_uint64 snapshot next_channel_id_key "meta:next_channel_id"

  unfoldable pub get_next_object_id : p.rocks.Snapshot → Result ℕ
  get_next_object_id snapshot =
      get_required_uint64 snapshot next_object_id_key "meta:next_object_id"

  unfoldable pub get_used_uuid_seq : p.rocks.Snapshot → ℕ → Result (Option ℕ)
  get_used_uuid_seq snapshot uuid =
      elim (p.rocks.get snapshot meta (numeric_key uuid_prefix uuid)) [
        | absent ↦ ok none
        | broken s ↦ fail (rocks_to_status s (text "read used uuid" ∷ []))
        | found value ↦ do
          seq ← decode_required_uint64 value "used uuid"
          if different (uuid == 0) (seq == 0)
              then fail (corruption "read used uuid" "invalid stored UUID mapping")
              else ok (some seq)
      ]

  unfoldable pub has_token : p.rocks.Snapshot → ℕ → Bytes → Result Bool
  has_token snapshot principal token =
      elim (p.rocks.get snapshot meta (token_key principal token)) [
        | absent ↦ ok false
        | broken s ↦ fail (rocks_to_status s (text "read credential" ∷ []))
        | found value ↦
            if is_empty value
            then ok true
            else fail (corruption "read credential" "invalid stored credential")
      ]

  -- The checks that `GetChannel` and `ListChannels` make of a stored channel.
  unfoldable pub parse_channel : String → Bytes → ℕ → Result ChannelInfo
  parse_channel operation value channel_id = elim (p.channel_infos.parse value) [
    | none ↦ fail (corruption operation "invalid stored channel")
    | some channel ↦
        if not (channel.channel_id == channel_id)
          || not (valid_stored_channel p.visibility_is_valid channel)
        then fail (corruption operation "invalid stored channel")
        else ok channel
  ]

  unfoldable pub get_channel : p.rocks.Snapshot → ℕ → Result (Option ChannelInfo)
  get_channel snapshot channel_id =
      elim (p.rocks.get snapshot meta (numeric_key channel_prefix channel_id)) [
        | absent ↦ ok none
        | broken s ↦ fail (rocks_to_status s (text "read channel" ∷ []))
        | found value ↦ do
          channel ← parse_channel "read channel" value channel_id
          ok (some channel)
      ]

  -- The loop of `ListChannels` over the entries of the iterator.
  unfoldable pub list_channels_loop :
      List (Bytes × Bytes) → Option RocksError → List ChannelInfo → Result (List ChannelInfo)
  list_channels_loop [] none channels = ok channels
  list_channels_loop [] (some s) channels = fail (rocks_to_status s (text "list channels" ∷ []))
  list_channels_loop ((key, value) ∷ rest) at_end channels =
      if starts_with key channel_prefix
      then (do
        channel_id ← decode_numeric_key key channel_prefix "channel"
        channel ← parse_channel "list channels" value channel_id
        list_channels_loop rest at_end (channels ++ channel ∷ []))
      else ok channels

  unfoldable pub list_channels : p.rocks.Snapshot → Result (List ChannelInfo)
  unfolding list_channels_loop
  list_channels snapshot =
      let it = p.rocks.seek snapshot meta channel_prefix in
      list_channels_loop it.entries it.at_end []

  unfoldable pub get_object : p.rocks.Snapshot → Bytes → ℕ → Result (Option StoredObject)
  get_object snapshot prefix object_id =
      elim (p.rocks.get snapshot objects (numeric_key prefix object_id)) [
        | absent ↦ ok none
        | broken s ↦ fail (rocks_to_status s (text "read object metadata" ∷ []))
        | found value ↦ do object ← parse_object p.object_records value object_id; ok (some object)
      ]

  unfoldable pub get_preparing_object : p.rocks.Snapshot → ℕ → Result (Option StoredObject)
  get_preparing_object snapshot = get_object snapshot preparing_object_prefix

  unfoldable pub get_committed_object : p.rocks.Snapshot → ℕ → Result (Option StoredObject)
  get_committed_object snapshot = get_object snapshot committed_object_prefix

  -- `MultiGet` returns a status for each key, and the loop stops at the first that is an error.
  unfoldable pub get_committed_objects :
      p.rocks.Snapshot → List ℕ → Result (List (Option StoredObject))
  get_committed_objects snapshot [] = ok []
  get_committed_objects snapshot (object_id ∷ rest) = do
    object ← get_object snapshot committed_object_prefix object_id
    others ← get_committed_objects snapshot rest
    ok (object ∷ others)

  -- `ListPreparingObjects`.
  unfoldable pub list_preparing_loop :
      List (Bytes × Bytes) → Option RocksError → List StoredObject → Result (List StoredObject)
  list_preparing_loop [] none found_objects = ok found_objects
  list_preparing_loop [] (some s) found_objects =
      fail (rocks_to_status s (text "list preparing objects" ∷ []))
  list_preparing_loop ((key, value) ∷ rest) at_end found_objects =
      if starts_with key preparing_object_prefix
      then (do
        object_id ← decode_numeric_key key preparing_object_prefix "preparing object"
        object ← parse_object p.object_records value object_id
        list_preparing_loop rest at_end (found_objects ++ object ∷ []))
      else ok found_objects

  unfoldable pub list_preparing_objects : p.rocks.Db → Result (List StoredObject)
  unfolding list_preparing_loop
  list_preparing_objects d =
      let it = p.rocks.seek_latest d objects preparing_object_prefix in
      list_preparing_loop it.entries it.at_end []
