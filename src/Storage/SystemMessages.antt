-- ===== src/Storage/SystemMessages.antt =====
-- The system messages that the storage writes and accepts (src/storage/unified_storage.cpp).
pub mod Initialized
use openevent.Common.{
  ℕ, Bool, true, false, not, ◌&&◌, ◌||◌, Option, none, some, List, [], String, Bytes, codes,
  bytes_eq, is_empty, all, ◌==◌, if◌then◌else◌,
}
use openevent.Proto.{EventMessage}
use openevent.Platform.{Json, Kind, number_value, string_value, struct_value, list_value}

-- `now_ms` is the clock, already clamped at 0.
unfoldable pub initialization_message : ℕ → EventMessage
initialization_message now_ms = record {
  seq = 0;
  channel_id = 0;
  principal = 0;
  recipients = [];
  payload = codes "{\"kind\":\"system.initialization\",\"data\":{\"schema_version\":1}}";
  ts_ms = now_ms;
  uuid = 0;
  object_keys = [];
}

module _ (j : Json) where
  abbrev KindOf : Type 0
  KindOf = Kind j.Number j.Struct j.Value

  abbrev as_string : Option j.Value → Option Bytes
  as_string none = none
  as_string (some v) = elim (j.kind v) [ string_value s ↦ some s | _ ↦ none ]

  abbrev as_struct : Option j.Value → Option j.Struct
  as_struct none = none
  as_struct (some v) = elim (j.kind v) [ struct_value s ↦ some s | _ ↦ none ]

  abbrev as_list : Option j.Value → Option (List j.Value)
  as_list none = none
  as_list (some v) = elim (j.kind v) [ list_value l ↦ some l | _ ↦ none ]

  abbrev holds_one : Option j.Value → Bool
  holds_one none = false
  holds_one (some v) = elim (j.kind v) [ number_value n ↦ j.is_one n | _ ↦ false ]

  abbrev has : j.Struct → String → Bool
  has s name = elim (j.field s (codes name)) [ none ↦ false | some v ↦ true ]

  abbrev is_string : Option Bytes → String → Bool
  is_string none expected = false
  is_string (some s) expected = bytes_eq s (codes expected)

  initialization_data : j.Struct → Option j.Struct → Bool
  initialization_data fields none = false
  initialization_data fields (some data_fields) =
      holds_one (j.field data_fields (codes "schema_version"))
      && not (has fields "seq")
      && not (has fields "channel_id")
      && not (has fields "principal")
      && not (has fields "uuid")

  initialization_payload : Option j.Struct → Bool
  unfolding initialization_data
  initialization_payload none = false
  initialization_payload (some fields) =
      is_string (as_string (j.field fields (codes "kind"))) "system.initialization"
      && initialization_data fields (as_struct (j.field fields (codes "data")))

  unfoldable pub valid_initialization_message : EventMessage → Bool
  unfolding initialization_payload
  valid_initialization_message message =
      message.seq == 0
      && message.uuid == 0
      && message.principal == 0
      && message.channel_id == 0
      && is_empty message.recipients
      && is_empty message.object_keys
      && initialization_payload (j.read message.payload)

  -- A number that can be a principal.
  is_principal : j.Value → Bool
  is_principal v = elim (j.kind v) [
    | number_value n ↦ j.is_positive n && j.is_integral n && j.is_at_most_u64_max n
    | _ ↦ false
  ]

  is_principal_field : Option j.Value → Bool
  unfolding is_principal
  is_principal_field none = false
  is_principal_field (some v) = is_principal v

  abbrev is_some_string : Option Bytes → Bool
  is_some_string none = false
  is_some_string (some s) = true

  abbrev is_nonempty_principals : Option (List j.Value) → Bool
  is_nonempty_principals none = false
  is_nonempty_principals (some vs) = not (is_empty vs) && all is_principal vs

  abbrev is_string_field : j.Struct → String → Bool
  is_string_field s name = is_some_string (as_string (j.field s (codes name)))

  channel_initialized_data : j.Struct → Bool
  unfolding is_principal_field
  channel_initialized_data data_fields =
      let visibility = as_string (j.field data_fields (codes "visibility")) in
      is_string_field data_fields "name"
      && is_string_field data_fields "protocol"
      && is_string_field data_fields "description"
      && is_string_field data_fields "visibility"
      && (is_string visibility "public"
          || is_string visibility "protected"
          || is_string visibility "private")
      && is_principal_field (j.field data_fields (codes "creator"))
      && is_nonempty_principals (as_list (j.field data_fields (codes "members")))

  channel_system_data : Bytes → j.Struct → Bool
  unfolding channel_initialized_data
  channel_system_data kind data_fields =
      holds_one (j.field data_fields (codes "schema_version"))
      && (if bytes_eq kind (codes "system.member_added")
            || bytes_eq kind (codes "system.member_removed")
          then is_principal_field (j.field data_fields (codes "member"))
          else bytes_eq kind (codes "system.channel_initialized")
            && channel_initialized_data data_fields)

  channel_system_fields : j.Struct → Option Bytes → Option j.Struct → Bool
  unfolding channel_system_data
  channel_system_fields fields none data_fields = false
  channel_system_fields fields (some kind) none = false
  channel_system_fields fields (some kind) (some data_fields) =
      not (
        has fields "seq"
        || has fields "channel_id"
        || has fields "principal"
        || has fields "uuid"
        || has fields "ts_ms")
      && channel_system_data kind data_fields

  channel_system_payload : Option j.Struct → Bool
  unfolding channel_system_fields
  channel_system_payload none = false
  channel_system_payload (some fields) =
      channel_system_fields fields (as_string (j.field fields (codes "kind")))
        (as_struct (j.field fields (codes "data")))

  unfoldable pub valid_channel_system_message : EventMessage → Bool
  unfolding channel_system_payload
  valid_channel_system_message message =
      is_empty message.recipients
      && is_empty message.object_keys
      && channel_system_payload (j.read message.payload)
