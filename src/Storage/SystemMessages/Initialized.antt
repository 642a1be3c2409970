-- ===== src/Storage/SystemMessages/Initialized.antt =====
-- The initialization message of this program, as its own validation reads it
-- (src/storage/unified_storage.cpp).
use openevent.Common.{◌≡◌, true, none, some, codes, bytes_eq, ℕ, arith}
use openevent.Platform.{Json, string_value, number_value, struct_value}
use openevent.Storage.SystemMessages.{
  initialization_message, valid_initialization_message, initialization_payload, initialization_data,
  as_string, as_struct, holds_one,
}

-- What the reader of JSON makes of one text: the fields that stand there, with their values, and no
-- others that the program asks for.
pub record ReadsInitialization (j : Json) : Type 0 where
  pub fields : j.Struct
  pub read_text :
      j.read (codes "{\"kind\":\"system.initialization\",\"data\":{\"schema_version\":1}}")
      ≡ some fields
  pub kind : j.Value
  pub kind_there : j.field fields (codes "kind") ≡ some kind
  pub kind_is : j.kind kind ≡ string_value (codes "system.initialization")
  pub data_value : j.Value
  pub data_there : j.field fields (codes "data") ≡ some data_value
  pub data_fields : j.Struct
  pub data_is : j.kind data_value ≡ struct_value data_fields
  pub version : j.Value
  pub version_there : j.field data_fields (codes "schema_version") ≡ some version
  pub number : j.Number
  pub version_is : j.kind version ≡ number_value number
  pub is_one : j.is_one number ≡ true
  pub no_seq : j.field fields (codes "seq") ≡ none
  pub no_channel_id : j.field fields (codes "channel_id") ≡ none
  pub no_principal : j.field fields (codes "principal") ≡ none
  pub no_uuid : j.field fields (codes "uuid") ≡ none

pub initialization-valid :
    (j : Json) (now_ms : ℕ)
    → ReadsInitialization j
    → valid_initialization_message j (initialization_message now_ms) ≡ true
unfolding valid_initialization_message initialization_message initialization_payload
    initialization_data bytes_eq
initialization-valid j now_ms r =
    let kind : as_string j (j.field r.fields (codes "kind"))
        ≡ some (codes "system.initialization") =
      ground (arith, r.kind_there, r.kind_is) in
    let data_are : as_struct j (j.field r.fields (codes "data")) ≡ some r.data_fields =
      ground (arith, r.data_there, r.data_is) in
    let version : holds_one j (j.field r.data_fields (codes "schema_version")) ≡ true =
      ground (arith, r.version_there, r.version_is, r.is_one) in
    ground (
      arith, r.read_text, kind, data_are, version, r.no_seq, r.no_channel_id, r.no_principal,
      r.no_uuid,
    )
