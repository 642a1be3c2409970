-- ===== src/Platform.antt =====
-- What the storage and the service call: RocksDB, protobuf serialisation and the JSON reader of
-- protobuf, which are not in the repository, and the object files. Every model that calls them
-- takes a `Platform`.
use openevent.Common.{ℕ, ◌≡◌, ◌↔◌, length, Bool, true, Option, List, Bytes}
use openevent.Proto.{EventMessage, ChannelInfo, Visibility, Codec, Inverts}
use openevent.Proto.{visibility_public, visibility_protected, visibility_private}
use openevent.Storage.Records.{ObjectRecord}
use openevent.Storage.ObjectFiles.{ObjectFiles}
use openevent.Storage.Rocks.{Rocks, RocksLaws}

-- `google::protobuf::Value::kind_case`, with the value of the kinds that the program looks at.
pub data Kind (Number Struct Value : Type 0) : Type 0 where
  number_value : Number → Kind Number Struct Value
  string_value : Bytes → Kind Number Struct Value
  struct_value : Struct → Kind Number Struct Value
  list_value : List Value → Kind Number Struct Value
  other_value : Kind Number Struct Value

-- `JsonStringToMessage` into a `Struct`, and the accessors of what it returns. A number is a
-- `double`, of which the program asks four questions.
pub record Json : Type 1 where
  pub Number : Type 0
  pub Struct : Type 0
  pub Value : Type 0
  pub read : Bytes → Option Struct
  pub field : Struct → Bytes → Option Value
  pub kind : Value → Kind Number Struct Value
  pub is_one : Number → Bool
  pub is_positive : Number → Bool
  pub is_integral : Number → Bool
  pub is_at_most_u64_max : Number → Bool

pub record Platform : Type 1 where
  pub rocks : Rocks
  pub event_messages : Codec EventMessage
  pub channel_infos : Codec ChannelInfo
  pub object_records : Codec ObjectRecord
  pub visibility_is_valid : Visibility → Bool
  -- `ByteSizeLong`.
  pub byte_size : EventMessage → ℕ
  pub json : Json
  -- `CRYPTO_memcmp` of OpenSSL.
  pub crypto_memcmp : Bytes → Bytes → ℕ → ℕ
  pub object_files : ObjectFiles

-- The documented behaviour that the theorems rely on.
pub record Lawful (p : Platform) : Type 0 where
  pub rocks : RocksLaws p.rocks
  pub event_messages : Inverts p.event_messages
  pub channel_infos : Inverts p.channel_infos
  pub object_records : Inverts p.object_records
  pub public_is_valid : p.visibility_is_valid visibility_public ≡ true
  pub protected_is_valid : p.visibility_is_valid visibility_protected ≡ true
  pub private_is_valid : p.visibility_is_valid visibility_private ≡ true
  -- Of two ranges of one length, it returns 0 exactly if they are equal.
  pub crypto_memcmp_equal :
      (a b : Bytes) → length a ≡ length b → (p.crypto_memcmp a b (length a) ≡ 0) ↔ (a ≡ b)
