-- ===== src/Proto.antt =====
-- The protobuf messages that the program handles. Their schema is a git submodule; the fields here
-- are the accessors that src/ uses, and serialisation is a parameter.
use openevent.Common.{ℕ, ◌≡◌, Bool, false, Option, none, some, List, Bytes, ◌==◌}

-- A proto3 enum is open: other values can arrive.
pub data Visibility : Type 0 where
  visibility_public visibility_protected visibility_private : Visibility
  visibility_other : ℕ → Visibility

pub data ChannelFilter : Type 0 where
  filter_all filter_joined filter_owned : ChannelFilter
  filter_other : ℕ → ChannelFilter

pub record ObjectKey : Type 0 where
  pub object_id : ℕ
  pub object_token : Bytes

pub record EventMessage : Type 0 where
  pub seq : ℕ
  pub channel_id : ℕ
  pub principal : ℕ
  pub recipients : List ℕ
  pub payload : Bytes
  pub ts_ms : ℕ
  pub uuid : ℕ
  pub object_keys : List ObjectKey

pub record ChannelInfo : Type 0 where
  pub channel_id : ℕ
  pub name : Bytes
  pub visibility : Visibility
  pub protocol : Bytes
  pub description : Bytes
  pub creator : Option ℕ
  pub members : List ℕ

-- `creator()`, which is 0 where `has_creator()` is false.
abbrev pub creator_or_zero : ChannelInfo → ℕ
creator_or_zero c = elim c.creator [ none ↦ 0 | some p ↦ p ]

-- `has_creator() && creator() == principal`.
abbrev pub is_created_by : Option ℕ → ℕ → Bool
is_created_by none principal = false
is_created_by (some p) principal = p == principal

-- `SerializeToString` and `ParseFromString`.
pub record Codec (A : Type 0) : Type 0 where
  pub serialize : A → Option Bytes
  pub parse : Bytes → Option A

-- What was serialised parses back.
abbrev pub Inverts : {A : Type 0} → Codec A → Type 0
Inverts {A} c = (a : A) (b : Bytes) → c.serialize a ≡ some b → c.parse b ≡ some a
