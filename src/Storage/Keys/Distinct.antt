-- ===== src/Storage/Keys/Distinct.antt =====
-- Keys of different kinds are different, whatever their numbers: the front of a key tells its kind.
use openevent.Common.{ℕ, ◌≡◌, refl, false, Bytes, bytes_eq}
use openevent.Storage.Keys.{
  numeric_key, token_key, channel_prefix, uuid_prefix, max_seq_key, next_uuid_key,
  next_channel_id_key, preparing_object_prefix, committed_object_prefix,
}

module _ (n : ℕ) where
  pub uuid_ne_max_seq : bytes_eq (numeric_key uuid_prefix n) max_seq_key ≡ false
  unfolding bytes_eq numeric_key
  uuid_ne_max_seq = refl

  pub max_seq_ne_uuid : bytes_eq max_seq_key (numeric_key uuid_prefix n) ≡ false
  unfolding bytes_eq numeric_key
  max_seq_ne_uuid = refl

  pub next_uuid_ne_uuid : bytes_eq next_uuid_key (numeric_key uuid_prefix n) ≡ false
  unfolding bytes_eq numeric_key
  next_uuid_ne_uuid = refl

  pub uuid_ne_next_uuid : bytes_eq (numeric_key uuid_prefix n) next_uuid_key ≡ false
  unfolding bytes_eq numeric_key
  uuid_ne_next_uuid = refl

  pub uuid_ne_next_channel_id : bytes_eq (numeric_key uuid_prefix n) next_channel_id_key ≡ false
  unfolding bytes_eq numeric_key
  uuid_ne_next_channel_id = refl

  pub channel_ne_max_seq : bytes_eq (numeric_key channel_prefix n) max_seq_key ≡ false
  unfolding bytes_eq numeric_key
  channel_ne_max_seq = refl

  pub channel_ne_next_uuid : bytes_eq (numeric_key channel_prefix n) next_uuid_key ≡ false
  unfolding bytes_eq numeric_key
  channel_ne_next_uuid = refl

  pub channel_ne_next_channel_id :
      bytes_eq (numeric_key channel_prefix n) next_channel_id_key ≡ false
  unfolding bytes_eq numeric_key
  channel_ne_next_channel_id = refl

  pub max_seq_ne_channel : bytes_eq max_seq_key (numeric_key channel_prefix n) ≡ false
  unfolding bytes_eq numeric_key
  max_seq_ne_channel = refl

  pub next_uuid_ne_channel : bytes_eq next_uuid_key (numeric_key channel_prefix n) ≡ false
  unfolding bytes_eq numeric_key
  next_uuid_ne_channel = refl

  pub next_channel_id_ne_channel :
      bytes_eq next_channel_id_key (numeric_key channel_prefix n) ≡ false
  unfolding bytes_eq numeric_key
  next_channel_id_ne_channel = refl

  pub next_channel_id_ne_uuid : bytes_eq next_channel_id_key (numeric_key uuid_prefix n) ≡ false
  unfolding bytes_eq numeric_key
  next_channel_id_ne_uuid = refl

  module _ (m : ℕ) where
    pub uuid_ne_channel :
        bytes_eq (numeric_key uuid_prefix n) (numeric_key channel_prefix m) ≡ false
    unfolding bytes_eq numeric_key
    uuid_ne_channel = refl

    pub channel_ne_uuid :
        bytes_eq (numeric_key channel_prefix n) (numeric_key uuid_prefix m) ≡ false
    unfolding bytes_eq numeric_key
    channel_ne_uuid = refl

    pub preparing_ne_committed :
        bytes_eq (numeric_key preparing_object_prefix n) (numeric_key committed_object_prefix m)
        ≡ false
    unfolding bytes_eq numeric_key
    preparing_ne_committed = refl

    pub committed_ne_preparing :
        bytes_eq (numeric_key committed_object_prefix n) (numeric_key preparing_object_prefix m)
        ≡ false
    unfolding bytes_eq numeric_key
    committed_ne_preparing = refl

    module _ (t : Bytes) where
      pub uuid_ne_token : bytes_eq (numeric_key uuid_prefix n) (token_key m t) ≡ false
      unfolding bytes_eq numeric_key token_key
      uuid_ne_token = refl

      pub channel_ne_token : bytes_eq (numeric_key channel_prefix n) (token_key m t) ≡ false
      unfolding bytes_eq numeric_key token_key
      channel_ne_token = refl

pub next_uuid_ne_max_seq : bytes_eq next_uuid_key max_seq_key ≡ false
unfolding bytes_eq
next_uuid_ne_max_seq = refl
