-- ===== src/Storage/Reads/Views.antt =====
-- A read that succeeds tells what is stored.
use openevent.Common.{
  ℕ, IsU64, ◌≡◌, refl, true, Option, none, some, [], ◌∷◌, String, Bytes, length, arith,
}
use openevent.Status.{ok}
use openevent.Proto.{ChannelInfo}
use openevent.Platform.{Platform, Lawful}
use openevent.Storage.Encoding.{encode_uint64, decode_uint64}
use openevent.Storage.Encoding.RoundTrip.{decode-encode, length-encode_uint64}
use openevent.Storage.Keys.{
  numeric_key, token_key, max_seq_key, next_uuid_key, next_channel_id_key, next_object_id_key,
  uuid_prefix, channel_prefix, decode_required_uint64,
}
use openevent.Storage.Records.{valid_stored_channel}
use openevent.Storage.Reads.{
  get_channel, parse_channel, get_required_uint64, get_max_seq, get_next_uuid, get_next_channel_id,
  get_next_object_id, get_used_uuid_seq, has_token,
}
use openevent.Storage.Rocks.{Lookup, found, absent, broken}
use openevent.Storage.Rocks.Updates.{meta}
use openevent.Storage.State.{create_snapshot}

-- The stored bytes of a number.
abbrev pub Holds : Option Bytes → ℕ → Type 0
Holds stored n = (v : Bytes) × (stored ≡ some v) × (length v ≡ 8) × (decode_uint64 v ≡ n)

-- The stored bytes of a channel that the storage accepts under its id.
abbrev pub HoldsChannel : (p : Platform) → Option Bytes → ℕ → ChannelInfo → Type 0
HoldsChannel p stored id channel =
    (v : Bytes) × (stored ≡ some v)
    × (p.channel_infos.parse v ≡ some channel)
    × (channel.channel_id ≡ id)
    × (valid_stored_channel p.visibility_is_valid channel ≡ true)

module _ (p : Platform) (law : Lawful p) where
  pub create_snapshot-view :
      (d : p.rocks.Db) (s : p.rocks.Snapshot)
      → create_snapshot p d ≡ ok s
      → p.rocks.view s ≡ p.rocks.contents d
  unfolding create_snapshot
  create_snapshot-view d s h = ground (arith, law.rocks.snapshot_view d s)

  pub get_required_uint64-Holds :
      (s : p.rocks.Snapshot) (k : Bytes) (what : String) (n : ℕ)
      → get_required_uint64 p s k what ≡ ok n
      → Holds (p.rocks.view s meta k) n
  unfolding get_required_uint64 decode_required_uint64
  get_required_uint64-Holds s k what n h = go (p.rocks.get s meta k) refl
    where
      go : (l : Lookup) → p.rocks.get s meta k ≡ l → Holds (p.rocks.view s meta k) n
      go (found v) e = (v, law.rocks.get_found s meta k v e, ground (arith, e), ground (arith, e))
      go absent e = absurd (ground (arith, e))
      go (broken b) e = absurd (ground (arith, e))

  pub get_max_seq-Holds :
      (s : p.rocks.Snapshot) (n : ℕ)
      → get_max_seq p s ≡ ok n
      → Holds (p.rocks.view s meta max_seq_key) n
  unfolding get_max_seq
  get_max_seq-Holds s n h = get_required_uint64-Holds s max_seq_key _ n h

  pub get_next_uuid-Holds :
      (s : p.rocks.Snapshot) (n : ℕ)
      → get_next_uuid p s ≡ ok n
      → Holds (p.rocks.view s meta next_uuid_key) n
  unfolding get_next_uuid
  get_next_uuid-Holds s n h = get_required_uint64-Holds s next_uuid_key _ n h

  -- A uuid that is not used has no entry.
  pub get_used_uuid_seq-none :
      (s : p.rocks.Snapshot) (u : ℕ)
      → get_used_uuid_seq p s u ≡ ok none
      → p.rocks.view s meta (numeric_key uuid_prefix u) ≡ none
  unfolding get_used_uuid_seq decode_required_uint64
  get_used_uuid_seq-none s u h =
      ground (arith, law.rocks.get_absent s meta (numeric_key uuid_prefix u))

  -- A principal with a token has the entry of that token.
  pub has_token-true :
      (s : p.rocks.Snapshot) (principal : ℕ) (token : Bytes)
      → has_token p s principal token ≡ ok true
      → p.rocks.view s meta (token_key principal token) ≡ some []
  unfolding has_token
  has_token-true s principal token h = go (p.rocks.get s meta (token_key principal token)) refl
    where
      go :
          (l : Lookup)
          → p.rocks.get s meta (token_key principal token) ≡ l
          → p.rocks.view s meta (token_key principal token) ≡ some []
      go (found []) e = law.rocks.get_found s meta (token_key principal token) [] e
      go (found (b ∷ bs)) e = absurd (ground (arith, e))
      go absent e = absurd (ground (arith, e))
      go (broken b) e = absurd (ground (arith, e))

  pub get_channel-HoldsChannel :
      (s : p.rocks.Snapshot) (id : ℕ) (channel : ChannelInfo)
      → get_channel p s id ≡ ok (some channel)
      → HoldsChannel p (p.rocks.view s meta (numeric_key channel_prefix id)) id channel
  unfolding get_channel parse_channel
  get_channel-HoldsChannel s id channel h =
      go (p.rocks.get s meta (numeric_key channel_prefix id)) refl
    where
      go :
          (l : Lookup)
          → p.rocks.get s meta (numeric_key channel_prefix id) ≡ l
          → HoldsChannel p (p.rocks.view s meta (numeric_key channel_prefix id)) id channel
      go (found v) e = (
        v,
        law.rocks.get_found s meta (numeric_key channel_prefix id) v e,
        ground (arith, e),
        ground (arith, e),
        ground (arith, e),
      )
      go absent e = absurd (ground (arith, e))
      go (broken b) e = absurd (ground (arith, e))

  pub get_next_channel_id-Holds :
      (s : p.rocks.Snapshot) (n : ℕ)
      → get_next_channel_id p s ≡ ok n
      → Holds (p.rocks.view s meta next_channel_id_key) n
  unfolding get_next_channel_id
  get_next_channel_id-Holds s n h = get_required_uint64-Holds s next_channel_id_key _ n h

  pub get_next_object_id-Holds :
      (s : p.rocks.Snapshot) (n : ℕ)
      → get_next_object_id p s ≡ ok n
      → Holds (p.rocks.view s meta next_object_id_key) n
  unfolding get_next_object_id
  get_next_object_id-Holds s n h = get_required_uint64-Holds s next_object_id_key _ n h

-- What is stored is the encoding of one number at most.
pub Holds-unique : (o : Option Bytes) (m n : ℕ) → Holds o m → Holds o n → m ≡ n
Holds-unique o m n (v, hv, lv, dv) (w, hw, lw, dw) = ground (arith, hv, hw, dv, dw)

pub Holds-encode_uint64 :
    (o : Option Bytes) (n : ℕ) → IsU64 n → o ≡ some (encode_uint64 n) → Holds o n
Holds-encode_uint64 o n h e = (encode_uint64 n, e, length-encode_uint64 n, decode-encode n h)
