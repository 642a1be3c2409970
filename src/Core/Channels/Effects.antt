-- ===== src/Core/Channels/Effects.antt =====
-- A change of a channel that succeeds: the channel and the system message that tells of it.
use openevent.Common.{
  ℕ, ◌+◌, ◌%◌, ◌≡◌, ◌≢◌, refl, Option, none, some, [], ◌∷◌, Bytes, ◌==◌, arith, u64_mod, IsU64,
  if◌then◌else◌, bytes_eq_refl, inl, inr, Option-cases,
}
use openevent.Status.{ok, Result-cases}
use openevent.Proto.{EventMessage, ChannelInfo}
use openevent.Platform.{Platform, Lawful}
use openevent.Storage.Encoding.{encode_uint64}
use openevent.Storage.Keys.{
  numeric_key, max_seq_key, next_uuid_key, uuid_prefix, message_prefix, channel_prefix,
}
use openevent.Storage.Keys.Laws.{bytes_eq-numeric_key}
use openevent.Storage.Keys.Distinct
use openevent.Storage.Reads.{get_max_seq, get_next_uuid}
use openevent.Storage.Rocks.Updates.{Batch, Cf, put, meta, messages, objects, Contents, after}
use openevent.Storage.Writes.{put_channel, put_message, put_used_uuid, set_max_seq, set_next_uuid}
use openevent.Core.Channels.{mutation_batch, build_channel_mutation_batch, system_message}
use openevent.Core.Publish.Log.{message_at, uuid_at}
use openevent.Core.State.{Core}

-- The five updates.
abbrev pub updates_of : ChannelInfo → EventMessage → Bytes → Bytes → Batch
updates_of channel m channel_bytes message_bytes =
    put meta (numeric_key channel_prefix channel.channel_id) channel_bytes
    ∷ put messages (numeric_key message_prefix m.seq) message_bytes
    ∷ put meta (numeric_key uuid_prefix m.uuid) (encode_uint64 m.seq)
    ∷ put meta max_seq_key (encode_uint64 m.seq)
    ∷ put meta next_uuid_key (encode_uint64 ((m.uuid + 1) % u64_mod))
    ∷ []

module _ (p : Platform) where
  mutation_batch-ok :
      (channel : ChannelInfo) (m : EventMessage) (c c' : Core p) (batch : Batch)
      → mutation_batch p channel m c ≡ (ok batch, c')
      → (c' ≡ c)
        × (m.seq ≢ 0)
        × (m.uuid ≢ 0)
        × (channel_bytes : Bytes) × (p.channel_infos.serialize channel ≡ some channel_bytes)
        × (message_bytes : Bytes) × (p.event_messages.serialize m ≡ some message_bytes)
        × (batch ≡ updates_of channel m channel_bytes message_bytes)
  unfolding mutation_batch put_channel put_message put_used_uuid set_max_seq set_next_uuid
  mutation_batch-ok channel m c c' batch h =
      elim (Option-cases (p.channel_infos.serialize channel)) [
        | inl none_c ↦ absurd (ground (arith, none_c))
        | inr (x, ex) ↦ elim (Option-cases (p.event_messages.serialize m)) [
          | inl none_m ↦ absurd (ground (arith, ex, none_m))
          | inr (y, ey) ↦ (
            ground (arith, ex, ey),
            ground (arith, ex, ey),
            ground (arith, ex, ey),
            x,
            ex,
            y,
            ey,
            ground (arith, ex, ey),
          )
        ]
      ]

  -- What a batch of a channel's change was built from.
  pub record Built (s : p.rocks.Snapshot) (channel : ChannelInfo) (payload : Bytes) (ts_ms : ℕ)
      (batch : Batch) : Type 0 where
    pub max_seq : ℕ
    pub next_uuid : ℕ
    pub max_seq_read : get_max_seq p s ≡ ok max_seq
    pub next_uuid_read : get_next_uuid p s ≡ ok next_uuid
    pub message : EventMessage
    pub message_is :
        message ≡ system_message p channel payload ((max_seq + 1) % u64_mod) next_uuid ts_ms
    pub seq_nonzero : message.seq ≢ 0
    pub uuid_nonzero : message.uuid ≢ 0
    pub channel_bytes : Bytes
    pub channel_serialized : p.channel_infos.serialize channel ≡ some channel_bytes
    pub message_bytes : Bytes
    pub message_serialized : p.event_messages.serialize message ≡ some message_bytes
    pub updates : batch ≡ updates_of channel message channel_bytes message_bytes

  pub build_channel_mutation_batch-Built :
      (s : p.rocks.Snapshot) (channel : ChannelInfo) (payload : Bytes) (ts_ms : ℕ) (c c' : Core p)
      (batch : Batch)
      → build_channel_mutation_batch p s channel payload ts_ms c ≡ (ok batch, c')
      → (c' ≡ c) × Built s channel payload ts_ms batch
  unfolding build_channel_mutation_batch
  build_channel_mutation_batch-Built s channel payload ts_ms c c' batch h =
      elim (Result-cases (get_max_seq p s)) [
        | inr (e, failed) ↦ absurd (ground (arith, failed))
        | inl (max, read_max) ↦ elim (Result-cases (get_next_uuid p s)) [
          | inr (e, failed) ↦ absurd (ground (arith, read_max, failed))
          | inl (next, read_next) ↦
              let m : EventMessage =
                system_message p channel payload ((max + 1) % u64_mod) next ts_ms in
              let built : mutation_batch p channel m c ≡ (ok batch, c') =
                ground (arith, read_max, read_next) in
              let (same, n₁, n₂, x, ex, y, ey, is) = mutation_batch-ok channel m c c' batch built in
              (
                same,
                record {
                  max_seq = max;
                  next_uuid = next;
                  max_seq_read = read_max;
                  next_uuid_read = read_next;
                  message = m;
                  message_is = refl;
                  seq_nonzero = n₁;
                  uuid_nonzero = n₂;
                  channel_bytes = x;
                  channel_serialized = ex;
                  message_bytes = y;
                  message_serialized = ey;
                  updates = is;
                },
              )
        ]
      ]

  abbrev parsed : Option Bytes → Option ChannelInfo
  parsed none = none
  parsed (some b) = p.channel_infos.parse b

  -- The channel that is stored under an id.
  abbrev pub channel_at : Contents → ℕ → Option ChannelInfo
  channel_at c id = parsed (c meta (numeric_key channel_prefix id))

  -- `c'` is `c` with the channel stored, the message appended to the log, and the next uuid one
  -- higher; no other channel, message, uuid or object is changed.
  pub record Changes (channel : ChannelInfo) (m : EventMessage) (c c' : Contents) : Type 0 where
    pub channel_entry :
        (id : ℕ)
        → IsU64 id
        → channel_at c' id ≡ (if channel.channel_id == id then some channel else channel_at c id)
    pub message_entry :
        (n : ℕ) → IsU64 n → message_at p c' n ≡ (if m.seq == n then some m else message_at p c n)
    pub uuid_entry :
        (u : ℕ)
        → IsU64 u
        → uuid_at p c' u ≡ (if m.uuid == u then some (encode_uint64 m.seq) else uuid_at p c u)
    pub max_seq_entry : c' meta max_seq_key ≡ some (encode_uint64 m.seq)
    pub next_uuid_entry : c' meta next_uuid_key ≡ some (encode_uint64 ((m.uuid + 1) % u64_mod))
    pub object_entries : (k : Bytes) → c' objects k ≡ c objects k

  pub updates_of-Changes :
      (law : Lawful p) (channel : ChannelInfo) (m : EventMessage) (x y : Bytes) (c c' : Contents)
      → p.channel_infos.serialize channel ≡ some x
      → p.event_messages.serialize m ≡ some y
      → IsU64 channel.channel_id
      → IsU64 m.seq
      → IsU64 m.uuid
      → ((cf : Cf) (k : Bytes) → c' cf k ≡ after c (updates_of channel m x y) cf k)
      → Changes channel m c c'
  updates_of-Changes law channel m x y c c' ex ey hc hs hu e = record {
    channel_entry = λ id h. rw e (
        ground (
          arith,
          bytes_eq-numeric_key channel_prefix channel.channel_id id hc h,
          law.channel_infos channel x ex,
          Distinct.uuid_ne_channel m.uuid id,
          Distinct.max_seq_ne_channel id,
          Distinct.next_uuid_ne_channel id,
        ));
    message_entry = λ n h. rw e (
        ground
          (arith, bytes_eq-numeric_key message_prefix m.seq n hs h, law.event_messages m y ey));
    uuid_entry = λ u h. rw e (
        ground (
          arith,
          bytes_eq-numeric_key uuid_prefix m.uuid u hu h,
          Distinct.channel_ne_uuid channel.channel_id u,
          Distinct.max_seq_ne_uuid u,
          Distinct.next_uuid_ne_uuid u,
        ));
    max_seq_entry = rw e (ground (arith, bytes_eq_refl max_seq_key, Distinct.next_uuid_ne_max_seq));
    next_uuid_entry = rw e (ground (arith, bytes_eq_refl next_uuid_key));
    object_entries = λ k. rw e (ground arith);
  }
