-- ===== src/Core/Channels/Stored.antt =====
-- What the changes of channels have in common: what they find and what they leave stored.
use openevent.Common.{
  ℕ, ◌+◌, ◌%◌, ◌≡◌, ◌≢◌, ap, ◌∙◌, true, some, List, [], Bytes, arith, u64_mod, IsU64,
}
use openevent.Status.{ok}
use openevent.Proto.{EventMessage, ChannelInfo}
use openevent.Platform.{Platform, Lawful}
use openevent.Storage.Keys.{numeric_key, token_key, max_seq_key, next_uuid_key, channel_prefix}
use openevent.Storage.Reads.{has_token}
use openevent.Storage.Reads.Views.{
  Holds, Holds-unique, HoldsChannel, get_max_seq-Holds, get_next_uuid-Holds,
  get_channel-HoldsChannel, create_snapshot-view, has_token-true,
}
use openevent.Storage.Rocks.Updates.{Batch, Cf, meta, Contents, after}
use openevent.Storage.State.{create_snapshot}
use openevent.Core.Channels.{
  MemberRequest, require_owned_channel, store_members, system_message, build_channel_mutation_batch,
}
use openevent.Core.Channels.Effects.{
  Built, Changes, build_channel_mutation_batch-Built, updates_of, updates_of-Changes,
}
use openevent.Core.Publish.{authenticate, require_channel, load_channel}
use openevent.Core.Publish.Authorized.{load_channel-get_channel}
use openevent.Core.State.{Core, ensure_available, snapshot_now, commit_batch}
use openevent.Core.State.Inversion.{>>=-ok, stored, commit_batch-stored}

module _ (p : Platform) where
  -- The stored maximum and the stored next uuid, in 64 bits.
  pub record Counts (max next : ℕ) (c : Contents) : Type 0 where
    pub max_seq : Holds (c meta max_seq_key) max
    pub next_uuid : Holds (c meta next_uuid_key) next
    pub next_uuid_is_u64 : IsU64 next

  abbrev pub next_message : ChannelInfo → Bytes → ℕ → ℕ → ℕ → EventMessage
  next_message channel payload max next ts_ms =
      system_message p channel payload ((max + 1) % u64_mod) next ts_ms

  pub Built-Changes :
      (law : Lawful p) (s : p.rocks.Snapshot) (channel : ChannelInfo) (payload : Bytes)
      (ts_ms max next : ℕ) (batch : Batch) (c c' : Contents)
      → Built p s channel payload ts_ms batch
      → p.rocks.view s ≡ c
      → Counts max next c
      → IsU64 channel.channel_id
      → ((cf : Cf) (k : Bytes) → c' cf k ≡ after c batch cf k)
      → Changes p channel (next_message channel payload max next ts_ms) c c'
  Built-Changes law s channel payload ts_ms max next batch c c' b seen counts small e =
      let e₁ : b.max_seq ≡ max =
        Holds-unique _ b.max_seq max
          (rw seen at (get_max_seq-Holds p law s b.max_seq b.max_seq_read)) counts.max_seq in
      let e₂ : b.next_uuid ≡ next =
        Holds-unique _ b.next_uuid next
          (rw seen at (get_next_uuid-Holds p law s b.next_uuid b.next_uuid_read))
          counts.next_uuid in
      let m : EventMessage = next_message channel payload max next ts_ms in
      let is : b.message ≡ m =
        b.message_is ∙ (λ i. next_message channel payload (e₁ i) (e₂ i) ts_ms) in
      updates_of-Changes p law channel m b.channel_bytes b.message_bytes c c' b.channel_serialized
        (rw is at b.message_serialized) small (omega arith) counts.next_uuid_is_u64
        (λ cf k.
          e cf k
          ∙ ap (λ x. after c x cf k) b.updates
          ∙ ap (λ x. after c (updates_of channel x b.channel_bytes b.message_bytes) cf k) is)

  -- The channel that a change of members found: stored, with the principal as its creator.
  pub record Owned (request : MemberRequest) (c : Contents) (channel : ChannelInfo) : Type 0 where
    pub token_stored : c meta (token_key request.principal request.token) ≡ some []
    pub channel_stored :
        HoldsChannel p
          (c meta (numeric_key channel_prefix request.channel_id))
          request.channel_id
          channel
    pub target_nonzero : request.target_principal ≢ 0

  require_owned_channel-ok :
      (request : MemberRequest) (c c' : Core p) (s : p.rocks.Snapshot) (channel : ChannelInfo)
      → require_owned_channel p request c ≡ (ok (s, channel), c')
      → (c' ≡ c)
        × (request.target_principal ≢ 0)
        × (create_snapshot p c.storage.db ≡ ok s)
        × (has_token p s request.principal request.token ≡ ok true)
        × (request.channel_id ≢ 0)
        × (load_channel p s request.channel_id ≡ ok (some channel))
  unfolding require_owned_channel ensure_available snapshot_now authenticate require_channel
  require_owned_channel-ok request c c' s channel h = ground arith

  pub require_owned_channel-Owned :
      (law : Lawful p) (request : MemberRequest) (c c' : Core p) (s : p.rocks.Snapshot)
      (channel : ChannelInfo)
      → require_owned_channel p request c ≡ (ok (s, channel), c')
      → (c' ≡ c) × (p.rocks.view s ≡ stored c) × Owned request (stored c) channel
  require_owned_channel-Owned law request c c' s channel h =
      let (same, nonzero, taken, authentic, not_system, loaded) =
        require_owned_channel-ok request c c' s channel h in
      let seen : p.rocks.view s ≡ stored c = create_snapshot-view p law c.storage.db s taken in
      (
        same,
        seen,
        record {
          token_stored =
              rw seen at (has_token-true p law s request.principal request.token authentic);
          channel_stored = rw seen at (
              get_channel-HoldsChannel p law s request.channel_id channel
                (rw (load_channel-get_channel p s request.channel_id not_system) at loaded));
          target_nonzero = nonzero;
        },
      )

  pub store_members-Changes :
      (law : Lawful p) (s : p.rocks.Snapshot) (channel : ChannelInfo) (members : List ℕ)
      (payload : Bytes) (ts_ms max next : ℕ) (c c' : Core p)
      → p.rocks.view s ≡ stored c
      → Counts max next (stored c)
      → IsU64 channel.channel_id
      → store_members p s channel members payload ts_ms c ≡ (ok tt, c')
      → Changes p
          (record channel { members = members })
          (next_message (record channel { members = members }) payload max next ts_ms)
          (stored c)
          (stored c')
  unfolding store_members
  store_members-Changes law s channel members payload ts_ms max next c c' seen counts small h =
      let channel' : ChannelInfo = record channel { members = members } in
      let (batch, c₁, e₁, e₂) =
        >>=-ok (build_channel_mutation_batch p s channel' payload ts_ms)
          (λ batch. commit_batch batch) c h in
      let (same, built) =
        build_channel_mutation_batch-Built p s channel' payload ts_ms c c₁ batch e₁ in
      Built-Changes law s channel' payload ts_ms max next batch (stored c) (stored c') built seen
        counts small
        (λ cf k.
          commit_batch-stored p batch c₁ c' law e₂ cf k
          ∙ ap (λ x. after (stored x) batch cf k) same)
