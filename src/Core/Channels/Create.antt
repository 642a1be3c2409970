-- ===== src/Core/Channels/Create.antt =====
-- `CreateChannel` that returns.
use openevent.Common.{
  ℕ, ◌+◌, ◌%◌, ◌≤◌, ◌≡◌, refl, ap, ◌∙◌, true, some, [], ◌∷◌, ◌++◌, Bytes, length, ltb, arith,
  u64_mod, IsU64, inl, inr,
}
use openevent.Status.{ok, Result-cases, error, resource_exhausted}
use openevent.Proto.{ChannelInfo}
use openevent.Platform.{Platform, Lawful}
use openevent.Storage.Encoding.{encode_uint64}
use openevent.Storage.Keys.{token_key, next_channel_id_key}
use openevent.Storage.Reads.{get_next_channel_id, has_token}
use openevent.Storage.Reads.Views.{
  Holds, Holds-unique, get_next_channel_id-Holds, create_snapshot-view, has_token-true,
}
use openevent.Storage.Rocks.Updates.{
  Batch, Cf, put, meta, Contents, SetsMeta, apply, after, put-SetsMeta-at,
}
use openevent.Storage.State.{create_snapshot}
use openevent.Storage.Writes.{set_next_channel_id}
use openevent.Core.Channels.{
  CreateChannelRequest, new_channel, add_members, store_new_channel, create_channel,
  build_channel_mutation_batch,
}
use openevent.Core.Channels.Effects.{Changes, build_channel_mutation_batch-Built}
use openevent.Core.Publish.{authenticate}
use openevent.Core.Publish.Checks.{authenticate-ok}
use openevent.Core.State.{
  Core, M, pure, refuse_if, ◌>>=◌, ◌>>◌, ensure_available, snapshot_now, commit_batch,
}
use openevent.Core.State.Inversion.{>>=-ok, stored, commit_batch-stored}
use openevent.Core.Text.{channel_initialized_payload}
use openevent.Core.Channels.Stored.{Counts, next_message, Built-Changes}

module _ (p : Platform) where
  -- What `CreateChannel` found and left. The batch of the channel comes before the next channel id:
  -- `middle` is what it alone leaves.
  pub record CreatesChannel (request : CreateChannelRequest) (channel : ChannelInfo)
      (ts_ms max next id : ℕ) (c c' : Contents) : Type 0 where
    pub token_stored : c meta (token_key request.principal request.token) ≡ some []
    pub channel_is : channel ≡ new_channel request id
    pub at_most_1024_members : length channel.members ≤ 1024
    pub middle : Contents
    pub changes :
        Changes p channel
          (next_message p channel (channel_initialized_payload channel) max next ts_ms)
          c
          middle
    pub next_channel_id :
        SetsMeta next_channel_id_key (some (encode_uint64 ((id + 1) % u64_mod))) middle c'

  finished :
      (made : ChannelInfo) (batch : Batch) (channel : ChannelInfo) (c c' : Core p)
      → (commit_batch batch >>= λ _. pure made) c ≡ (ok channel, c')
      → (channel ≡ made) × (commit_batch batch c ≡ (ok tt, c'))
  finished made batch channel c c' h = ground arith

  store_new_channel-ok :
      (s : p.rocks.Snapshot) (request : CreateChannelRequest) (ts_ms : ℕ) (channel : ChannelInfo)
      (c c' : Core p)
      → store_new_channel p s request ts_ms c ≡ (ok channel, c')
      → (id : ℕ) × (get_next_channel_id p s ≡ ok id)
        × (channel ≡ new_channel request id)
        × (batch : Batch) × (c₁ : Core p) × (build_channel_mutation_batch p s channel
              (channel_initialized_payload channel)
              ts_ms
              c
            ≡ (ok batch, c₁))
        × (commit_batch
              (batch ++ put meta next_channel_id_key (encode_uint64 ((id + 1) % u64_mod)) ∷ [])
              c₁
            ≡ (ok tt, c'))
  unfolding store_new_channel set_next_channel_id
  store_new_channel-ok s request ts_ms channel c c' h =
      elim (Result-cases (get_next_channel_id p s)) [
        | inr (e, failed) ↦ absurd (ground (arith, failed))
        | inl (id, read) ↦
            let made : ChannelInfo = new_channel request id in
            let build : M p Batch =
              build_channel_mutation_batch p s made (channel_initialized_payload made) ts_ms in
            let finish : Batch → M p ChannelInfo = λ batch.
              commit_batch
                (batch ++ put meta next_channel_id_key (encode_uint64 ((id + 1) % u64_mod)) ∷ [])
              >>= λ _. pure made in
            let start : (build >>= finish) c ≡ (ok channel, c') = ground (arith, read) in
            let (batch, c₁, e₁, h₁) = >>=-ok build finish c start in
            let (is, done) = finished made _ channel c₁ c' h₁ in
            (id, read, is, batch, c₁, rw is e₁, done)
      ]

  -- What follows the snapshot.
  abbrev with_snapshot : CreateChannelRequest → ℕ → p.rocks.Snapshot → M p ChannelInfo
  with_snapshot request ts_ms s =
      refuse_if (ltb 1024 (length (add_members (request.principal ∷ []) request.members)))
        (error resource_exhausted "Channel can contain at most 1024 members including its creator")
      >> store_new_channel p s request ts_ms

  with_snapshot-ok :
      (request : CreateChannelRequest) (ts_ms : ℕ) (s : p.rocks.Snapshot) (channel : ChannelInfo)
      (c c' : Core p)
      → with_snapshot request ts_ms s c ≡ (ok channel, c')
      → (length (add_members (request.principal ∷ []) request.members) ≤ 1024)
        × (store_new_channel p s request ts_ms c ≡ (ok channel, c'))
  with_snapshot-ok request ts_ms s channel c c' h = ground arith

  create_channel-with_snapshot :
      (request : CreateChannelRequest) (ts_ms : ℕ) (channel : ChannelInfo) (c c' : Core p)
      → create_channel p request ts_ms c ≡ (ok channel, c')
      → (s : p.rocks.Snapshot) × (create_snapshot p c.storage.db ≡ ok s)
        × ((authenticate p s request.principal request.token >> with_snapshot request ts_ms s) c
            ≡ (ok channel, c'))
  unfolding create_channel ensure_available snapshot_now
  create_channel-with_snapshot request ts_ms channel c c' h =
      elim (Result-cases (create_snapshot p c.storage.db)) [
        | inr (e, failed) ↦ absurd (ground (arith, failed))
        | inl (s, taken) ↦ (s, taken, ground (arith, taken))
      ]

  create_channel-ok :
      (request : CreateChannelRequest) (ts_ms : ℕ) (channel : ChannelInfo) (c c' : Core p)
      → create_channel p request ts_ms c ≡ (ok channel, c')
      → (s : p.rocks.Snapshot) × (create_snapshot p c.storage.db ≡ ok s)
        × (has_token p s request.principal request.token ≡ ok true)
        × (length (add_members (request.principal ∷ []) request.members) ≤ 1024)
        × (store_new_channel p s request ts_ms c ≡ (ok channel, c'))
  create_channel-ok request ts_ms channel c c' h =
      let (s, taken, h₁) = create_channel-with_snapshot request ts_ms channel c c' h in
      let (_, c₁, e₁, h₂) =
        >>=-ok (authenticate p s request.principal request.token)
          (λ _. with_snapshot request ts_ms s) c h₁ in
      let (same, _, known) = authenticate-ok p s request.principal request.token c c₁ e₁ in
      let (few, done) = with_snapshot-ok request ts_ms s channel c₁ c' h₂ in
      (s, taken, known, few, rw same at done)

  after-append :
      (c : Contents) (first second : Batch)
      → after c (first ++ second) ≡ after (after c first) second
  after-append c [] second = refl
  after-append c (u ∷ us) second = after-append (apply c u) us second

  length-new_channel :
      (request : CreateChannelRequest) (id : ℕ)
      → (new_channel request id).members ≡ add_members (request.principal ∷ []) request.members
  unfolding new_channel
  length-new_channel request id = refl

  new_channel-channel_id :
      (request : CreateChannelRequest) (id : ℕ) → (new_channel request id).channel_id ≡ id
  unfolding new_channel
  new_channel-channel_id request id = refl

  -- If the stored maximum, next uuid and next channel id are known and the last two fit 64 bits, a
  -- `CreateChannel` that returns a channel found the token of the principal stored; the channel is
  -- that of the request under the next channel id and has at most 1024 members; it is stored with
  -- the next message of the log, which tells of it under the next uuid, and then the next channel
  -- id is stored one higher, modulo 2^64.
  pub create_channel-CreatesChannel :
      (law : Lawful p) (request : CreateChannelRequest) (ts_ms max next id : ℕ)
      (channel : ChannelInfo) (c c' : Core p)
      → Counts p max next (stored c)
      → Holds (stored c meta next_channel_id_key) id
      → IsU64 id
      → create_channel p request ts_ms c ≡ (ok channel, c')
      → CreatesChannel request channel ts_ms max next id (stored c) (stored c')
  create_channel-CreatesChannel law request ts_ms max next id channel c c' counts at small h =
      let (s, taken, authentic, few, h₁) = create_channel-ok request ts_ms channel c c' h in
      let seen : p.rocks.view s ≡ stored c = create_snapshot-view p law c.storage.db s taken in
      let (n, read, made, batch, c₁, e₁, e₂) =
        store_new_channel-ok s request ts_ms channel c c' h₁ in
      let same_id : n ≡ id =
        Holds-unique _ n id (rw seen at (get_next_channel_id-Holds p law s n read)) at in
      let (same, built) =
        build_channel_mutation_batch-Built p s channel (channel_initialized_payload channel) ts_ms c
          c₁ batch e₁ in
      let is : channel ≡ new_channel request id = made ∙ ap (new_channel request) same_id in
      let last : Batch = put meta next_channel_id_key (encode_uint64 ((n + 1) % u64_mod)) ∷ [] in
      let e = commit_batch-stored p (batch ++ last) c₁ c' law e₂ in
      let whole : (cf : Cf) (k : Bytes)
          → stored c' cf k ≡ after (after (stored c) batch) last cf k =
        λ cf k. e cf k ∙ (λ i. after-append (stored (same i)) batch last i cf k) in
      record {
        token_stored =
            rw seen at (has_token-true p law s request.principal request.token authentic);
        channel_is = is;
        at_most_1024_members = rw is (rw (length-new_channel request id) few);
        middle = after (stored c) batch;
        changes =
            Built-Changes p law s channel (channel_initialized_payload channel) ts_ms max next batch
              (stored c) (after (stored c) batch) built seen counts
              (rw (is, new_channel-channel_id request id) small) (λ cf k. refl);
        next_channel_id =
            put-SetsMeta-at next_channel_id_key _ (after (stored c) batch) (stored c')
              (rw same_id at whole);
      }
