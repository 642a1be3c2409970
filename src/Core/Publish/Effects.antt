-- ===== src/Core/Publish/Effects.antt =====
-- A publish that succeeds: what it has checked, and what it has stored.
use openevent.Common.{
  ℕ, ◌+◌, ◌%◌, ◌≡◌, ◌≢◌, ◌∙◌, true, Option, some, [], ◌∷◌, Bytes, arith, All, u64_mod,
}
use openevent.Status.{ok}
use openevent.Proto.{EventMessage, ChannelInfo}
use openevent.Platform.{Platform, Lawful}
use openevent.Storage.Encoding.{encode_uint64}
use openevent.Storage.Keys.{numeric_key, max_seq_key, uuid_prefix, message_prefix}
use openevent.Storage.Rocks.Updates.{Batch, Cf, put, meta, messages, after}
use openevent.Storage.Writes.{put_message, put_used_uuid, set_max_seq}
use openevent.Core.Access.{can_write, validate_recipients}
use openevent.Core.State.{Core, ServerContext, check_rpc_active, M, lift, ◌>>◌, commit_batch}
use openevent.Core.State.Inversion.{>>=-ok, stored, commit_batch-stored}
use openevent.Core.Publish.{
  PublishRequest, load_channel, require_channel, check_target, check_capabilities, message_of,
  message_batch, build_publish_batch, check_publish, build_and_commit, publish_checked, publish,
  publish_auto_checked, publish_auto_seq,
}
use openevent.Core.Publish.Capabilities.{IsCapability, check_capabilities-ok}
use openevent.Core.Publish.Checks.{Checked, check_publish-ok}

-- The updates of one message: the message, its uuid and the new maximum.
abbrev pub updates_of : EventMessage → Bytes → Batch
updates_of m payload =
    put messages (numeric_key message_prefix m.seq) payload
    ∷ put meta (numeric_key uuid_prefix m.uuid) (encode_uint64 m.seq)
    ∷ put meta max_seq_key (encode_uint64 m.seq)
    ∷ []

module _ (p : Platform) where
  message_batch-ok :
      (m : EventMessage) (c c' : Core p) (batch : Batch)
      → message_batch p m c ≡ (ok batch, c')
      → (c' ≡ c)
        × (m.seq ≢ 0)
        × (payload : Bytes) × (p.event_messages.serialize m ≡ some payload)
        × (batch ≡ updates_of m payload)
  unfolding message_batch put_message put_used_uuid set_max_seq
  message_batch-ok m c c' batch h = ground arith

  -- The channel may be written to by the principal, and the recipients are members of it.
  abbrev pub IsTarget : p.rocks.Snapshot → PublishRequest → Type 0
  IsTarget s request =
      (request.channel_id ≢ 0)
      × (channel : ChannelInfo) × (load_channel p s request.channel_id ≡ ok (some channel))
      × (can_write channel request.principal ≡ true)
      × (validate_recipients channel request.recipients ≡ ok tt)

  check_target-ok :
      (s : p.rocks.Snapshot) (request : PublishRequest) (c c' : Core p)
      → check_target p s request c ≡ (ok tt, c')
      → (c' ≡ c) × IsTarget s request
  unfolding check_target require_channel
  check_target-ok s request c c' h = ground arith

  pub record Built (s : p.rocks.Snapshot) (request : PublishRequest) (m : EventMessage)
      : Type 0 where
    pub target : IsTarget s request
    pub keys_are_capabilities : All (IsCapability p s) request.object_keys
    pub seq_nonzero : m.seq ≢ 0
    pub payload : Bytes
    pub serialized : p.event_messages.serialize m ≡ some payload

  build_publish_batch-ok :
      (law : Lawful p) (s : p.rocks.Snapshot) (request : PublishRequest) (seq ts_ms : ℕ)
      (c c' : Core p) (batch : Batch)
      → build_publish_batch p s request seq ts_ms c ≡ (ok batch, c')
      → (c' ≡ c)
        × (built : Built s request (message_of p request seq ts_ms)) × (batch
            ≡ updates_of (message_of p request seq ts_ms) built.payload)
  unfolding build_publish_batch
  build_publish_batch-ok law s request seq ts_ms c c' batch h =
      let m : EventMessage = message_of p request seq ts_ms in
      let finish : M p Batch = message_batch p m in
      let check : M p (Unit {0}) = check_capabilities p s request.object_keys in
      let (_, c₁, e₁, h₁) = >>=-ok (check_target p s request) (λ _. check >> finish) c h in
      let (_, c₂, e₂, h₂) = >>=-ok check (λ _. finish) c₁ h₁ in
      let (same₁, target) = check_target-ok s request c c₁ e₁ in
      let (same₂, keys) = check_capabilities-ok p law s request.object_keys c₁ c₂ e₂ in
      let (same₃, nonzero, payload, serialized, is_batch) = message_batch-ok m c₂ c' batch h₂ in
      (
        same₃ ∙ same₂ ∙ same₁,
        record {
          target = target;
          keys_are_capabilities = keys;
          seq_nonzero = nonzero;
          payload = payload;
          serialized = serialized;
        },
        is_batch,
      )

  -- A publish that has returned: the snapshot and the maximum that it went on with, all that was
  -- checked of them, and the contents that it left.
  pub record Accepted (request : PublishRequest) (seq ts_ms : ℕ) (c c' : Core p) : Type 0 where
    pub snapshot : p.rocks.Snapshot
    pub max_seq : ℕ
    pub checked : Checked p request c snapshot max_seq
    pub built : Built snapshot request (message_of p request seq ts_ms)
    pub next_seq : seq ≡ (max_seq + 1) % u64_mod
    pub contents :
        (cf : Cf) (k : Bytes)
        → stored c' cf k
          ≡ after (stored c) (updates_of (message_of p request seq ts_ms) built.payload) cf k

  module _ (law : Lawful p) (request : PublishRequest) (ts_ms : ℕ) (y : Option ServerContext) where
    build_and_commit-ok :
        (s : p.rocks.Snapshot) (seq : ℕ) (c c' : Core p)
        → build_and_commit p s request seq ts_ms y c ≡ (ok tt, c')
        → (batch : Batch) × (c₁ : Core p) × (build_publish_batch p s request seq ts_ms c
            ≡ (ok batch, c₁))
          × (commit_batch batch c₁ ≡ (ok tt, c'))
    unfolding build_and_commit
    build_and_commit-ok s seq c c' h =
        let build : M p Batch = build_publish_batch p s request seq ts_ms in
        let commit : Batch → M p (Unit {0}) =
          λ batch. lift (check_rpc_active y) >> commit_batch batch in
        let (batch, c₁, e₁, h₁) = >>=-ok build commit c h in (batch, c₁, e₁, ground arith)

    build_and_commit-Accepted :
        (s : p.rocks.Snapshot) (m seq : ℕ) (c c' : Core p)
        → Checked p request c s m
        → seq ≡ (m + 1) % u64_mod
        → build_and_commit p s request seq ts_ms y c ≡ (ok tt, c')
        → Accepted request seq ts_ms c c'
    build_and_commit-Accepted s m seq c c' checked is_next h =
        let (batch, c₁, e₁, e₂) = build_and_commit-ok s seq c c' h in
        let (same, built, is_batch) =
          build_publish_batch-ok law s request seq ts_ms c c₁ batch e₁ in
        record {
          snapshot = s;
          max_seq = m;
          checked = checked;
          built = built;
          next_seq = is_next;
          contents = λ cf k.
              commit_batch-stored p batch c₁ c' law e₂ cf k
              ∙ (λ i. after (stored (same i)) (is_batch i) cf k);
        }

    publish_checked-ok :
        (s : p.rocks.Snapshot) (m : ℕ) (c c' : Core p)
        → publish_checked p request ts_ms y (s, m) c ≡ (ok tt, c')
        → (request.seq ≡ (m + 1) % u64_mod)
          × (build_and_commit p s request request.seq ts_ms y c ≡ (ok tt, c'))
    unfolding publish_checked
    publish_checked-ok s m c c' h = ground arith

    publish_auto_checked-ok :
        (s : p.rocks.Snapshot) (m seq : ℕ) (c c' : Core p)
        → publish_auto_checked p request ts_ms y (s, m) c ≡ (ok seq, c')
        → (seq ≡ (m + 1) % u64_mod) × (build_and_commit p s request seq ts_ms y c ≡ (ok tt, c'))
    unfolding publish_auto_checked
    publish_auto_checked-ok s m seq c c' h = ground arith

    pub publish-Accepted :
        (x : Option ServerContext) (c c' : Core p)
        → publish p request ts_ms x y c ≡ (ok tt, c')
        → Accepted request request.seq ts_ms c c'
    unfolding publish
    publish-Accepted x c c' h =
        let ((s, m), c₁, e₁, h₁) =
          >>=-ok (check_publish p request x) (publish_checked p request ts_ms y) c h in
        let (same, checked) = check_publish-ok p request x c c₁ s m e₁ in
        let (is_next, done) = publish_checked-ok s m c₁ c' h₁ in
        build_and_commit-Accepted s m request.seq c c' checked is_next (rw same at done)

    pub publish_auto_seq-Accepted :
        (x : Option ServerContext) (seq : ℕ) (c c' : Core p)
        → publish_auto_seq p request ts_ms x y c ≡ (ok seq, c')
        → Accepted request seq ts_ms c c'
    unfolding publish_auto_seq
    publish_auto_seq-Accepted x seq c c' h =
        let ((s, m), c₁, e₁, h₁) =
          >>=-ok (check_publish p request x) (publish_auto_checked p request ts_ms y) c h in
        let (same, checked) = check_publish-ok p request x c c₁ s m e₁ in
        let (is_next, done) = publish_auto_checked-ok s m seq c₁ c' h₁ in
        build_and_commit-Accepted s m seq c c' checked is_next (rw same at done)
