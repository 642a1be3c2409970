-- ===== src/Core/Publish/Authorized.antt =====
-- Who may publish what: the rights that an accepted publish had in the stored contents.
use openevent.Common.{
  ℕ, ◌≡◌, ◌≢◌, ◌≤◌, true, false, elem, Option, some, List, [], ◌∷◌, length, All, arith, Bool-cases,
  inl, inr,
}
use openevent.Status.{ok}
use openevent.Proto.{ChannelInfo}
use openevent.Platform.{Platform, Lawful}
use openevent.Storage.Keys.{numeric_key, token_key, channel_prefix}
use openevent.Storage.Reads.{get_channel}
use openevent.Storage.Reads.Views.{
  HoldsChannel, create_snapshot-view, has_token-true, get_channel-HoldsChannel,
}
use openevent.Storage.Rocks.Updates.{meta}
use openevent.Core.Access.{can_write, validate_recipients}
use openevent.Core.State.{Core, ServerContext}
use openevent.Core.State.Inversion.{stored}
use openevent.Core.Publish.{PublishRequest, load_channel, publish, publish_auto_seq}
use openevent.Core.Publish.Effects.{Accepted, publish-Accepted, publish_auto_seq-Accepted}

validate_recipients-ok :
    (channel : ChannelInfo) (recipients : List ℕ)
    → validate_recipients channel recipients ≡ ok tt
    → All (λ r. elem r channel.members ≡ true) recipients
unfolding validate_recipients
validate_recipients-ok channel [] h = tt
validate_recipients-ok channel (r ∷ rs) h = elim (Bool-cases (elem r channel.members)) [
  | inl e ↦ (e, validate_recipients-ok channel rs (rw e at h))
  | inr e ↦ absurd (ground (arith, e))
]

module _ (p : Platform) where
  -- The server is not stopping, the token of the principal is stored, the payload is in bounds, and
  -- the stored channel, which is not the system channel, lets the principal write and has all
  -- recipients as members.
  pub record IsAuthorized (request : PublishRequest) (c : Core p) : Type 0 where
    pub available : c.fatal_error_triggered ≡ false
    pub principal_nonzero : request.principal ≢ 0
    pub token_stored : stored c meta (token_key request.principal request.token) ≡ some []
    pub payload_fits : length request.payload ≤ c.max_payload_bytes
    pub channel_nonzero : request.channel_id ≢ 0
    pub channel : ChannelInfo
    pub channel_stored :
        HoldsChannel p
          (stored c meta (numeric_key channel_prefix request.channel_id))
          request.channel_id
          channel
    pub writable : can_write channel request.principal ≡ true
    pub recipients_are_members : All (λ r. elem r channel.members ≡ true) request.recipients

  pub load_channel-get_channel :
      (s : p.rocks.Snapshot) (id : ℕ) → id ≢ 0 → load_channel p s id ≡ get_channel p s id
  unfolding load_channel
  load_channel-get_channel s id h = ground arith

  module _ (law : Lawful p) (request : PublishRequest) (ts_ms : ℕ) where
    Accepted-IsAuthorized :
        (seq : ℕ) (c c' : Core p) → Accepted p request seq ts_ms c c' → IsAuthorized request c
    Accepted-IsAuthorized seq c c' a =
        let seen : p.rocks.view a.snapshot ≡ stored c =
          create_snapshot-view p law c.storage.db a.snapshot a.checked.current in
        let (nonzero, channel, loaded, writable, members) = a.built.target in
        record {
          available = a.checked.available;
          principal_nonzero = a.checked.principal_nonzero;
          token_stored =
              rw seen at (
                has_token-true p law a.snapshot request.principal request.token
                  a.checked.authentic);
          payload_fits = a.checked.payload_fits;
          channel_nonzero = nonzero;
          channel = channel;
          channel_stored = rw seen at (
              get_channel-HoldsChannel p law a.snapshot request.channel_id channel
                (rw (load_channel-get_channel a.snapshot request.channel_id nonzero) at loaded));
          writable = writable;
          recipients_are_members = validate_recipients-ok channel request.recipients members;
        }

    -- When a `Publish` that returns started, the server was not stopping, the principal was not
    -- zero and its token was stored, the payload was in bounds, and the stored channel of the
    -- request, which is not the system channel, let the principal write and had all recipients as
    -- members.
    pub publish-IsAuthorized :
        (x y : Option ServerContext) (c c' : Core p)
        → publish p request ts_ms x y c ≡ (ok tt, c')
        → IsAuthorized request c
    publish-IsAuthorized x y c c' h =
        Accepted-IsAuthorized request.seq c c' (publish-Accepted p law request ts_ms y x c c' h)

    -- When a `PublishAutoSeq` that returns started, the server was not stopping, the principal was
    -- not zero and its token was stored, the payload was in bounds, and the stored channel of the
    -- request, which is not the system channel, let the principal write and had all recipients as
    -- members.
    pub publish_auto_seq-IsAuthorized :
        (x y : Option ServerContext) (seq : ℕ) (c c' : Core p)
        → publish_auto_seq p request ts_ms x y c ≡ (ok seq, c')
        → IsAuthorized request c
    publish_auto_seq-IsAuthorized x y seq c c' h =
        Accepted-IsAuthorized seq c c'
          (publish_auto_seq-Accepted p law request ts_ms y x seq c c' h)
