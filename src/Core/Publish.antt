-- ===== src/Core/Publish.antt =====
-- `Authenticate`, uuids and publishing (src/service/open_event_core.cpp).
pub mod Checks
pub mod Capabilities
pub mod Effects
pub mod Log
pub mod Accepted
pub mod Uuids
pub mod Authorized
pub mod Invariant
use openevent.Common.{
  ℕ, zero, suc, ◌+◌, ◌%◌, Bool, true, false, not, ◌&&◌, ◌||◌, Option, none, some, List, [], ◌∷◌,
  ◌++◌, Bytes, elem, is_empty, ltb, leb, ◌==◌, if◌then◌else◌, u64_mod,
}
use openevent.Status.{
  Result, ok, fail, Error, error, invalid_argument, unauthenticated, not_found, already_exists,
  permission_denied, aborted,
}
use openevent.Proto.{EventMessage, ChannelInfo, ObjectKey}
use openevent.Platform.{Platform}
use openevent.Storage.Reads.{
  get_max_seq, get_next_uuid, get_used_uuid_seq, has_token, get_channel, get_committed_objects,
}
use openevent.Storage.Records.{StoredObject}
use openevent.Storage.Rocks.Updates.{Batch}
use openevent.Storage.Writes.{put_message, put_used_uuid, set_max_seq, set_next_uuid}
use openevent.Core.Access.{
  can_write, validate_recipients, system_channel, validate_payload_size, validate_object_keys_shape,
  constant_time_equals, max_uuid_batch,
}
use openevent.Core.State.{
  Core, ServerContext, check_rpc_active, M, pure, raise, lift, refuse_if, ◌>>=◌, ◌>>◌,
  ensure_available, raise_storage, snapshot_now, commit_batch,
}

pub record PublishRequest : Type 0 where
  pub principal : ℕ
  pub token : Bytes
  pub channel_id : ℕ
  -- Read by `Publish` only.
  pub seq : ℕ
  pub uuid : ℕ
  pub recipients : List ℕ
  pub payload : Bytes
  pub object_keys : List ObjectKey

-- `object_indexes`: the object ids in the order of their first occurrence.
abbrev add_new : List ℕ → ℕ → List ℕ
add_new seen id = if elem id seen then seen else seen ++ id ∷ []

unfoldable pub distinct_ids : List ℕ → List ObjectKey → List ℕ
distinct_ids seen [] = seen
distinct_ids seen (k ∷ ks) = distinct_ids (add_new seen k.object_id) ks

-- `objects.value()[object_indexes.at(object_id)]`
unfoldable pub object_at : List ℕ → List (Option StoredObject) → ℕ → Option StoredObject
object_at [] os id = none
object_at (i ∷ is) [] id = none
object_at (i ∷ is) (o ∷ os) id = if i == id then o else object_at is os id

module _ (p : Platform) where
  unfoldable pub authenticate : p.rocks.Snapshot → ℕ → Bytes → M p (Unit {0})
  authenticate snapshot principal token = do
    refuse_if (principal == 0) (error invalid_argument "principal must be greater than 0")
    refuse_if (is_empty token) (error unauthenticated "token is required")
    known ← lift (has_token p snapshot principal token)
    refuse_if (not known) (error unauthenticated "invalid token")

  unfoldable pub load_channel : p.rocks.Snapshot → ℕ → Result (Option ChannelInfo)
  load_channel snapshot channel_id =
      if channel_id == 0 then ok (some system_channel) else get_channel p snapshot channel_id

  -- `LoadChannel` where a missing channel is refused.
  unfoldable pub require_channel : p.rocks.Snapshot → ℕ → M p ChannelInfo
  unfolding load_channel
  require_channel snapshot channel_id = do
    loaded ← lift (load_channel snapshot channel_id)
    elim loaded [ none ↦ raise (error not_found "channel not found") | some channel ↦ pure channel ]

  unfoldable pub refuse_if_used : Option ℕ → M p (Unit {0})
  refuse_if_used none = pure tt
  refuse_if_used (some seq) = raise (error already_exists "uuid has already been used")

  unfoldable pub validate_available_uuid : p.rocks.Snapshot → ℕ → M p (Unit {0})
  unfolding refuse_if_used
  validate_available_uuid snapshot uuid = do
    refuse_if (uuid == 0) (error invalid_argument "uuid must be allocated by the server")
    next_uuid ← lift (get_next_uuid p snapshot)
    refuse_if (leb next_uuid uuid) (error invalid_argument "uuid was not allocated by the server")
    used ← lift (get_used_uuid_seq p snapshot uuid)
    refuse_if_used used

  abbrev is_capability : Option StoredObject → ObjectKey → Bool
  is_capability none key = false
  is_capability (some object) key = constant_time_equals p object.object_token key.object_token

  unfoldable pub check_object_keys :
      List ℕ → List (Option StoredObject) → List ObjectKey → M p (Unit {0})
  check_object_keys ids found [] = pure tt
  check_object_keys ids found (key ∷ rest) =
      if is_capability (object_at ids found key.object_id) key
      then check_object_keys ids found rest
      else raise (error not_found "object capability not found")

  unfoldable pub load_objects : p.rocks.Snapshot → List ℕ → M p (List (Option StoredObject))
  load_objects snapshot ids = elim (get_committed_objects p snapshot ids) [
    | ok found ↦ pure found
    | fail e ↦ raise_storage e
  ]

  abbrev pub message_of : PublishRequest → ℕ → ℕ → EventMessage
  message_of request seq ts_ms = record {
    seq = seq;
    channel_id = request.channel_id;
    principal = request.principal;
    recipients = request.recipients;
    payload = request.payload;
    ts_ms = ts_ms;
    uuid = request.uuid;
    object_keys = request.object_keys;
  }

  -- The three updates of a published message.
  unfoldable pub message_batch : EventMessage → M p Batch
  message_batch message = do
    with_message ← lift (put_message p [] message)
    with_uuid ← lift (put_used_uuid with_message message.uuid message.seq)
    lift (set_max_seq with_uuid message.seq)

  -- The parts of `BuildPublishBatch`: the channel and the recipients, the objects, the batch.
  unfoldable pub check_target : p.rocks.Snapshot → PublishRequest → M p (Unit {0})
  check_target snapshot request = do
    refuse_if (request.channel_id == 0) (error permission_denied "system channel is read-only")
    channel ← require_channel snapshot request.channel_id
    refuse_if (not (can_write channel request.principal))
        (error permission_denied "write permission denied")
    lift (validate_recipients channel request.recipients)

  unfoldable pub check_capabilities : p.rocks.Snapshot → List ObjectKey → M p (Unit {0})
  check_capabilities snapshot object_keys = do
    let ids : List ℕ = distinct_ids [] object_keys
    found ← load_objects snapshot ids
    check_object_keys ids found object_keys

  unfoldable pub build_publish_batch : p.rocks.Snapshot → PublishRequest → ℕ → ℕ → M p Batch
  build_publish_batch snapshot request seq ts_ms = do
    check_target snapshot request
    check_capabilities snapshot request.object_keys
    message_batch (message_of request seq ts_ms)

  -- `AllocateUuids`.
  unfoldable pub uuids_from : ℕ → ℕ → List ℕ
  uuids_from first zero = []
  uuids_from first (suc count) = first ∷ uuids_from ((first + 1) % u64_mod) count

  unfoldable pub allocate_uuids : ℕ → M p (List ℕ)
  allocate_uuids count = do
    ensure_available
    refuse_if (count == 0 || ltb max_uuid_batch count)
        (error invalid_argument "uuid allocation count must be in the range 1..1024")
    snapshot ← snapshot_now
    first_uuid ← lift (get_next_uuid p snapshot)
    batch ← lift (set_next_uuid [] ((first_uuid + count) % u64_mod))
    commit_batch batch
    pure (uuids_from first_uuid count)

  unfoldable pub get_seq_by_uuid : ℕ → M p ℕ
  get_seq_by_uuid uuid = do
    ensure_available
    snapshot ← snapshot_now
    used ← lift (get_used_uuid_seq p snapshot uuid)
    elim used [
      | none ↦ raise (error not_found "uuid has not been consumed by a committed message")
      | some seq ↦ pure seq
    ]

  unfoldable pub get_status : ℕ → Bytes → M p ℕ
  get_status principal token = do
    ensure_available
    snapshot ← snapshot_now
    authenticate snapshot principal token
    lift (get_max_seq p snapshot)

  -- What `Publish` and `PublishAutoSeq` do alike before they choose the sequence number, up to
  -- `GetMaxSeq`.
  unfoldable pub check_publish : PublishRequest → Option ServerContext → M p (p.rocks.Snapshot × ℕ)
  check_publish request context = do
    ensure_available
    refuse_if (request.principal == 0 || elem 0 request.recipients)
        (error invalid_argument "principal and recipients must be greater than 0")
    lift (check_rpc_active context)
    snapshot ← snapshot_now
    authenticate snapshot request.principal request.token
    validate_available_uuid snapshot request.uuid
    limit ← (λ c. (ok c.max_payload_bytes, c))
    lift (validate_payload_size limit request.payload)
    lift (validate_object_keys_shape request.object_keys)
    max_seq ← lift (get_max_seq p snapshot)
    pure (snapshot, max_seq)

  -- Their common end.
  unfoldable pub build_and_commit :
      p.rocks.Snapshot → PublishRequest → ℕ → ℕ → Option ServerContext → M p (Unit {0})
  build_and_commit snapshot request seq ts_ms after = do
    batch ← build_publish_batch snapshot request seq ts_ms
    lift (check_rpc_active after)
    commit_batch batch

  -- The contexts are those of the two calls of `CheckRpcActive`.
  unfoldable pub publish_checked :
      PublishRequest → ℕ → Option ServerContext → p.rocks.Snapshot × ℕ → M p (Unit {0})
  publish_checked request ts_ms after (snapshot, max_seq) = do
    refuse_if (not (request.seq == (max_seq + 1) % u64_mod))
        (error aborted "seq must equal max_seq + 1")
    build_and_commit snapshot request request.seq ts_ms after

  unfoldable pub publish :
      PublishRequest → ℕ → Option ServerContext → Option ServerContext → M p (Unit {0})
  unfolding publish_checked
  publish request ts_ms before after = do
    checked ← check_publish request before
    publish_checked request ts_ms after checked

  unfoldable pub publish_auto_checked :
      PublishRequest → ℕ → Option ServerContext → p.rocks.Snapshot × ℕ → M p ℕ
  publish_auto_checked request ts_ms after (snapshot, max_seq) = do
    let seq : ℕ = (max_seq + 1) % u64_mod
    build_and_commit snapshot request seq ts_ms after
    pure seq

  unfoldable pub publish_auto_seq :
      PublishRequest → ℕ → Option ServerContext → Option ServerContext → M p ℕ
  unfolding publish_auto_checked
  publish_auto_seq request ts_ms before after = do
    checked ← check_publish request before
    publish_auto_checked request ts_ms after checked
