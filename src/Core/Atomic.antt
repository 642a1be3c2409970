-- ===== src/Core/Atomic.antt =====
-- Which methods of `OpenEventCore` only read, and which change the state as a whole or not at all.
pub mod Methods
pub mod Queries
use openevent.Common.{
  ℕ, ◌≡◌, Bool, true, false, Option, none, some, List, [], ◌∷◌, Bytes, ◌==◌, elem,
}
use openevent.Status.{Result, ok, fail, Error, error, not_found}
use openevent.Proto.{ObjectKey, ChannelInfo, ChannelFilter}
use openevent.Platform.{Platform}
use openevent.Storage.Records.{StoredObject}
use openevent.Storage.Reads.{get_committed_objects}
use openevent.Core.Access.{can_read, can_write}
use openevent.Core.State.{Core, ServerContext, M, pure, raise, raise_storage, ◌>>=◌}
use openevent.Core.State.Atomicity.{
  IsReading, IsAtomic, IsReading-IsAtomic, IsReading-pure, IsReading-read, IsReading-raise,
  IsReading-lift, IsReading-raise_storage, IsReading-if, IsAtomic-if, IsReading-refuse_if,
  IsReading-snapshot_now, IsReading-ensure_available, IsAtomic-commit_batch, IsReading-bind,
  IsAtomic-bind, IsAtomic-finish,
}
use openevent.Core.Publish.{
  PublishRequest, authenticate, load_channel, require_channel, refuse_if_used,
  validate_available_uuid, check_object_keys, load_objects, message_batch, check_target,
  check_capabilities, build_publish_batch, allocate_uuids, get_seq_by_uuid, get_status,
  check_publish, build_and_commit, publish_checked, publish, publish_auto_checked, publish_auto_seq,
}

pub ruleset reading = (
  IsReading-bind, IsReading-pure, IsReading-raise, IsReading-lift, IsReading-raise_storage,
  IsReading-if, IsReading-refuse_if, IsReading-snapshot_now, IsReading-ensure_available,
)

module _ (p : Platform) where
  pub IsReading-authenticate :
      (s : p.rocks.Snapshot) (principal : ℕ) (token : Bytes)
      → IsReading (authenticate p s principal token)
  unfolding authenticate
  IsReading-authenticate s principal token = search (reading)

  IsReading-found_channel :
      (found : Option ChannelInfo)
      → IsReading {p = p} {A = ChannelInfo} (elim found as (λ _. M p ChannelInfo) [
        | none ↦ raise (error not_found "channel not found")
        | some channel ↦ pure channel
      ])
  IsReading-found_channel none = search (reading)
  IsReading-found_channel (some channel) = search (reading)

  pub IsReading-require_channel :
      (s : p.rocks.Snapshot) (id : ℕ) → IsReading (require_channel p s id)
  unfolding require_channel
  IsReading-require_channel s id = search (reading, IsReading-found_channel)

  IsReading-refuse_if_used : (used : Option ℕ) → IsReading (refuse_if_used p used)
  unfolding refuse_if_used
  IsReading-refuse_if_used none = search (reading)
  IsReading-refuse_if_used (some seq) = search (reading)

  IsReading-validate_available_uuid :
      (s : p.rocks.Snapshot) (uuid : ℕ) → IsReading (validate_available_uuid p s uuid)
  unfolding validate_available_uuid
  IsReading-validate_available_uuid s uuid = search (reading, IsReading-refuse_if_used)

  IsReading-check_object_keys :
      (ids : List ℕ) (found : List (Option StoredObject)) (keys : List ObjectKey)
      → IsReading (check_object_keys p ids found keys)
  unfolding check_object_keys
  IsReading-check_object_keys ids found [] = search (reading)
  IsReading-check_object_keys ids found (key ∷ rest) =
      IsReading-if _ _ _ (IsReading-check_object_keys ids found rest) (IsReading-raise _)

  pub stored_or_fatal :
      {A : Type 0} (r : Result A)
      → IsReading {p = p} {A = A}
          (elim r as (λ _. M p A) [ ok found ↦ pure found | fail e ↦ raise_storage e ])
  stored_or_fatal (ok a) = search (reading)
  stored_or_fatal (fail e) = search (reading)

  IsReading-load_objects : (s : p.rocks.Snapshot) (ids : List ℕ) → IsReading (load_objects p s ids)
  unfolding load_objects
  IsReading-load_objects s ids = stored_or_fatal (get_committed_objects p s ids)

  IsReading-limit : IsReading {p = p} (λ c. (ok c.max_payload_bytes, c))
  IsReading-limit = IsReading-read (λ c. c.max_payload_bytes)

  IsReading-check_publish :
      (request : PublishRequest) (context : Option ServerContext)
      → IsReading (check_publish p request context)
  unfolding check_publish
  IsReading-check_publish request context =
      search (reading, IsReading-authenticate, IsReading-validate_available_uuid, IsReading-limit)
        depth 16

  IsReading-build_publish_batch :
      (s : p.rocks.Snapshot) (request : PublishRequest) (seq ts_ms : ℕ)
      → IsReading (build_publish_batch p s request seq ts_ms)
  unfolding build_publish_batch check_target check_capabilities message_batch
  IsReading-build_publish_batch s request seq ts_ms =
      search
        (reading, IsReading-require_channel, IsReading-load_objects, IsReading-check_object_keys)

  IsAtomic-build_and_commit :
      (s : p.rocks.Snapshot) (request : PublishRequest) (seq ts_ms : ℕ)
      (after : Option ServerContext)
      → IsAtomic (build_and_commit p s request seq ts_ms after)
  unfolding build_and_commit
  IsAtomic-build_and_commit s request seq ts_ms after =
      search (IsAtomic-bind, IsAtomic-commit_batch, reading, IsReading-build_publish_batch)

  pub IsAtomic-publish :
      (request : PublishRequest) (ts_ms : ℕ) (before after : Option ServerContext)
      → IsAtomic (publish p request ts_ms before after)
  unfolding publish publish_checked
  IsAtomic-publish request ts_ms before after =
      search (IsAtomic-bind, IsReading-check_publish, reading, IsAtomic-build_and_commit)

  pub IsAtomic-publish_auto_seq :
      (request : PublishRequest) (ts_ms : ℕ) (before after : Option ServerContext)
      → IsAtomic (publish_auto_seq p request ts_ms before after)
  unfolding publish_auto_seq publish_auto_checked
  IsAtomic-publish_auto_seq request ts_ms before after =
      search
        (
          IsAtomic-bind, IsReading-check_publish, reading, IsAtomic-build_and_commit,
          IsAtomic-finish,
        )
        depth 12

  pub IsAtomic-allocate_uuids : (count : ℕ) → IsAtomic (allocate_uuids p count)
  unfolding allocate_uuids
  IsAtomic-allocate_uuids count =
      search (IsAtomic-bind, reading, IsAtomic-commit_batch, IsAtomic-finish) depth 12
