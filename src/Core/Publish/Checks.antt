-- ===== src/Core/Publish/Checks.antt =====
-- What a publish has established where it goes on.
use openevent.Common.{ℕ, ◌<◌, ◌≤◌, ◌≡◌, ◌≢◌, true, false, Option, none, Bytes, length, elem, arith}
use openevent.Status.{ok, value}
use openevent.Platform.{Platform}
use openevent.Storage.Reads.{get_max_seq, get_next_uuid, get_used_uuid_seq, has_token}
use openevent.Storage.State.{create_snapshot}
use openevent.Core.Access.{validate_payload_size, validate_object_keys_shape}
use openevent.Core.State.{Core, ServerContext, ensure_available, snapshot_now}
use openevent.Core.Publish.{PublishRequest, authenticate, validate_available_uuid, check_publish}

module _ (p : Platform) where
  pub authenticate-ok :
      (s : p.rocks.Snapshot) (principal : ℕ) (token : Bytes) (c c' : Core p)
      → authenticate p s principal token c ≡ (ok tt, c')
      → (c' ≡ c) × (principal ≢ 0) × (has_token p s principal token ≡ ok true)
  unfolding authenticate
  authenticate-ok s principal token c c' h = ground arith

  pub validate_available_uuid-ok :
      (s : p.rocks.Snapshot) (uuid : ℕ) (c c' : Core p)
      → validate_available_uuid p s uuid c ≡ (ok tt, c')
      → (c' ≡ c)
        × (uuid ≢ 0)
        × (n : ℕ) × (get_next_uuid p s ≡ ok n)
        × (uuid < n)
        × (get_used_uuid_seq p s uuid ≡ ok none)
  unfolding validate_available_uuid
  validate_available_uuid-ok s uuid c c' h = ground arith

  -- What holds of the snapshot `s` and the number `m` with which a publish goes on.
  pub record Checked (request : PublishRequest) (c : Core p) (s : p.rocks.Snapshot) (m : ℕ)
      : Type 0 where
    pub available : c.fatal_error_triggered ≡ false
    pub current : create_snapshot p c.storage.db ≡ ok s
    pub no_zero_recipient : elem 0 request.recipients ≡ false
    pub principal_nonzero : request.principal ≢ 0
    pub authentic : has_token p s request.principal request.token ≡ ok true
    pub uuid_nonzero : request.uuid ≢ 0
    pub next_uuid_stored : get_next_uuid p s ≡ ok (value (get_next_uuid p s))
    pub uuid_allocated : request.uuid < value (get_next_uuid p s)
    pub uuid_unused : get_used_uuid_seq p s request.uuid ≡ ok none
    pub payload_fits : length request.payload ≤ c.max_payload_bytes
    pub well_shaped : validate_object_keys_shape request.object_keys ≡ ok tt
    pub max_seq_stored : get_max_seq p s ≡ ok m

  pub check_publish-ok :
      (request : PublishRequest) (context : Option ServerContext) (c c' : Core p)
      (s : p.rocks.Snapshot) (m : ℕ)
      → check_publish p request context c ≡ (ok (s, m), c')
      → (c' ≡ c) × Checked request c s m
  unfolding check_publish ensure_available snapshot_now validate_payload_size authenticate
      validate_available_uuid
  check_publish-ok request context c c' s m h = ground (arith)
