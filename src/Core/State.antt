-- ===== src/Core/State.antt =====
-- The state of `OpenEventCore` and how its methods run (src/service/open_event_core.h and .cpp).
--
-- A method is a function from the state to a result and the state that it leaves: what was done
-- before an early return stays done. A block under `coordinator_mu_` is one such function, so it
-- runs as a whole; what other threads do between two blocks is an argument of the method.
pub mod Inversion
pub mod Atomicity
use openevent.Common.{
  ℕ, ◌+◌, ◌%◌, Bool, true, false, Option, none, some, List, [], ◌∷◌, ◌++◌, ◌==◌, if◌then◌else◌,
  u64_mod,
}
use openevent.Status.{
  Result, ok, fail, Status, success, Error, error, unavailable, invalid_argument, unauthenticated,
  deadline_exceeded, cancelled, is_storage_fatal, Text,
}
use openevent.Platform.{Platform}
use openevent.Storage.Rocks.Updates.{Batch}
use openevent.Storage.State.{UnifiedStorage, create_snapshot, commit}

pub record Core (p : Platform) : Type 0 where
  pub storage : UnifiedStorage p
  pub max_payload_bytes : ℕ
  pub max_scan_records : ℕ
  pub response_soft_limit_bytes : ℕ
  pub commit_generation : ℕ
  pub fatal_error_triggered : Bool
  -- The statuses with which `fatal_error_handler_` was called, latest first.
  pub handled : List Error

-- What `grpc::ServerContext` says at one moment.
pub record ServerContext : Type 0 where
  pub is_past_deadline : Bool
  pub is_cancelled : Bool

-- `context == nullptr` is `none`.
unfoldable pub check_rpc_active : Option ServerContext → Status
check_rpc_active none = success
check_rpc_active (some context) =
    if context.is_past_deadline
    then fail (error deadline_exceeded "RPC deadline exceeded")
    else if context.is_cancelled
    then fail (error cancelled "RPC cancelled")
    else success

abbrev pub M : Platform → Type 0 → Type 0
M p A = Core p → Result A × Core p

module _ {p : Platform} {A : Type 0} where
  abbrev pub pure : A → M p A
  pure a c = (ok a, c)

  abbrev pub raise : Error → M p A
  raise e c = (fail e, c)

  abbrev pub lift : Result A → M p A
  lift r c = (r, c)

infixl 5 ◌>>=◌ ◌>>◌
abbrev pub ◌>>=◌ : {p : Platform} {A B : Type 0} → M p A → (A → M p B) → M p B
◌>>=◌ m f c = let (r, c') = m c in elim r [ ok a ↦ f a c' | fail e ↦ (fail e, c') ]

abbrev pub ◌>>◌ : {p : Platform} {B : Type 0} → M p (Unit {0}) → M p B → M p B
m >> k = m >>= λ _. k

abbrev pub refuse_if : {p : Platform} → Bool → Error → M p (Unit {0})
refuse_if true e = raise e
refuse_if false e = pure tt

module _ {p : Platform} where
  unfoldable pub ensure_available : M p (Unit {0})
  ensure_available c =
      if c.fatal_error_triggered
      then (fail (error unavailable "server is shutting down due to a fatal storage error"), c)
      else (success, c)

  -- `FatalStorageError` returns its argument; the handler is called the first time only.
  unfoldable pub fatal_storage_error : Error → Core p → Core p
  fatal_storage_error e c =
      if c.fatal_error_triggered
      then c
      else record c { fatal_error_triggered = true; handled = e ∷ c.handled }

  -- `requires_server_exit() || code() == DATA_LOSS ? FatalStorageError(e) : e`
  unfoldable pub raise_storage : {A : Type 0} → Error → M p A
  raise_storage e c = (fail e, if is_storage_fatal e then fatal_storage_error e c else c)

  unfoldable pub snapshot_now : M p p.rocks.Snapshot
  snapshot_now c = (create_snapshot p c.storage.db, c)

  abbrev pub after_commit : Status → Core p → Status × Core p
  after_commit (ok _) c =
      (success, record c { commit_generation = (c.commit_generation + 1) % u64_mod })
  after_commit (fail e) c = (fail e, if e.requires_server_exit then fatal_storage_error e c else c)

  unfoldable pub commit_batch : Batch → M p (Unit {0})
  unfolding fatal_storage_error
  commit_batch batch c =
      let (committed, storage') = commit p c.storage batch in
      after_commit committed (record c { storage = storage' })

  -- `HandleRpcStatus`, of a status that is not OK.
  unfoldable pub handle_rpc_error : Error → Core p → Error × Core p
  handle_rpc_error e c = (e, if is_storage_fatal e then fatal_storage_error e c else c)
