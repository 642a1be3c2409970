-- ===== src/Core/Subscriptions.antt =====
-- What the service of subscriptions calls (src/service/open_event_core.cpp): `GetSubscriptionMaxSeq`,
-- `FetchSubscriptionBatch` and `MaxSeq`.
--
-- Between the moment at which `AcquireSubscriptionSnapshot` reads the generation and the moment at
-- which its wait ends other threads act, so that it takes the worlds at both moments.
pub mod Paged
use openevent.Common.{ℕ, Bool, List, Bytes}
use openevent.Status.{Result, ◌>>=◌ as ◌then◌}
use openevent.Platform.{Platform}
use openevent.Storage.Reads.{get_max_seq}
use openevent.Core.State.{M, pure, lift, ◌>>=◌, ◌>>◌, ensure_available, snapshot_now}
use openevent.Core.Publish.{authenticate}
use openevent.Core.Fetch.{FetchRequest, Page, fetch_from, validate_readable_channels}
use openevent.Core.Snapshots.{World, Acquired, required_generation, acquired}

module _ (p : Platform) where
  unfoldable pub acquire_subscription_snapshot : World p → World p → Result (Acquired p)
  acquire_subscription_snapshot asked ready = required_generation p asked then acquired p ready

  -- `called` is the world at the first test for a fatal error.
  unfoldable pub get_subscription_max_seq :
      World p → World p → World p → ℕ → Bytes → List ℕ → Result ℕ
  get_subscription_max_seq called asked ready principal token channels =
      let read : M p ℕ = (do
        a ← lift (acquire_subscription_snapshot asked ready)
        authenticate p a.snapshot principal token
        validate_readable_channels p a.snapshot principal channels
        lift (get_max_seq p a.snapshot)) in
      (ensure_available called.core).0 then λ _. (read ready.core).0

  -- The page and the version of the snapshot that it was read from.
  unfoldable pub fetch_subscription_batch : World p → World p → FetchRequest → Result (Page × ℕ)
  fetch_subscription_batch asked ready request =
      let read : M p (Page × ℕ) = (do
        a ← lift (acquire_subscription_snapshot asked ready)
        page ← fetch_from p a.snapshot request
        pure (page, a.version)) in
      (read ready.core).0

  unfoldable pub max_seq : M p ℕ
  max_seq = do ensure_available; snapshot ← snapshot_now; lift (get_max_seq p snapshot)
