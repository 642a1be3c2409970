-- ===== src/Core/Snapshots.antt =====
-- The snapshot that subscriptions share (src/service/open_event_core.cpp): the thread that renews it,
-- the commits that it races with, and the methods that wait for it and read it.
--
-- A step is what a thread does between two points at which another thread may act: under
-- `subscription_snapshot_mu_`, or with one access to an atomic variable, to the database or to a
-- member that `coordinator_mu_` guards. Time is not modelled: the thread may wake at any moment.
pub mod History
pub mod Shown
pub mod Sound
pub mod Freshness
pub mod Progress
use openevent.Common.{
  ℕ, suc, ◌+◌, ◌%◌, ◌≡◌, Bool, true, false, not, ◌&&◌, ◌||◌, Option, none, some, List, [], ◌∷◌, ltb,
  leb, ◌==◌, if◌then◌else◌, u64_mod,
}
use openevent.Status.{Result, ok, fail, Status, success, Error, error, unavailable, ◌>>=◌, ◌>>◌}
use openevent.Platform.{Platform}
use openevent.Storage.Rocks.Updates.{Batch}
use openevent.Storage.State.{UnifiedStorage, create_snapshot, commit}
use openevent.Core.State.{Core, ensure_available, after_commit, fatal_storage_error}

module _ (p : Platform) where
  -- The members `subscription_snapshot_...`.
  pub record Shared : Type 0 where
    pub snapshot : Option p.rocks.Snapshot
    pub version : ℕ
    pub generation : ℕ
    pub attempt_generation : ℕ
    pub status : Status
    pub stop : Bool

  -- Where the thread that renews the snapshot stands, with its local variables.
  pub data Refresher : Type 0 where
    waiting : Refresher
    -- It has read the commit generation and has given up the lock.
    loaded : ℕ → Refresher
    -- It has called `CreateSnapshot`.
    taken : ℕ → Result p.rocks.Snapshot → Refresher
    -- It is about to call `FatalStorageError`.
    failing : Error → Refresher
    finished : Refresher

  -- A commit under `coordinator_mu_`: none, or one whose batch has been handed to the database.
  pub data Committer : Type 0 where
    idle : Committer
    handed : Status → Committer

  -- What has happened to the database, latest first: it became another, and a commit was counted.
  pub data Event : Type 0 where
    wrote : p.rocks.Db → Event
    counted : Event

  pub record World : Type 0 where
    pub core : Core p
    pub shared : Shared
    pub refresher : Refresher
    pub committer : Committer
    pub history : List Event

  abbrev pub is_ok : Status → Bool
  is_ok (ok _) = true
  is_ok (fail e) = false

  -- The constructor, up to the start of the thread.
  abbrev first_snapshot : Core p → Result p.rocks.Snapshot → Core p × Shared
  first_snapshot core (ok s) = (
    core,
    record {
      snapshot = some s;
      version = 1;
      generation = 0;
      attempt_generation = 0;
      status = success;
      stop = false;
    },
  )
  first_snapshot core (fail e) = (
    if e.requires_server_exit then fatal_storage_error e core else core,
    record {
      snapshot = none;
      version = 0;
      generation = 0;
      attempt_generation = 0;
      status = fail e;
      stop = false;
    },
  )

  -- `kMessagePageSoftBytes`, which a limit of 0 stands for.
  abbrev message_page_soft_bytes : ℕ
  message_page_soft_bytes = 17825792

  unfoldable pub started : UnifiedStorage p → ℕ → ℕ → ℕ → World
  started storage max_payload_bytes max_scan_records response_soft_limit_bytes =
      let core : Core p = record {
        storage = storage;
        max_payload_bytes = max_payload_bytes;
        max_scan_records = max_scan_records;
        response_soft_limit_bytes =
            if response_soft_limit_bytes == 0
            then message_page_soft_bytes
            else response_soft_limit_bytes;
        commit_generation = 0;
        fatal_error_triggered = false;
        handled = [];
      } in
      let (core', shared) = first_snapshot core (create_snapshot p storage.db) in
      record {
        core = core';
        shared = shared;
        refresher = if core'.fatal_error_triggered then finished else waiting;
        committer = idle;
        history = wrote storage.db ∷ [];
      }

  -- The predicate under which the thread leaves its loop.
  abbrev pub must_leave : World → Bool
  must_leave w = w.shared.stop || w.core.fatal_error_triggered

  abbrev has_snapshot : Option p.rocks.Snapshot → Bool
  has_snapshot none = false
  has_snapshot (some s) = true

  -- From the wait to `CreateSnapshot`.
  unfoldable pub wake : World → World
  wake w =
      if must_leave w
      then record w { refresher = finished }
      else if has_snapshot w.shared.snapshot && w.core.commit_generation == w.shared.generation
      then w
      else record w { refresher = loaded w.core.commit_generation }

  unfoldable pub take_snapshot : World → ℕ → World
  take_snapshot w generation = record w {
    refresher = taken generation (create_snapshot p w.core.storage.db);
  }

  abbrev published : World → ℕ → Result p.rocks.Snapshot → World
  published w g (ok s) = record w {
    refresher = waiting;
    shared = record w.shared {
      snapshot = some s;
      attempt_generation = g;
      generation = g;
      version = (w.shared.version + 1) % u64_mod;
      status = success;
    };
  }
  published w g (fail e) = record w {
    refresher = if e.requires_server_exit then failing e else waiting;
    shared = record w.shared { attempt_generation = g; status = fail e };
  }

  -- From `CreateSnapshot` to the next wait, or to `FatalStorageError`.
  unfoldable pub publish_snapshot : World → ℕ → Result p.rocks.Snapshot → World
  publish_snapshot w generation r =
      if w.core.fatal_error_triggered
      then record w { refresher = finished }
      else published w generation r

  unfoldable pub report_fatal : World → Error → World
  report_fatal w e = record w { core = fatal_storage_error e w.core; refresher = finished }

  -- The two halves of `CommitBatch`: `Commit`, and what follows.
  unfoldable pub hand_over : World → Batch → World
  hand_over w batch =
      let (r, storage') = commit p w.core.storage batch in
      record w {
        core = record w.core { storage = storage' };
        committer = handed r;
        history = wrote storage'.db ∷ w.history;
      }

  abbrev note : Status → List Event → List Event
  note (ok _) h = counted ∷ h
  note (fail e) h = h

  unfoldable pub count_commit : World → Status → World
  count_commit w r = record w {
    core = (after_commit r w.core).1;
    committer = idle;
    history = note r w.history;
  }

  -- One step of any thread. The premises say where the thread stands.
  pub data Step (w : World) : World → Type 0 where
    wakes : w.refresher ≡ waiting → Step w (wake w)
    takes : (g : ℕ) → w.refresher ≡ loaded g → Step w (take_snapshot w g)
    publishes :
        (g : ℕ) (r : Result p.rocks.Snapshot)
        → w.refresher ≡ taken g r
        → Step w (publish_snapshot w g r)
    reports : (e : Error) → w.refresher ≡ failing e → Step w (report_fatal w e)
    hands_over : (batch : Batch) → w.committer ≡ idle → Step w (hand_over w batch)
    counts : (r : Status) → w.committer ≡ handed r → Step w (count_commit w r)
    -- A method meets a fatal storage error; the destructor stops the thread.
    fails : (e : Error) → Step w (record w { core = fatal_storage_error e w.core })
    stops : Step w (record w { shared = record w.shared { stop = true } })

  pub data Reach (w : World) : World → Type 0 where
    here : Reach w w
    next : {u v : World} → Reach w u → Step u v → Reach w v

  -- `AcquireSubscriptionSnapshot`: the generation that it reads, the predicate that it waits for, and
  -- what it returns then.
  unfoldable pub required_generation : World → Result ℕ
  required_generation w = (ensure_available w.core).0 >> ok w.core.commit_generation

  abbrev pub has_failed : World → ℕ → Bool
  has_failed w required = not (is_ok w.shared.status) && leb required w.shared.attempt_generation

  unfoldable pub is_ready : World → ℕ → Bool
  is_ready w required =
      w.shared.stop
      || (w.core.fatal_error_triggered
          || (leb required w.shared.generation || has_failed w required))

  pub record Acquired : Type 0 where
    pub snapshot : p.rocks.Snapshot
    pub version : ℕ

  abbrev pub acquired_of : World → Option p.rocks.Snapshot → Result Acquired
  acquired_of w (some s) = ok (record { snapshot = s; version = w.shared.version })
  acquired_of w none =
      if w.core.fatal_error_triggered
      then fail (error unavailable "subscription snapshot is unavailable after fatal storage error")
      else fail (error unavailable "subscription snapshot is unavailable")

  abbrev pub failure_or : Status → Result Acquired → Result Acquired
  failure_or (ok _) r = r
  failure_or (fail e) r = fail e

  unfoldable pub acquired : World → ℕ → Result Acquired
  acquired w required =
      if has_failed w required
      then failure_or w.shared.status (acquired_of w w.shared.snapshot)
      else acquired_of w w.shared.snapshot

  -- `WaitForSubscriptionSnapshot`: what it returns, where a wait that has not timed out ends as soon
  -- as this holds or the thread is stopped.
  unfoldable pub has_news : World → ℕ → Bool
  has_news w observed_version =
      w.core.fatal_error_triggered
      || (not (w.shared.version == observed_version)
          || (not (is_ok w.shared.status) && ltb w.shared.generation w.shared.attempt_generation))
