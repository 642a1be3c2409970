-- ===== src/Core/Subscriptions/Paged.antt =====
-- The batches of a subscription (src/service/open_event_core.cpp, `FetchSubscriptionBatch`).
use openevent.Common.{ℕ, suc, ◌≡◌, ◌≢◌, false, true, some, [], arith, All, IsU64, inl, inr}
use openevent.Status.{Result, ok, fail, Result-cases}
use openevent.Platform.{Platform, Lawful}
use openevent.Storage.Keys.{max_seq_key, token_key}
use openevent.Storage.Reads.{get_max_seq}
use openevent.Storage.Reads.Views.{Holds, get_max_seq-Holds, has_token-true}
use openevent.Storage.Rocks.Updates.{meta}
use openevent.Storage.State.{UnifiedStorage}
use openevent.Core.State.{Core}
use openevent.Core.Fetch.{FetchRequest, Page, fetch_from, fetch_visible}
use openevent.Core.Fetch.Returned.{IsPage, fetch_visible-IsPage, fetch_from-ok}
use openevent.Core.Fetch.Shown.{fetch_from-Readable, All-IsVisible, IsVisible}
use openevent.Core.Fetch.Stored.{IsStored, fetch_visible-IsStored}
use openevent.Core.Snapshots.{World, Reach, started, required_generation, is_ready, Acquired}
use openevent.Core.Snapshots.History.{counted_in}
use openevent.Core.Snapshots.Freshness.{IsFresh, acquire-IsFresh}
use openevent.Core.Subscriptions.{acquire_subscription_snapshot, fetch_subscription_batch}

module _ (p : Platform) where
  -- A page of what the snapshot shows, for a principal whose token it has.
  pub record IsPageOf (s : p.rocks.Snapshot) (request : FetchRequest) (page : Page) : Type 0 where
    pub max : ℕ
    pub max_stored : Holds (p.rocks.view s meta max_seq_key) max
    pub is_page : IsU64 (suc max) → IsPage request max page
    pub known : p.rocks.view s meta (token_key request.principal request.token) ≡ some []
    pub visible :
        All (λ m. IsVisible p (p.rocks.view s) request.principal m.channel_id) page.messages
    pub stored : All (IsStored p (p.rocks.view s)) page.messages

  fetch_visible-max :
      (s : p.rocks.Snapshot) (request : FetchRequest) (page : Page) (c c' : Core p)
      → fetch_visible p s request c ≡ (ok page, c')
      → (max : ℕ) × (get_max_seq p s ≡ ok max)
  unfolding fetch_visible
  fetch_visible-max s request page c c' h = elim (Result-cases (get_max_seq p s)) [
    | inr (e, failed) ↦ absurd (ground (arith, failed))
    | inl (max, read) ↦ (max, read)
  ]

  pub fetch_from-IsPageOf :
      (law : Lawful p) (s : p.rocks.Snapshot) (request : FetchRequest) (page : Page) (c c' : Core p)
      → request.limit ≢ 0
      → fetch_from p s request c ≡ (ok page, c')
      → IsPageOf s request page
  fetch_from-IsPageOf law s request page c c' some_limit h =
      let (c₁, shown) = fetch_from-ok p s request page c c' h in
      let (max, read) = fetch_visible-max s request page c₁ c' shown in
      let (known, readable) = fetch_from-Readable p s request page c c' h in
      record {
        max = max;
        max_stored = get_max_seq-Holds p law s max read;
        is_page = λ small.
            fetch_visible-IsPage p law s request max page c₁ c' (get_max_seq-Holds p law s max read)
              small some_limit shown;
        known = has_token-true p law s request.principal request.token known;
        visible = All-IsVisible p law s request.principal page.messages readable;
        stored = fetch_visible-IsStored p law s request page c₁ c' shown;
      }

  read-ok :
      (r : Result Page × Core p) (version v : ℕ) (page : Page)
      → (elim r.0 as (λ _. Result (Page × ℕ) × Core p) [
        | ok q ↦ (ok (q, version), r.1)
        | fail e ↦ (fail e, r.1)
      ]).0
        ≡ ok (page, v)
      → r ≡ (ok page, r.1)
  read-ok (ok q, c) version v page h = ground arith
  read-ok (fail e, c) version v page h = absurd (ground arith)

  -- A batch that returns was read from a snapshot that was acquired.
  pub batch-ok :
      (asked ready : World p) (request : FetchRequest) (page : Page) (version : ℕ)
      → fetch_subscription_batch p asked ready request ≡ ok (page, version)
      → (a : Acquired p) × (acquire_subscription_snapshot p asked ready ≡ ok a)
        × (c' : Core p) × (fetch_from p a.snapshot request ready.core ≡ (ok page, c'))
  unfolding fetch_subscription_batch
  batch-ok asked ready request page version h =
      elim (Result-cases (acquire_subscription_snapshot p asked ready)) [
        | inr (e, failed) ↦ absurd (ground (arith, failed))
        | inl (a, got) ↦ (
          a,
          got,
          _,
          read-ok (fetch_from p a.snapshot request ready.core) a.version version page
              (rw (got, fetch_subscription_batch) at h),
        )
      ]

  -- Let a batch of a limit that is not zero be asked for at one moment of a run of the threads and
  -- let its wait for a snapshot end at another, the core then not being stopped; let fewer than
  -- 2^64 commits have been acknowledged at the first moment. If it returns, there is a snapshot of
  -- the database as it was at one moment up to the second, when every commit that had been
  -- acknowledged at the first moment had been made; it has the token of the principal; each message
  -- of the page is stored in it, under a key of the message's number, and is of the system channel
  -- or of a channel in it that the principal could read; and if its stored maximum and the
  -- successor fit 64 bits, the page has that maximum as its last number, no more messages than
  -- asked for, all of them wanted and with numbers from the asked one on and before the next one,
  -- which is at most one above the maximum, ascending where the asked number is no greater than
  -- that, and it goes forward or is empty.
  pub fetch_subscription_batch-IsPageOf :
      (law : Lawful p) (storage : UnifiedStorage p) (payload scan soft : ℕ) (asked ready : World p)
      (required : ℕ) (request : FetchRequest) (page : Page) (version : ℕ)
      → Reach p (started p storage payload scan soft) asked
      → Reach p asked ready
      → IsU64 (counted_in asked.history)
      → ready.shared.stop ≡ false
      → ready.core.fatal_error_triggered ≡ false
      → required_generation p asked ≡ ok required
      → is_ready p ready required ≡ true
      → request.limit ≢ 0
      → fetch_subscription_batch p asked ready request ≡ ok (page, version)
      → (s : p.rocks.Snapshot) × IsFresh p asked ready s × IsPageOf s request page
  unfolding acquire_subscription_snapshot
  fetch_subscription_batch-IsPageOf law storage payload scan soft asked ready required request page
        version run on small running sound asks waited some_limit h =
      let (a, got, c', read) = batch-ok asked ready request page version h in
      (
        a.snapshot,
        acquire-IsFresh p law storage payload scan soft asked ready required a run on asks small
            running sound waited (rw asks at got),
        fetch_from-IsPageOf law a.snapshot request page ready.core c' some_limit read,
      )
