-- ===== src/Core/Snapshots/Sound.antt =====
-- The invariant of the shared snapshot: what the thread and the commits keep true of it (src/service/open_event_core.cpp).
use openevent.Common.{
  ℕ, ◌%◌, ◌≤◌, ◌≡◌, refl, sym, ap, ◌∙◌, subst, Bool, ◌&&◌, ◌==◌, if_both, some, [], ◌∷◌,
  if◌then◌else◌, u64_mod, arith,
}
use openevent.Status.{Result, ok, fail, Status, Error}
use openevent.Platform.{Platform, Lawful}
use openevent.Storage.Rocks.Updates.{Batch}
use openevent.Storage.Reads.Views.{create_snapshot-view}
use openevent.Storage.State.{UnifiedStorage, create_snapshot}
use openevent.Core.State.{Core, fatal_storage_error}
use openevent.Core.Snapshots.{
  World, wrote, counted, Refresher, waiting, loaded, taken, failing, finished, wake, take_snapshot,
  published, publish_snapshot, report_fatal, hand_over, count_commit, Step, wakes, takes, publishes,
  reports, hands_over, counts, fails, stops, Reach, here, next, started, must_leave, has_snapshot,
  first_snapshot,
}
use openevent.Core.Snapshots.History.{counted_in, latest, IsPast-refl}
use openevent.Core.Snapshots.Shown.{Shows, Held, InHand, Held-later, InHand-later}

module _ (p : Platform) where
  pub record IsSound (w : World p) : Type 0 where
    pub current : latest w.history ≡ some w.core.storage.db
    pub count : w.core.commit_generation ≡ counted_in w.history % u64_mod
    pub held : Held w.history w.shared.generation w.shared.snapshot
    pub in_hand : InHand w.history w.refresher

  module _ (law : Lawful p) where
    created :
        (w : World p) (g : ℕ) (s : p.rocks.Snapshot)
        → IsSound w
        → g ≤ counted_in w.history
        → create_snapshot p w.core.storage.db ≡ ok s
        → Shows w.history g s
    created w g s i le e = record {
      past = w.history;
      is_past = IsPast-refl w.history;
      enough = le;
      db = w.core.storage.db;
      is_latest = i.current;
      shown = create_snapshot-view p law w.core.storage.db s e;
    }

    -- A step that leaves the core, the shared members and the history alone.
    moved :
        (w : World p) (r : Refresher p)
        → IsSound w
        → InHand w.history r
        → IsSound (record w { refresher = r })
    moved w r i h = record { current = i.current; count = i.count; held = i.held; in_hand = h }

    wake-IsSound : (w : World p) → IsSound w → IsSound (wake p w)
    unfolding wake
    wake-IsSound w i = if_both IsSound (must_leave p w) _ _ (moved w finished i tt) (
        if_both IsSound
          (has_snapshot p w.shared.snapshot && w.core.commit_generation == w.shared.generation) w _
          i (moved w (loaded w.core.commit_generation) i (omega (arith, i.count))))

    take_cases :
        (w : World p) (g : ℕ) (r : Result p.rocks.Snapshot)
        → IsSound w
        → g ≤ counted_in w.history
        → create_snapshot p w.core.storage.db ≡ r
        → InHand w.history (taken g r)
    take_cases w g (ok s) i le e = created w g s i le e
    take_cases w g (fail _) i le e = tt

    take-IsSound :
        (w : World p) (g : ℕ) → IsSound w → g ≤ counted_in w.history → IsSound (take_snapshot p w g)
    unfolding take_snapshot
    take-IsSound w g i le =
        moved w (taken g (create_snapshot p w.core.storage.db)) i (take_cases w g _ i le refl)

    published-IsSound :
        (w : World p) (g : ℕ) (r : Result p.rocks.Snapshot)
        → IsSound w
        → InHand w.history (taken g r)
        → IsSound (published p w g r)
    published-IsSound w g (ok s) i h = record {
      current = i.current;
      count = i.count;
      held = h;
      in_hand = tt;
    }
    published-IsSound w g (fail e) i h = record {
      current = i.current;
      count = i.count;
      held = i.held;
      in_hand = if_both (InHand w.history) e.requires_server_exit (failing e) waiting tt tt;
    }

    publish-IsSound :
        (w : World p) (g : ℕ) (r : Result p.rocks.Snapshot)
        → IsSound w
        → InHand w.history (taken g r)
        → IsSound (publish_snapshot p w g r)
    unfolding publish_snapshot
    publish-IsSound w g r i h =
        if_both IsSound w.core.fatal_error_triggered _ (published p w g r) (moved w finished i tt)
          (published-IsSound w g r i h)

    fatal-same :
        (e : Error) (c : Core p)
        → ((fatal_storage_error e c).storage ≡ c.storage)
          × ((fatal_storage_error e c).commit_generation ≡ c.commit_generation)
    unfolding fatal_storage_error
    fatal-same e c =
        if_both (λ c'. (c'.storage ≡ c.storage) × (c'.commit_generation ≡ c.commit_generation))
          c.fatal_error_triggered c _ (refl, refl) (refl, refl)

    -- The core after a status that is fatal only if it requires the server to exit.
    maybe-same :
        (e : Error) (b : Bool) (c : Core p)
        → let c' = if b then fatal_storage_error e c else c in
          (c'.storage ≡ c.storage) × (c'.commit_generation ≡ c.commit_generation)
    maybe-same e b c =
        if_both (λ c'. (c'.storage ≡ c.storage) × (c'.commit_generation ≡ c.commit_generation)) b
          (fatal_storage_error e c) c (fatal-same e c) (refl, refl)

    fatal-IsSound :
        (w : World p) (e : Error) (r : Refresher p)
        → IsSound w
        → InHand w.history r
        → IsSound (record w { core = fatal_storage_error e w.core; refresher = r })
    fatal-IsSound w e r i h =
        let (storage, generation) = fatal-same e w.core in
        record {
          current = i.current ∙ ap (λ s. some s.db) (sym storage);
          count = generation ∙ i.count;
          held = i.held;
          in_hand = h;
        }

    hand_over-IsSound : (w : World p) (batch : Batch) → IsSound w → IsSound (hand_over p w batch)
    unfolding hand_over
    hand_over-IsSound w batch i = record {
      current = refl;
      count = i.count;
      held = Held-later (wrote _) w.history w.shared.generation w.shared.snapshot i.held;
      in_hand = InHand-later (wrote _) w.history w.refresher i.in_hand;
    }

    count-IsSound : (w : World p) (r : Status) → IsSound w → IsSound (count_commit p w r)
    unfolding count_commit
    count-IsSound w (ok _) i = record {
      current = i.current;
      count = omega (arith, i.count);
      held = Held-later counted w.history w.shared.generation w.shared.snapshot i.held;
      in_hand = InHand-later counted w.history w.refresher i.in_hand;
    }
    count-IsSound w (fail e) i =
        let (storage, generation) = maybe-same e e.requires_server_exit w.core in
        record {
          current = i.current ∙ ap (λ s. some s.db) (sym storage);
          count = generation ∙ i.count;
          held = i.held;
          in_hand = i.in_hand;
        }

    report-IsSound : (w : World p) (e : Error) → IsSound w → IsSound (report_fatal p w e)
    unfolding report_fatal
    report-IsSound w e i = fatal-IsSound w e finished i tt

    pub Step-IsSound : {w w' : World p} → Step p w w' → IsSound w → IsSound w'
    Step-IsSound {w} (wakes at) i = wake-IsSound w i
    Step-IsSound {w} (takes g at) i = take-IsSound w g i (subst (InHand w.history) at i.in_hand)
    Step-IsSound {w} (publishes g r at) i =
        publish-IsSound w g r i (subst (InHand w.history) at i.in_hand)
    Step-IsSound {w} (reports e at) i = report-IsSound w e i
    Step-IsSound {w} (hands_over batch at) i = hand_over-IsSound w batch i
    Step-IsSound {w} (counts r at) i = count-IsSound w r i
    Step-IsSound {w} (fails e) i = fatal-IsSound w e w.refresher i i.in_hand
    Step-IsSound {w} stops i = record {
      current = i.current;
      count = i.count;
      held = i.held;
      in_hand = i.in_hand;
    }

    started_cases :
        (core : Core p) (r : Result p.rocks.Snapshot)
        → core.commit_generation ≡ 0
        → create_snapshot p core.storage.db ≡ r
        → let (core', shared) = first_snapshot p core r in
          (core'.storage.db ≡ core.storage.db)
          × (core'.commit_generation ≡ 0)
          × Held {p = p} (wrote core.storage.db ∷ []) shared.generation shared.snapshot
    started_cases core (ok s) zero_commits e = (
      refl,
      zero_commits,
      record {
        past = wrote core.storage.db ∷ [];
        is_past = IsPast-refl _;
        enough = omega arith;
        db = core.storage.db;
        is_latest = refl;
        shown = create_snapshot-view p law core.storage.db s e;
      },
    )
    started_cases core (fail e) zero_commits _ =
        let (storage, generation) = maybe-same e e.requires_server_exit core in
        (ap (λ s. s.db) storage, generation ∙ zero_commits, tt)

    pub started-IsSound :
        (storage : UnifiedStorage p) (payload scan soft : ℕ)
        → IsSound (started p storage payload scan soft)
    unfolding started
    started-IsSound storage payload scan soft =
        let (db, generation, held) = started_cases _ (create_snapshot p storage.db) refl refl in
        record {
          current = ap some (sym db);
          count = generation;
          held = held;
          in_hand = if_both (InHand {p = p} (wrote storage.db ∷ [])) _ finished waiting tt tt;
        }

    pub Reach-IsSound : {w w' : World p} → Reach p w w' → IsSound w → IsSound w'
    Reach-IsSound here i = i
    Reach-IsSound (next r st) i = Step-IsSound st (Reach-IsSound r i)
