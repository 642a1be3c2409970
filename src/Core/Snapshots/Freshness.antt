-- ===== src/Core/Snapshots/Freshness.antt =====
-- What a subscription that waits for the shared snapshot is given
-- (src/service/open_event_core.cpp, `AcquireSubscriptionSnapshot`).
use openevent.Common.{
  ℕ, ◌≤◌, ◌≡◌, sym, subst, inl, inr, Bool-cases, true, false, Option, none, some, List, IsU64,
  arith,
}
use openevent.Status.{Result, ok, fail, Status}
use openevent.Platform.{Platform, Lawful}
use openevent.Storage.State.{UnifiedStorage}
use openevent.Core.State.{ensure_available}
use openevent.Core.Snapshots.{
  World, Event, wrote, counted, wake, take_snapshot, publish_snapshot, report_fatal, hand_over,
  count_commit, Step, wakes, takes, publishes, reports, hands_over, counts, fails, stops, Reach,
  here, next, started, required_generation, is_ready, acquired, acquired_of, failure_or, has_failed,
  Acquired, is_ok,
}
use openevent.Core.Snapshots.History.{
  counted_in, latest, acknowledged, IsPast, IsPast-refl, IsPast-later, IsPast-trans,
  acknowledged-IsPast,
}
use openevent.Core.Snapshots.Shown.{Held, Shows}
use openevent.Core.Snapshots.Sound.{IsSound, Reach-IsSound, started-IsSound}

module _ (p : Platform) where
  -- The snapshot shows the database at one moment up to `t`, and then it held all that was
  -- acknowledged at `s`.
  pub record IsFresh (s t : World p) (a : p.rocks.Snapshot) : Type 0 where
    pub past : List (Event p)
    pub is_past : IsPast past t.history
    pub includes : IsPast (acknowledged s.history) past
    pub db : p.rocks.Db
    pub is_latest : latest past ≡ some db
    pub shown : p.rocks.view a ≡ p.rocks.contents db

  wake-history : (w : World p) → (wake p w).history ≡ w.history
  unfolding wake
  wake-history w = ground arith

  publish-history :
      (w : World p) (g : ℕ) (r : Result p.rocks.Snapshot)
      → (publish_snapshot p w g r).history ≡ w.history
  unfolding publish_snapshot
  publish-history w g (ok s) = ground arith
  publish-history w g (fail e) = ground arith

  same-IsPast : (g h : List (Event p)) → h ≡ g → IsPast g h
  same-IsPast g h e = subst (IsPast g) (sym e) (IsPast-refl g)

  count-IsPast : (w : World p) (r : Status) → IsPast w.history (count_commit p w r).history
  unfolding count_commit
  count-IsPast w (ok _) = IsPast-later counted w.history w.history (IsPast-refl w.history)
  count-IsPast w (fail e) = IsPast-refl w.history

  Step-IsPast : {w w' : World p} → Step p w w' → IsPast w.history w'.history
  unfolding take_snapshot report_fatal hand_over
  Step-IsPast {w} (wakes at) = same-IsPast _ _ (wake-history w)
  Step-IsPast {w} (takes g at) = IsPast-refl w.history
  Step-IsPast {w} (publishes g r at) = same-IsPast _ _ (publish-history w g r)
  Step-IsPast {w} (reports e at) = IsPast-refl w.history
  Step-IsPast {w} (hands_over batch at) =
      IsPast-later (wrote _) w.history w.history (IsPast-refl w.history)
  Step-IsPast {w} (counts r at) = count-IsPast w r
  Step-IsPast {w} (fails e) = IsPast-refl w.history
  Step-IsPast {w} stops = IsPast-refl w.history

  Reach-IsPast : {w w' : World p} → Reach p w w' → IsPast w.history w'.history
  Reach-IsPast {w} here = IsPast-refl w.history
  Reach-IsPast (next r st) = IsPast-trans _ _ _ (Reach-IsPast r) (Step-IsPast st)

  -- A wait that ended though the core still runs ended with a new generation or with a failure.
  ready_cases :
      (t : World p) (r : ℕ)
      → t.shared.stop ≡ false
      → t.core.fatal_error_triggered ≡ false
      → is_ready p t r ≡ true
      → has_failed p t r ≡ false
      → r ≤ t.shared.generation
  unfolding is_ready
  ready_cases t r running sound ready healthy = ground arith

  failed_returns :
      (status : Status) (r : Result (Acquired p)) (a : Acquired p)
      → is_ok p status ≡ false
      → failure_or p status r ≡ ok a
      → ⊥
  failed_returns (ok _) r a bad e = ground arith
  failed_returns (fail x) r a bad e = ground arith

  acquired_cases :
      (t : World p) (r : ℕ) (a : Acquired p)
      → acquired p t r ≡ ok a
      → (has_failed p t r ≡ false) × (acquired_of p t t.shared.snapshot ≡ ok a)
  unfolding acquired
  acquired_cases t r a e = elim (Bool-cases (has_failed p t r)) [
    | inl failed ↦ absurd (
        failed_returns t.shared.status (acquired_of p t t.shared.snapshot) a
          (ground (arith, failed)) (ground (arith, failed)))
    | inr healthy ↦ (healthy, ground (arith, healthy))
  ]

  acquired_held :
      (t : World p) (o : Option p.rocks.Snapshot) (a : Acquired p) (g : ℕ)
      → acquired_of p t o ≡ ok a
      → Held t.history g o
      → Shows t.history g a.snapshot
  acquired_held t (some s) a g e h = subst (Shows t.history g) (ground arith) h
  acquired_held t none a g e h = absurd (ground (arith, Bool-cases t.core.fatal_error_triggered))

  required :
      (s : World p) (r : ℕ)
      → IsSound p s
      → required_generation p s ≡ ok r
      → IsU64 (counted_in s.history)
      → r ≡ counted_in s.history
  unfolding required_generation ensure_available
  required s r i e small =
      let read : r ≡ s.core.commit_generation = ground arith in omega (arith, read, i.count)

  -- Let a method ask for the shared snapshot at one moment of a run of the threads and let its wait
  -- end at another, the core then not being stopped; let fewer than 2^64 commits have been
  -- acknowledged at the first moment. If it returns a snapshot, that shows the database as it was
  -- at one moment up to the second, and by then every commit that had been acknowledged at the
  -- first moment had been made.
  pub acquire-IsFresh :
      (law : Lawful p) (storage : UnifiedStorage p) (payload scan soft : ℕ) (s t : World p) (r : ℕ)
      (a : Acquired p)
      → Reach p (started p storage payload scan soft) s
      → Reach p s t
      → required_generation p s ≡ ok r
      → IsU64 (counted_in s.history)
      → t.shared.stop ≡ false
      → t.core.fatal_error_triggered ≡ false
      → is_ready p t r ≡ true
      → acquired p t r ≡ ok a
      → IsFresh s t a.snapshot
  acquire-IsFresh law storage payload scan soft s t r a run on asked small running sound ready got =
      let (healthy, given) = acquired_cases t r a got in
      let i = Reach-IsSound p law run (started-IsSound p law storage payload scan soft) in
      let j = Reach-IsSound p law on i in
      let held = acquired_held t t.shared.snapshot a t.shared.generation given j.held in
      let enough : counted_in s.history ≤ counted_in held.past = omega (
        arith,
        required s r i asked small,
        ready_cases t r running sound ready healthy,
        held.enough,
      ) in
      record {
        past = held.past;
        is_past = held.is_past;
        includes =
            acknowledged-IsPast held.past s.history t.history held.is_past (Reach-IsPast on) enough;
        db = held.db;
        is_latest = held.is_latest;
        shown = held.shown;
      }
