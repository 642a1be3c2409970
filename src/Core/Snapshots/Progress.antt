-- ===== src/Core/Snapshots/Progress.antt =====
-- How the thread that renews the shared snapshot comes to publish one
-- (src/service/open_event_core.cpp, `RefreshSubscriptionSnapshots`).
use openevent.Common.{
  Bool, ℕ, ◌≡◌, refl, ap, subst, inl, inr, true, false, Bool-cases, ◌&&◌, ◌==◌, Option, none, some,
  leb, arith,
}
use openevent.Status.{ok}
use openevent.Platform.{Platform}
use openevent.Storage.State.{create_snapshot}
use openevent.Core.State.{Core}
use openevent.Core.Snapshots.{
  World, waiting, loaded, taken, wake, take_snapshot, published, publish_snapshot, Step, wakes,
  takes, publishes, reports, is_ready, acquired_of, Acquired, must_leave, has_snapshot,
}

module _ (p : Platform) where
  -- Whether a step is one of the thread that renews the snapshot.
  abbrev pub is_of_refresher : {w u : World p} → Step p w u → Bool
  is_of_refresher (wakes at) = true
  is_of_refresher (takes g at) = true
  is_of_refresher (publishes g r at) = true
  is_of_refresher (reports e at) = true
  is_of_refresher _ = false

  -- What that thread reaches alone.
  pub data Renews (w : World p) : World p → Type 0 where
    stays : Renews w w
    also :
        {u v : World p}
        → Renews w u
        → (step : Step p u v) → is_of_refresher step ≡ true
        → Renews w v

  -- One more step, to a world that is known.
  goes_to :
      {w u v v' : World p}
      → Renews w u
      → (step : Step p u v) → is_of_refresher step ≡ true
      → v ≡ v'
      → Renews w v'
  goes_to {w} r step own e = subst (Renews w) e (also r step own)

  -- The shared snapshot is there for the generation of all commits of the core `c`.
  pub record UpToDate (c : Core p) (w : World p) : Type 0 where
    pub same_core : w.core ≡ c
    pub ready : is_ready p w c.commit_generation ≡ true
    pub generation : w.shared.generation ≡ c.commit_generation
    pub acquired : Acquired p
    pub given : acquired_of p w w.shared.snapshot ≡ ok acquired

  -- Three steps of the thread.
  abbrev renewed : World p → p.rocks.Snapshot → World p
  renewed w a =
      let g = w.core.commit_generation in
      published p (record w { refresher = taken g (ok a) }) g (ok a)

  wake-loaded :
      (w : World p)
      → must_leave p w ≡ false
      → (has_snapshot p w.shared.snapshot && w.core.commit_generation == w.shared.generation)
        ≡ false
      → wake p w ≡ record w { refresher = loaded w.core.commit_generation }
  unfolding wake
  wake-loaded w stay stale = rw stay (rw stale refl)

  take-taken :
      (w : World p) (g : ℕ) (a : p.rocks.Snapshot)
      → create_snapshot p w.core.storage.db ≡ ok a
      → take_snapshot p w g ≡ record w { refresher = taken g (ok a) }
  unfolding take_snapshot
  take-taken w g a e = ap (λ r. record w { refresher = taken g r }) e

  publish-published :
      (w : World p) (g : ℕ) (a : p.rocks.Snapshot)
      → w.core.fatal_error_triggered ≡ false
      → publish_snapshot p w g (ok a) ≡ published p w g (ok a)
  unfolding publish_snapshot
  publish-published w g a sound = ground arith

  renewed-Renews :
      (w : World p) (a : p.rocks.Snapshot)
      → w.refresher ≡ waiting
      → must_leave p w ≡ false
      → (has_snapshot p w.shared.snapshot && w.core.commit_generation == w.shared.generation)
        ≡ false
      → create_snapshot p w.core.storage.db ≡ ok a
      → Renews w (renewed w a)
  renewed-Renews w a at stay stale e =
      let g = w.core.commit_generation in
      let w₁ = record w { refresher = loaded g } in
      let w₂ = record w { refresher = taken g (ok a) } in
      let take : Step p w₁ (take_snapshot p w₁ g) = takes g refl in
      let publish : Step p w₂ (publish_snapshot p w₂ g (ok a)) = publishes g (ok a) refl in
      goes_to
        (goes_to (goes_to stays (wakes at) refl (wake-loaded w stay stale)) take refl
          (take-taken w₁ g a e))
        publish refl (publish-published w₂ g a (ground arith))

  current_snapshot :
      (w : World p) (o : Option p.rocks.Snapshot)
      → has_snapshot p o ≡ true
      → (a : Acquired p) × (acquired_of p w o ≡ ok a)
  current_snapshot w (some s) h = (record { snapshot = s; version = w.shared.version }, refl)
  current_snapshot w none h = absurd (ground arith)

  ready_at : (w : World p) (r : ℕ) → leb r w.shared.generation ≡ true → is_ready p w r ≡ true
  unfolding is_ready
  ready_at w r h = ground arith

  -- Where the thread that renews the shared snapshot waits, neither it nor the server is being
  -- stopped and the database gives a snapshot, the steps of that thread alone lead to a moment with
  -- the same core at which a method that asked for the generation of the last commit may return,
  -- and at which there is a snapshot of that generation to return.
  pub refresh-UpToDate :
      (w : World p) (a : p.rocks.Snapshot)
      → w.refresher ≡ waiting
      → w.shared.stop ≡ false
      → w.core.fatal_error_triggered ≡ false
      → create_snapshot p w.core.storage.db ≡ ok a
      → (u : World p) × Renews w u × UpToDate w.core u
  refresh-UpToDate w a at running sound e =
      elim (Bool-cases
        (has_snapshot p w.shared.snapshot && w.core.commit_generation == w.shared.generation)) [
          | inl current ↦
              let (b, shown) = current_snapshot w w.shared.snapshot (ground (arith, current)) in
              (
                w,
                stays,
                record {
                  same_core = refl;
                  ready = ready_at w _ (ground (arith, current));
                  generation = ground (arith, current);
                  acquired = b;
                  given = shown;
                },
              )
          | inr stale ↦ (
            renewed w a,
            renewed-Renews w a at (ground arith) stale e,
            record {
              same_core = refl;
              ready = ready_at (renewed w a) _ (ground arith);
              generation = refl;
              acquired = record { snapshot = a; version = (renewed w a).shared.version };
              given = refl;
            },
          )
        ]
