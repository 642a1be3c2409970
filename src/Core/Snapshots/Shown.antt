-- ===== src/Core/Snapshots/Shown.antt =====
-- What a snapshot shows of the history of the database (src/service/open_event_core.cpp).
use openevent.Common.{ℕ, ◌≤◌, ◌≡◌, Option, none, some, List, ◌∷◌, arith}
use openevent.Status.{ok, fail}
use openevent.Platform.{Platform}
use openevent.Core.Snapshots.{
  Event, wrote, counted, Refresher, waiting, loaded, taken, failing, finished,
}
use openevent.Core.Snapshots.History.{counted_in, latest, IsPast, IsPast-later}

module _ {p : Platform} where
  -- The snapshot shows the database as it was after a past of the history in which at least so many
  -- commits are counted.
  pub record Shows (h : List (Event p)) (generation : ℕ) (s : p.rocks.Snapshot) : Type 0 where
    pub past : List (Event p)
    pub is_past : IsPast past h
    pub enough : generation ≤ counted_in past
    pub db : p.rocks.Db
    pub is_latest : latest past ≡ some db
    pub shown : p.rocks.view s ≡ p.rocks.contents db

  pub Shows-later :
      (e : Event p) (h : List (Event p)) (g : ℕ) (s : p.rocks.Snapshot)
      → Shows h g s
      → Shows (e ∷ h) g s
  Shows-later e h g s x = record {
    past = x.past;
    is_past = IsPast-later e x.past h x.is_past;
    enough = x.enough;
    db = x.db;
    is_latest = x.is_latest;
    shown = x.shown;
  }

  -- What holds of the shared snapshot, and of what the thread has in its hands.
  abbrev pub Held : List (Event p) → ℕ → Option p.rocks.Snapshot → Type 0
  Held h g none = Unit {0}
  Held h g (some s) = Shows h g s

  abbrev pub InHand : List (Event p) → Refresher p → Type 0
  InHand h (loaded g) = g ≤ counted_in h
  InHand h (taken g (ok s)) = Shows h g s
  InHand h _ = Unit {0}

  pub Held-later :
      (e : Event p) (h : List (Event p)) (g : ℕ) (o : Option p.rocks.Snapshot)
      → Held h g o
      → Held (e ∷ h) g o
  Held-later e h g none x = tt
  Held-later e h g (some s) x = Shows-later e h g s x

  pub counted-later : (e : Event p) (h : List (Event p)) → counted_in h ≤ counted_in (e ∷ h)
  counted-later counted h = omega arith
  counted-later (wrote d) h = omega arith

  pub InHand-later :
      (e : Event p) (h : List (Event p)) (r : Refresher p) → InHand h r → InHand (e ∷ h) r
  InHand-later e h (loaded g) x = omega (arith, counted-later e h)
  InHand-later e h (taken g (ok s)) x = Shows-later e h g s x
  InHand-later e h (taken g (fail _)) x = tt
  InHand-later e h waiting x = tt
  InHand-later e h (failing _) x = tt
  InHand-later e h finished x = tt
