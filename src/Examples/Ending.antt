-- ===== src/Examples/Ending.antt =====
-- A run of the server that ends at a signal.
use openevent.Common.{ℕ, ◌≡◌, refl, true}
use openevent.Server.Shutdown.{
  by_signal, Run, start, finished, returned, shutting, take_signal, note_signal, wake_fatal,
  exchange, sweep, wake_signal, signals, takes, notes, wakes, exchanges, stops, closes_public,
  closes_admin, joins, ends, sweeps, flags, wakes_signal, returns, Reach, here, next,
}
use openevent.Server.Shutdown.Once.{Reach-closed}
use openevent.Server.Shutdown.Ends.{Ends, Reach-Ends}

abbrev closing_down : Run
closing_down = record start {
  shutdown_initiated = true;
  shutdown_signal_received = true;
  shutdowns = 1;
  signal_thread = shutting;
}

begins : Reach closing_down
unfolding take_signal note_signal exchange
begins =
    next (next (next (next here signals) (takes refl refl)) (notes refl)) (exchanges by_signal refl)

abbrev over : Run
over = record closing_down {
  stop_shutdown_threads = true;
  subscriptions_stopped = true;
  public_closed = true;
  admin_closed = true;
  signal_thread = finished;
  fatal_thread = finished;
  main_thread = returned 0;
}

closes : Reach over
unfolding sweep wake_signal wake_fatal
closes =
    let closed =
      next
        (next (next (next begins (stops by_signal refl)) (closes_public by_signal refl refl))
          (closes_admin by_signal refl refl))
        (joins by_signal refl refl refl) in
    let joined =
      next (next (next (next closed (ends refl refl)) (sweeps refl)) (flags refl))
        (wakes_signal refl) in
    next (next joined (wakes refl refl)) (returns refl refl refl refl)

Reach-closed_example :
    (over.shutdowns ≡ 1)
    × (over.subscriptions_stopped ≡ true)
    × (over.public_closed ≡ true)
    × (over.admin_closed ≡ true)
    × (◌≡◌ {A = ℕ} 0 0)
Reach-closed_example = Reach-closed over 0 closes refl

Reach-Ends_example : Ends closing_down
Reach-Ends_example = Reach-Ends closing_down begins refl
