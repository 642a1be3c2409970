-- ===== src/Server/Shutdown/Once.antt =====
-- What holds in every run of the threads that shut the servers down (src/server/main.cpp).
use openevent.Common.{ℕ, ◌≡◌, Bool, true, false, not, ◌&&◌, ◌||◌, ◌==◌, if◌then◌else◌, arith}
use openevent.Server.Shutdown.{
  by_signal, by_fatal_error, Stand, waiting, noting, shutting, closing, finished, Main, serving,
  flagged, joining, returned, Run, is_returned, take_signal, note_signal, wake_fatal, exchange,
  sweep, wake_signal, Step, signals, fails, takes, notes, gives_up, wakes, exchanges, stops,
  closes_public, closes_admin, joins, ends, sweeps, flags, wakes_signal, returns, Reach, here, next,
}

abbrev pub is_active : Stand → Bool
is_active shutting = true
is_active closing = true
is_active _ = false

abbrev pub is_closing : Stand → Bool
is_closing closing = true
is_closing _ = false

abbrev pub is_finished : Stand → Bool
is_finished finished = true
is_finished _ = false

abbrev pub is_serving : Main → Bool
is_serving serving = true
is_serving _ = false

abbrev pub has_code : Main → Bool → Bool
has_code (returned n) fatal = n == (if fatal then 1 else 0)
has_code _ fatal = true

-- Before a shutdown nothing is closed and no thread works at it; after it started, one does or all is
-- closed.
abbrev pub is_quiet : Run → Bool
is_quiet r =
    not r.public_closed && (not (is_active r.signal_thread) && not (is_active r.fatal_thread))

abbrev pub is_at_work : Run → Bool
is_at_work r =
    is_active r.signal_thread
    || (is_active r.fatal_thread
        || (r.subscriptions_stopped && (r.public_closed && r.admin_closed)))

-- The subscriptions are stopped before a server is shut down.
abbrev pub is_in_order : Stand → Run → Bool
is_in_order s r = not (is_closing s) || r.subscriptions_stopped

abbrev pub has_stopped : Run → Bool
has_stopped r =
    not (is_returned r.main_thread) || (is_finished r.signal_thread && is_finished r.fatal_thread)

abbrev pub is_waiting : Stand → Bool
is_waiting waiting = true
is_waiting _ = false

abbrev pub is_noting : Stand → Bool
is_noting noting = true
is_noting _ = false

abbrev pub has_flagged : Main → Bool
has_flagged flagged = true
has_flagged joining = true
has_flagged (returned _) = true
has_flagged _ = false

abbrev pub is_joining : Main → Bool
is_joining joining = true
is_joining _ = false

-- What every step keeps.
pub record IsSound (r : Run) : Type 0 where
  pub count : r.shutdowns ≡ (if r.shutdown_initiated then 1 else 0)
  pub phase : (if r.shutdown_initiated then is_at_work r else is_quiet r) ≡ true
  pub signal_order : is_in_order r.signal_thread r ≡ true
  pub fatal_order : is_in_order r.fatal_thread r ≡ true
  pub main : (is_serving r.main_thread || r.public_closed) ≡ true
  pub stopped : has_stopped r ≡ true
  -- The thread for fatal errors ends only after a shutdown began, and the main thread wakes both.
  pub begun : (not (is_finished r.fatal_thread) || r.shutdown_initiated) ≡ true
  pub flag_late : (not r.stop_shutdown_threads || r.public_closed) ≡ true
  pub flag_set : (not (has_flagged r.main_thread) || r.stop_shutdown_threads) ≡ true
  pub received : (not r.shutdown_signal_received || not (is_waiting r.signal_thread)) ≡ true
  pub signalled :
      (not (is_joining r.main_thread) || (r.signalled || not (is_waiting r.signal_thread))) ≡ true
  -- Only the thread that waits for a signal notes one.
  pub noted : is_noting r.fatal_thread ≡ false
  pub code : has_code r.main_thread r.fatal_storage_error ≡ true

Step-IsSound : {r r' : Run} → Step r r' → IsSound r → IsSound r'
unfolding take_signal note_signal wake_fatal exchange sweep wake_signal
Step-IsSound {r} signals i = ground arith
Step-IsSound {r} (fails running) i = ground arith
Step-IsSound {r} (takes at signalled) i = ground arith
Step-IsSound {r} (notes at) i = ground arith
Step-IsSound {r} (gives_up at) i = ground arith
Step-IsSound {r} (wakes at why) i = ground arith
Step-IsSound {r} (exchanges by_signal at) i = ground arith
Step-IsSound {r} (exchanges by_fatal_error at) i = ground arith
Step-IsSound {r} (stops by_signal at) i = ground arith
Step-IsSound {r} (stops by_fatal_error at) i = ground arith
Step-IsSound {r} (closes_public by_signal at closed) i = ground arith
Step-IsSound {r} (closes_public by_fatal_error at closed) i = ground arith
Step-IsSound {r} (closes_admin by_signal at closed) i = ground arith
Step-IsSound {r} (closes_admin by_fatal_error at closed) i = ground arith
Step-IsSound {r} (joins by_signal at public admin) i = ground arith
Step-IsSound {r} (joins by_fatal_error at public admin) i = ground arith
Step-IsSound {r} (ends at public) i = ground arith
Step-IsSound {r} (sweeps at) i = ground arith
Step-IsSound {r} (flags at) i = ground arith
Step-IsSound {r} (wakes_signal at) i = ground arith
Step-IsSound {r} (returns at admin one other) i = ground arith

pub Reach-IsSound : {r : Run} → Reach r → IsSound r
Reach-IsSound here = ground arith
Reach-IsSound (next reach step) = Step-IsSound step (Reach-IsSound reach)

-- When the main thread returns, in any run with any signals and fatal storage errors,
-- `shutdown_servers` has been called exactly once, the subscriptions are stopped, both servers are
-- closed, and the code is 1 exactly if a fatal storage error was reported.
pub Reach-closed :
    (r : Run) (code : ℕ)
    → Reach r
    → r.main_thread ≡ returned code
    → (r.shutdowns ≡ 1)
      × (r.subscriptions_stopped ≡ true)
      × (r.public_closed ≡ true)
      × (r.admin_closed ≡ true)
      × (code ≡ (if r.fatal_storage_error then 1 else 0))
Reach-closed r code reach at =
    let i = Reach-IsSound reach in
    (ground arith, ground arith, ground arith, ground arith, ground arith)
