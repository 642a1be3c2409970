-- ===== src/Server/Shutdown.antt =====
-- How the server ends (src/server/main.cpp): the main thread, and the threads that wait for a signal
-- and for a fatal storage error.
--
-- A step is one access to a flag or one call that ends, where others may act before and after it. The
-- main thread is cut less finely: what it does under a flag that it has read is one step with the
-- reading. A server is closed when its `Shutdown` has returned.
pub mod Once
pub mod Ends
use openevent.Common.{ℕ, suc, ◌≡◌, Bool, true, false, not, ◌&&◌, ◌||◌, if◌then◌else◌}

-- The thread that waits for a signal, and the one that waits for a fatal storage error.
pub data Closer : Type 0 where
  by_signal by_fatal_error : Closer

-- Where such a thread stands: it waits; it has a signal and is about to note it; it is about to exchange `shutdown_initiated`; it has called
-- `shutdown_servers`, and there it has stopped the subscriptions.
pub data Stand : Type 0 where
  waiting noting woken shutting closing finished : Stand

-- The main thread, from the wait for the public server on.
pub data Main : Type 0 where
  serving ended swept flagged joining : Main
  returned : ℕ → Main

pub record Run : Type 0 where
  pub fatal_storage_error : Bool
  pub shutdown_initiated : Bool
  pub shutdown_signal_received : Bool
  pub stop_shutdown_threads : Bool
  -- Whether a signal waits to be taken.
  pub signalled : Bool
  pub subscriptions_stopped : Bool
  pub public_closed : Bool
  pub admin_closed : Bool
  -- How often `shutdown_servers` was called.
  pub shutdowns : ℕ
  pub signal_thread : Stand
  pub fatal_thread : Stand
  pub main_thread : Main

abbrev pub start : Run
start = record {
  fatal_storage_error = false;
  shutdown_initiated = false;
  shutdown_signal_received = false;
  stop_shutdown_threads = false;
  signalled = false;
  subscriptions_stopped = false;
  public_closed = false;
  admin_closed = false;
  shutdowns = 0;
  signal_thread = waiting;
  fatal_thread = waiting;
  main_thread = serving;
}

abbrev pub stand : Closer → Run → Stand
stand by_signal r = r.signal_thread
stand by_fatal_error r = r.fatal_thread

abbrev pub move : Closer → Stand → Run → Run
move by_signal s r = record r { signal_thread = s }
move by_fatal_error s r = record r { fatal_thread = s }

abbrev pub is_returned : Main → Bool
is_returned (returned _) = true
is_returned _ = false

-- `sigwait`, which may also fail.
unfoldable pub take_signal : Run → Run
take_signal r = record r { signalled = false; signal_thread = noting }

-- The store to `shutdown_signal_received`.
unfoldable pub note_signal : Run → Run
note_signal r = record r { shutdown_signal_received = true; signal_thread = woken }

-- The end of the wait for a fatal storage error.
unfoldable pub wake_fatal : Run → Run
wake_fatal r = record r { fatal_thread = if r.fatal_storage_error then woken else finished }

-- `shutdown_initiated.exchange(true)`: the first one calls `shutdown_servers`.
unfoldable pub exchange : Closer → Run → Run
exchange k r = move k (if r.shutdown_initiated then finished else shutting) (record r {
  shutdown_initiated = true;
  shutdowns = if r.shutdown_initiated then r.shutdowns else suc r.shutdowns;
})

-- What the main thread does if its server was shut down by nobody.
unfoldable pub sweep : Run → Run
sweep r = record r {
  main_thread = swept;
  subscriptions_stopped = r.subscriptions_stopped || not r.shutdown_initiated;
  admin_closed = r.admin_closed || not r.shutdown_initiated;
}

-- `kill(getpid(), SIGTERM)`, unless a signal was received.
unfoldable pub wake_signal : Run → Run
wake_signal r = record r {
  main_thread = joining;
  signalled = r.signalled || not r.shutdown_signal_received;
}

pub data Step (r : Run) : Run → Type 0 where
  -- A signal comes; the core reports a fatal storage error.
  signals : Step r (record r { signalled = true })
  fails : is_returned r.main_thread ≡ false → Step r (record r { fatal_storage_error = true })
  takes : r.signal_thread ≡ waiting → r.signalled ≡ true → Step r (take_signal r)
  notes : r.signal_thread ≡ noting → Step r (note_signal r)
  gives_up : r.signal_thread ≡ waiting → Step r (move by_signal finished r)
  wakes :
      r.fatal_thread ≡ waiting
      → (r.fatal_storage_error || r.stop_shutdown_threads) ≡ true
      → Step r (wake_fatal r)
  exchanges : (k : Closer) → stand k r ≡ woken → Step r (exchange k r)
  stops :
      (k : Closer)
      → stand k r ≡ shutting
      → Step r (move k closing (record r { subscriptions_stopped = true }))
  closes_public :
      (k : Closer)
      → stand k r ≡ closing
      → r.public_closed ≡ false
      → Step r (record r { public_closed = true })
  closes_admin :
      (k : Closer)
      → stand k r ≡ closing
      → r.admin_closed ≡ false
      → Step r (record r { admin_closed = true })
  joins :
      (k : Closer)
      → stand k r ≡ closing
      → r.public_closed ≡ true
      → r.admin_closed ≡ true
      → Step r (move k finished r)
  ends :
      r.main_thread ≡ serving → r.public_closed ≡ true → Step r (record r { main_thread = ended })
  sweeps : r.main_thread ≡ ended → Step r (sweep r)
  flags :
      r.main_thread ≡ swept
      → Step r (record r { main_thread = flagged; stop_shutdown_threads = true })
  wakes_signal : r.main_thread ≡ flagged → Step r (wake_signal r)
  returns :
      r.main_thread ≡ joining
      → r.admin_closed ≡ true
      → r.signal_thread ≡ finished
      → r.fatal_thread ≡ finished
      → Step r (record r { main_thread = returned (if r.fatal_storage_error then 1 else 0) })

pub data Reach : Run → Type 0 where
  here : Reach start
  next : {r r' : Run} → Reach r → Step r r' → Reach r'
