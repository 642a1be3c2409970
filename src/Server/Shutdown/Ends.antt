-- ===== src/Server/Shutdown/Ends.antt =====
-- How a shutdown that has begun goes on to its end (src/server/main.cpp).
use openevent.Common.{
  ℕ, zero, suc, ◌+◌, ◌≡◌, ◌≤◌, ◌<◌, inl, inr, refl, Bool, true, false, ◌||◌, Bool-cases,
  if◌then◌else◌, arith,
}
use openevent.Server.Shutdown.{
  Closer, by_signal, by_fatal_error, Stand, waiting, noting, woken, shutting, closing, finished,
  Main, serving, ended, swept, flagged, joining, returned, Run, stand, is_returned, take_signal,
  note_signal, wake_fatal, exchange, sweep, wake_signal, Step, signals, fails, takes, notes,
  gives_up, wakes, exchanges, stops, closes_public, closes_admin, joins, ends, sweeps, flags,
  wakes_signal, returns, Reach, next,
}
use openevent.Server.Shutdown.Once.{IsSound, Reach-IsSound, is_waiting}

-- The steps of the program, and not of what surrounds it.
abbrev pub is_own : {r r' : Run} → Step r r' → Bool
is_own signals = false
is_own (fails running) = false
is_own _ = true

abbrev rank : Stand → ℕ
rank waiting = 5
rank noting = 4
rank woken = 3
rank shutting = 2
rank closing = 1
rank finished = 0

abbrev main_rank : Main → ℕ
main_rank serving = 5
main_rank ended = 4
main_rank swept = 3
main_rank flagged = 2
main_rank joining = 1
main_rank (returned _) = 0

-- How many steps the program may still take.
abbrev pub work_left : Run → ℕ
work_left r =
    rank r.signal_thread
    + rank r.fatal_thread
    + main_rank r.main_thread
    + (if r.public_closed then 0 else 1)
    + (if r.admin_closed then 0 else 1)

pub own_less : {r r' : Run} (step : Step r r') → is_own step ≡ true → work_left r' < work_left r
unfolding take_signal note_signal wake_fatal exchange sweep wake_signal
own_less signals own = absurd cc
own_less (fails running) own = absurd cc
own_less (takes at signalled) own = ground arith
own_less (notes at) own = ground arith
own_less (gives_up at) own = ground arith
own_less (wakes at why) own = ground arith
own_less (exchanges by_signal at) own = ground arith
own_less (exchanges by_fatal_error at) own = ground arith
own_less (stops by_signal at) own = ground arith
own_less (stops by_fatal_error at) own = ground arith
own_less (closes_public by_signal at closed) own = ground arith
own_less (closes_public by_fatal_error at closed) own = ground arith
own_less (closes_admin by_signal at closed) own = ground arith
own_less (closes_admin by_fatal_error at closed) own = ground arith
own_less (joins by_signal at public admin) own = ground arith
own_less (joins by_fatal_error at public admin) own = ground arith
own_less (ends at public) own = ground arith
own_less (sweeps at) own = ground arith
own_less (flags at) own = ground arith
own_less (wakes_signal at) own = ground arith
own_less (returns at admin one other) own = ground arith

-- The program can take a step.
pub record CanStep (r : Run) : Type 0 where
  pub target : Run
  pub move_to : Step r target
  pub own : is_own move_to ≡ true

-- Where a thread stands that has something to do.
abbrev is_busy : Stand → Bool
is_busy waiting = false
is_busy finished = false
is_busy _ = true

busy_step :
    (k : Closer) (r : Run) (s : Stand) → IsSound r → stand k r ≡ s → is_busy s ≡ true → CanStep r
busy_step k r waiting i at busy = absurd cc
busy_step k r finished i at busy = absurd cc
busy_step by_signal r noting i at busy = record { target = _; move_to = notes at; own = refl }
busy_step by_fatal_error r noting i at busy = absurd (ground arith)
busy_step k r woken i at busy = record { target = _; move_to = exchanges k at; own = refl }
busy_step k r shutting i at busy = record { target = _; move_to = stops k at; own = refl }
busy_step k r closing i at busy = elim (Bool-cases r.public_closed) [
  | inr public_runs ↦ record { target = _; move_to = closes_public k at public_runs; own = refl }
  | inl public ↦ elim (Bool-cases r.admin_closed) [
    | inr admin_runs ↦ record { target = _; move_to = closes_admin k at admin_runs; own = refl }
    | inl admin ↦ record { target = _; move_to = joins k at public admin; own = refl }
  ]
]

-- With no thread at work, the main thread goes on or wakes one that waits.
idle_step :
    (r : Run) (m : Main)
    → IsSound r
    → r.main_thread ≡ m
    → is_returned m ≡ false
    → r.shutdown_initiated ≡ true
    → is_busy r.signal_thread ≡ false
    → is_busy r.fatal_thread ≡ false
    → CanStep r
idle_step r serving i at running begun one other = record {
  target = _;
  move_to = ends at (ground arith);
  own = refl;
}
idle_step r ended i at running begun one other = record {
  target = _;
  move_to = sweeps at;
  own = refl;
}
idle_step r swept i at running begun one other = record {
  target = _;
  move_to = flags at;
  own = refl;
}
idle_step r flagged i at running begun one other = record {
  target = _;
  move_to = wakes_signal at;
  own = refl;
}
idle_step r (returned n) i at running begun one other = absurd (ground arith)
idle_step r joining i at running begun one other = elim (Bool-cases (is_waiting r.signal_thread)) [
  | inl signal_waits ↦ record {
    target = _;
    move_to = takes (ground arith) (ground arith);
    own = refl;
  }
  | inr signal_on ↦ elim (Bool-cases (is_waiting r.fatal_thread)) [
    | inl fatal_waits ↦ record {
      target = _;
      move_to = wakes (ground arith) (ground arith);
      own = refl;
    }
    | inr fatal_on ↦ record {
      target = _;
      move_to = returns at (ground arith) (ground (arith, signal_on)) (ground (arith, fatal_on));
      own = refl;
    }
  ]
]

-- There is a reason to end.
abbrev pub must_end : Run → Bool
must_end r = r.shutdown_initiated || r.fatal_storage_error

can_step : (r : Run) → IsSound r → must_end r ≡ true → is_returned r.main_thread ≡ false → CanStep r
can_step r i must running = elim (Bool-cases (is_busy r.signal_thread)) [
  | inl busy ↦ busy_step by_signal r r.signal_thread i refl busy
  | inr one ↦ elim (Bool-cases (is_busy r.fatal_thread)) [
    | inl busy ↦ busy_step by_fatal_error r r.fatal_thread i refl busy
    | inr other ↦ elim (Bool-cases r.shutdown_initiated) [
      | inl begun ↦ idle_step r r.main_thread i refl running begun one other
      | inr quiet ↦ record { target = _; move_to = wakes (ground arith) (ground arith); own = refl }
    ]
  ]
]

stays_ending : {r r' : Run} (step : Step r r') → must_end r ≡ true → must_end r' ≡ true
unfolding take_signal note_signal wake_fatal exchange sweep wake_signal
stays_ending signals h = h
stays_ending (fails running) h = ground arith
stays_ending (takes at signalled) h = h
stays_ending (notes at) h = h
stays_ending (gives_up at) h = h
stays_ending (wakes at why) h = h
stays_ending (exchanges by_signal at) h = refl
stays_ending (exchanges by_fatal_error at) h = refl
stays_ending (stops by_signal at) h = h
stays_ending (stops by_fatal_error at) h = h
stays_ending (closes_public k at closed) h = h
stays_ending (closes_admin k at closed) h = h
stays_ending (joins by_signal at public admin) h = h
stays_ending (joins by_fatal_error at public admin) h = h
stays_ending (ends at public) h = h
stays_ending (sweeps at) h = h
stays_ending (flags at) h = h
stays_ending (wakes_signal at) h = h
stays_ending (returns at admin one other) h = h

-- Whatever steps the program takes, it comes to its return, and till then it can take one.
pub data Ends : Run → Type 0 where
  has_returned : (r : Run) → is_returned r.main_thread ≡ true → Ends r
  goes_on :
      (r : Run)
      → CanStep r
      → ((r' : Run) (step : Step r r') → is_own step ≡ true → Ends r')
      → Ends r

within-Ends : (n : ℕ) (r : Run) → work_left r ≤ n → Reach r → must_end r ≡ true → Ends r
within-Ends zero r le reach must = elim (Bool-cases (is_returned r.main_thread)) [
  | inl at ↦ has_returned r at
  | inr running ↦
      let can = can_step r (Reach-IsSound reach) must running in
      absurd (omega (arith, own_less can.move_to can.own))
]
within-Ends (suc n) r le reach must = elim (Bool-cases (is_returned r.main_thread)) [
  | inl at ↦ has_returned r at
  | inr running ↦ goes_on r (can_step r (Reach-IsSound reach) must running) (λ r' step own.
      within-Ends n r' (omega (arith, own_less step own)) (next reach step)
        (stays_ending step must))
]

-- Once a shutdown began or a fatal storage error was reported, in any run of the threads of the
-- server in which the calls of `Shutdown` return, every sequence of steps that the program then
-- takes comes to its return, and till then it can take a step.
pub Reach-Ends : (r : Run) → Reach r → must_end r ≡ true → Ends r
Reach-Ends r reach must = within-Ends (work_left r) r (omega arith) reach must
