-- ===== src/Service.antt =====
-- auth-server/main.go and config-server/main.go: the process of a server, from the server that is made
-- to its exit. Three threads run: `main`, the one that runs the service, and the one that waits for a
-- signal. The service is ContainerSSH's: it serves until it ends, with an error or without.
pub mod Place
pub mod Sound
pub mod Ends
pub mod Exits
use dev_box.Common.{
  ℕ, zero, suc, Bool, true, false, ◌≡◌, List, [], ◌∷◌, ◌++◌, Option, none, some, Text, Result, ok,
  err, if◌then◌else◌,
}

-- The codes of the messages that the logger is given.
pub record Codes : Type 0 where
  pub start_failed : Text
  pub run_failed : Text
  pub shutdown : Text
  pub exit_error : Text

-- What `lifecycle.Run` and `lifecycle.Wait` wait for; `ended` has the error, if there is one.
pub data Service : Type 0 where
  serving : Service
  ended : Option Text → Service

pub data RunThread : Type 0 where
  running returned : RunThread

pub data SignalThread : Type 0 where
  not_started listening stopping stopped : SignalThread

-- The place of `main`: before `signal.Notify`, in `Wait`, and before each of what follows. A signal
-- that nobody asked for kills the process, and one that is sent to a closed channel is a panic.
pub data MainThread : Type 0 where
  notifying waiting : MainThread
  ignoring closing reporting : Option Text → MainThread
  exited : ℕ → MainThread
  killed panicked : MainThread

pub data Thread : Type 0 where
  main_thread run_thread signal_thread : Thread

-- `subscribed` is whether signals go to the channel, `pending` whether its one place is taken, and
-- `stops` counts the calls of `lifecycle.Stop`.
pub record Process : Type 0 where
  pub service : Service
  pub runner : RunThread
  pub watcher : SignalThread
  pub main : MainThread
  pub subscribed : Bool
  pub pending : Bool
  pub closed : Bool
  pub stops : ℕ
  pub log : List Text

-- A process that has exited before it had a service to wait for.
abbrev pub exit_with : List Text → Process
exit_with log = record {
  service = serving;
  runner = running;
  watcher = not_started;
  main = exited 1;
  subscribed = false;
  pending = false;
  closed = false;
  stops = 0;
  log = log;
}

abbrev pub log_error : Option Text → Text → List Text → List Text
log_error none code log = log
log_error (some e) code log = log ++ code ∷ []

abbrev pub is_alive : MainThread → Bool
is_alive (exited code) = false
is_alive killed = false
is_alive panicked = false
is_alive _ = true

abbrev pub exit_code : Option Text → ℕ
exit_code none = 0
exit_code (some e) = 1

module _ (codes_of : Codes) where
  -- `NewServer` has failed or has made a server. The log has what was said before.
  unfoldable pub launch : List Text → Result Text (Unit {0}) → Process
  launch log (err e) = exit_with (log ++ codes_of.start_failed ∷ [])
  launch log (ok server) = record (exit_with log) { main = notifying }

  wait : Process → Service → Option Process
  wait p serving = none
  wait p (ended e) = some (record p { main = ignoring e })

  -- `none` is where a thread waits, or has ended.
  move_main : Process → MainThread → Option Process
  unfolding wait
  move_main p notifying = some (record p { subscribed = true; watcher = listening; main = waiting })
  move_main p waiting = wait p p.service
  move_main p (ignoring e) = some (record p { subscribed = false; main = closing e })
  move_main p (closing e) = some (record p { closed = true; main = reporting e })
  move_main p (reporting e) =
      some (record p { log = log_error e codes_of.exit_error p.log; main = exited (exit_code e) })
  move_main p (exited code) = none
  move_main p killed = none
  move_main p panicked = none

  unfoldable pub step_main : Process → Option Process
  unfolding move_main
  step_main p = move_main p p.main

  -- The thread that calls `lifecycle.Run`.
  move_run : Process → RunThread → Service → Option Process
  move_run p returned s = none
  move_run p running serving = none
  move_run p running (ended e) =
      some (record p { log = log_error e codes_of.run_failed p.log; runner = returned })

  unfoldable pub step_run : Process → Option Process
  unfolding move_run
  step_run p = move_run p p.runner p.service

  -- The process when a signal is read.
  abbrev pub stop_asked : Process → Process
  stop_asked p = record p {
    pending = false;
    log = p.log ++ codes_of.shutdown ∷ [];
    stops = suc p.stops;
    watcher = stopping;
  }

  -- The thread that waits for a signal. `lifecycle.Stop` returns when the service has ended, or after
  -- 20 seconds. A channel that is closed still gives what is pending.
  move_signal : Process → SignalThread → Option Process
  move_signal p not_started = none
  move_signal p listening =
      if p.pending
      then some (stop_asked p)
      else if p.closed
      then some (record p { watcher = stopped })
      else none
  move_signal p stopping = some (record p { watcher = stopped })
  move_signal p stopped = none

  unfoldable pub step_signal : Process → Option Process
  unfolding move_signal
  step_signal p = move_signal p p.watcher

  -- The three threads.
  unfoldable pub step : Thread → Process → Option Process
  step main_thread p = step_main p
  step run_thread p = step_run p
  step signal_thread p = step_signal p

abbrev unasked : Process → MainThread → Process
unasked p notifying = record p { main = killed }
unasked p _ = p

-- SIGINT or SIGTERM. It is dropped while one is pending; before `signal.Notify` it kills, and after
-- `signal.Ignore` it does nothing.
unfoldable pub deliver : Process → Process
deliver p =
    if p.subscribed
    then (if p.closed then record p { main = panicked } else record p { pending = true })
    else unasked p p.main

unfoldable pub end_service : Option Text → Process → Process
end_service e p = elim p.service [ serving ↦ record p { service = ended e } | ended f ↦ p ]

-- A run, with the number of moves that the threads make in it. While `main` lives, each thread moves
-- when it can, and signals and the end of the service come at any time.
pub data Runs (codes_of : Codes) (p : Process) : ℕ → Process → Type 0 where
  here : Runs codes_of p zero p
  moves :
      {n : ℕ} {q : Process} (t : Thread) (r : Process)
      → Runs codes_of p n q
      → is_alive q.main ≡ true
      → step codes_of t q ≡ some r
      → Runs codes_of p (suc n) r
  signals :
      {n : ℕ} {q : Process}
      → Runs codes_of p n q
      → is_alive q.main ≡ true
      → Runs codes_of p n (deliver q)
  ends :
      {n : ℕ} {q : Process} (e : Option Text)
      → Runs codes_of p n q
      → is_alive q.main ≡ true
      → Runs codes_of p n (end_service e q)

-- `main`: the configuration, then the server, then the process. `failure_log` and `said` are what is
-- logged before.
unfoldable pub boot :
    {E A : Type 0}
    → Codes
    → (E → List Text)
    → (A → List Text)
    → (A → Result Text (Unit {0}))
    → Result E A
    → Process
boot codes_of failure_log said new_server (err e) = exit_with (failure_log e)
boot codes_of failure_log said new_server (ok a) = launch codes_of (said a) (new_server a)
