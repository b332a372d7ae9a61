-- ===== src/Service/Sound.antt =====
-- Each move of a thread, each signal and the end of the service keep a server's process sound.
use dev_box.Common.{
  ℕ, ◌≤◌, ◌≡◌, refl, Bool, true, false, List, [], ◌∷◌, ◌++◌, contains, Option, none, some, Text,
  text_eq, ok, if◌then◌else◌, ==_refl, arith,
}
use dev_box.Service.{
  Codes, Process, Service, serving, ended, RunThread, running, returned, SignalThread, not_started,
  listening, stopping, stopped, MainThread, notifying, waiting, ignoring, closing, reporting,
  exited, killed, panicked, Thread, main_thread, run_thread, signal_thread, is_alive, launch,
  step_main, step_run, step_signal, step, deliver, end_service, Runs, here, moves, signals, ends,
  move_main, move_run, move_signal, log_error, wait, unasked, stop_asked,
}
use dev_box.Service.Place.{
  stops_by, Place, IsSound, Place-same, watched-IsSound, no_panic, Place-ended,
}

contains-snoc : (l : List Text) (c : Text) → contains (l ++ c ∷ []) c ≡ true
contains-snoc [] c = ground (arith, ==_refl c)
contains-snoc (x ∷ l) c = ground (arith, contains-snoc l c)

module _ (codes_of : Codes) where
  abbrev SoundAfter : Option Process → Type 0
  SoundAfter none = Unit
  SoundAfter (some q) = IsSound codes_of q

  waited :
      (p : Process) (s : Service)
      → p.service ≡ s
      → Place codes_of p waiting
      → p.stops ≤ stops_by p.watcher
      → SoundAfter (wait codes_of p s)
  unfolding wait
  waited p serving e h s = tt
  waited p (ended f) e h s = record { placed = (e, h.1); stopped_once = s }

  move_main-IsSound :
      (p : Process) (m : MainThread)
      → p.main ≡ m
      → Place codes_of p m
      → p.stops ≤ stops_by p.watcher
      → SoundAfter (move_main codes_of p m)
  unfolding move_main
  move_main-IsSound p notifying e h s = record {
    placed = (refl, h.1, λ f. cc, h.3);
    stopped_once = ground arith;
  }
  move_main-IsSound p waiting e h s = waited p p.service refl h s
  move_main-IsSound p (ignoring f) e h s = ground arith
  move_main-IsSound p (closing f) e h s = ground arith
  move_main-IsSound p (reporting none) e h s = record {
    placed = (none, h.0, refl, tt);
    stopped_once = s;
  }
  move_main-IsSound p (reporting (some f)) e h s = record {
    placed = (some f, h.0, refl, contains-snoc p.log codes_of.exit_error);
    stopped_once = s;
  }
  move_main-IsSound p (exited code) e h s = tt
  move_main-IsSound p killed e h s = tt
  move_main-IsSound p panicked e h s = tt

  move_run-IsSound :
      (p : Process) (r : RunThread) (s : Service)
      → is_alive p.main ≡ true
      → IsSound codes_of p
      → SoundAfter (move_run codes_of p r s)
  unfolding move_run
  move_run-IsSound p returned s a h = tt
  move_run-IsSound p running serving a h = tt
  move_run-IsSound p running (ended e) a h =
      let q : Process = record p {
        log = log_error e codes_of.run_failed p.log;
        runner = returned;
      } in
      record {
        placed =
            Place-same codes_of p q p.main a refl refl refl (λ w. w) (λ w. (w, refl)) (λ c k. k)
              h.placed;
        stopped_once = h.stopped_once;
      }

  listened-IsSound :
      (p : Process) (pending closed : Bool)
      → p.watcher ≡ listening
      → p.closed ≡ closed
      → is_alive p.main ≡ true
      → IsSound codes_of p
      → SoundAfter (
          if pending
          then some (stop_asked codes_of p)
          else if closed
          then some (record p { watcher = stopped })
          else none)
  listened-IsSound p true closed e c a h =
      let none_yet : p.stops ≤ 0 = rw e at h.stopped_once in
      watched-IsSound codes_of p (stop_asked codes_of p) listening a e (λ f. cc) refl refl refl refl
        (λ f. cc) (omega arith) (λ c k. ground arith) h
  listened-IsSound p false true e c a h =
      let none_yet : p.stops ≤ 0 = rw e at h.stopped_once in
      watched-IsSound codes_of p (record p { watcher = stopped }) listening a e (λ f. cc) refl refl
        refl refl (λ f. cc) (omega arith) (λ f k. absurd (ground arith)) h
  listened-IsSound p false false e c a h = tt

  move_signal-IsSound :
      (p : Process) (s : SignalThread)
      → p.watcher ≡ s
      → is_alive p.main ≡ true
      → IsSound codes_of p
      → SoundAfter (move_signal codes_of p s)
  unfolding move_signal
  move_signal-IsSound p not_started e a h = tt
  move_signal-IsSound p listening e a h = listened-IsSound p p.pending p.closed e refl a h
  move_signal-IsSound p stopping e a h =
      let one : p.stops ≤ 1 = rw e at h.stopped_once in
      watched-IsSound codes_of p (record p { watcher = stopped }) stopping a e (λ f. cc) refl refl
        refl refl (λ f. cc) one (λ f k. ground arith) h
  move_signal-IsSound p stopped e a h = tt

  step-IsSound :
      (t : Thread) (p : Process)
      → is_alive p.main ≡ true
      → IsSound codes_of p
      → SoundAfter (step codes_of t p)
  unfolding step step_main step_run step_signal
  step-IsSound main_thread p a h = move_main-IsSound p p.main refl h.placed h.stopped_once
  step-IsSound run_thread p a h = move_run-IsSound p p.runner p.service a h
  step-IsSound signal_thread p a h = move_signal-IsSound p p.watcher refl a h

  unasked-IsSound :
      (p : Process) (m : MainThread)
      → p.main ≡ m
      → IsSound codes_of p
      → IsSound codes_of (unasked p m)
  unasked-IsSound p notifying e h = record {
    placed = (rw e at h.placed).3;
    stopped_once = h.stopped_once;
  }
  unasked-IsSound p waiting e h = h
  unasked-IsSound p (ignoring f) e h = h
  unasked-IsSound p (closing f) e h = h
  unasked-IsSound p (reporting f) e h = h
  unasked-IsSound p (exited code) e h = h
  unasked-IsSound p killed e h = h
  unasked-IsSound p panicked e h = h

  delivered-IsSound :
      (p : Process) (subscribed closed : Bool)
      → p.subscribed ≡ subscribed
      → p.closed ≡ closed
      → is_alive p.main ≡ true
      → IsSound codes_of p
      → IsSound codes_of (
          if subscribed
          then (if closed then record p { main = panicked } else record p { pending = true })
          else unasked p p.main)
  delivered-IsSound p true true s c a h = absurd (no_panic codes_of p p.main a h.placed s c)
  delivered-IsSound p true false s c a h =
      let q : Process = record p { pending = true } in
      record {
        placed =
            Place-same codes_of p q p.main a refl refl refl (λ w. w) (λ w. (w, refl)) (λ c k. k)
              h.placed;
        stopped_once = h.stopped_once;
      }
  delivered-IsSound p false closed s c a h = unasked-IsSound p p.main refl h

  deliver-IsSound :
      (p : Process) → is_alive p.main ≡ true → IsSound codes_of p → IsSound codes_of (deliver p)
  unfolding deliver
  deliver-IsSound p a h = delivered-IsSound p p.subscribed p.closed refl refl a h

  ended-IsSound :
      (e : Option Text) (p : Process) (s : Service)
      → p.service ≡ s
      → IsSound codes_of p
      → IsSound codes_of (elim s [ serving ↦ record p { service = ended e } | ended f ↦ p ])
  ended-IsSound e p serving s h = record {
    placed = Place-ended codes_of e p p.main s h.placed;
    stopped_once = h.stopped_once;
  }
  ended-IsSound e p (ended f) s h = h

  end_service-IsSound :
      (e : Option Text) (p : Process) → IsSound codes_of p → IsSound codes_of (end_service e p)
  unfolding end_service
  end_service-IsSound e p h = ended-IsSound e p p.service refl h

  pub Runs-IsSound :
      {p : Process} {n : ℕ} {u : Process}
      → Runs codes_of p n u
      → IsSound codes_of p
      → IsSound codes_of u
  Runs-IsSound here h = h
  Runs-IsSound (moves {n} {q} t r run a e) h = rw e at (step-IsSound t q a (Runs-IsSound run h))
  Runs-IsSound (signals {n} {q} run a) h = deliver-IsSound q a (Runs-IsSound run h)
  Runs-IsSound (ends {n} {q} e run a) h = end_service-IsSound e q (Runs-IsSound run h)

  pub launch-IsSound : (log : List Text) → IsSound codes_of (launch codes_of log (ok tt))
  unfolding launch
  launch-IsSound log = record { placed = (refl, refl, refl, refl); stopped_once = omega arith }
