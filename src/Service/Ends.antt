-- ===== src/Service/Ends.antt =====
-- That a server's process ends.
use dev_box.Common.{
  ℕ, ◌+◌, ◌≤◌, ◌<◌, ◌≡◌, refl, ◌⊎◌, inl, inr, true, false, List, Option, some, Text, ok, ◌≢◌,
  Bool-cases, arith,
}
use dev_box.Service.{
  Codes, Process, Service, serving, ended, RunThread, running, returned, SignalThread, not_started,
  listening, stopping, stopped, MainThread, notifying, waiting, ignoring, closing, reporting,
  exited, killed, panicked, Thread, main_thread, run_thread, signal_thread, is_alive, launch,
  step_main, step_run, step_signal, step, deliver, end_service, Runs, here, moves, signals, ends,
  move_main, move_signal, wait, stop_asked,
}
use dev_box.Service.Place.{stops_by, Place, IsSound}
use dev_box.Service.Sound.{Runs-IsSound, launch-IsSound}

-- The moves that are left, at most. The first one of `main` starts the thread of signals.
abbrev main_left : MainThread → ℕ
main_left notifying = 7
main_left waiting = 4
main_left (ignoring e) = 3
main_left (closing e) = 2
main_left (reporting e) = 1
main_left (exited code) = 0
main_left killed = 0
main_left panicked = 0

abbrev run_left : RunThread → ℕ
run_left running = 1
run_left returned = 0

abbrev signal_left : SignalThread → ℕ
signal_left not_started = 0
signal_left listening = 2
signal_left stopping = 1
signal_left stopped = 0

abbrev work : Process → ℕ
work p = main_left p.main + run_left p.runner + signal_left p.watcher

module _ (codes_of : Codes) where
  move_main-work :
      (p : Process) (m : MainThread) (q : Process)
      → p.main ≡ m
      → move_main codes_of p m ≡ some q
      → work q < work p
  unfolding move_main
  move_main-work p notifying q e h = ground arith
  move_main-work p waiting q e h = ground arith
  move_main-work p (ignoring f) q e h = ground arith
  move_main-work p (closing f) q e h = ground arith
  move_main-work p (reporting f) q e h = ground arith
  move_main-work p (exited code) q e h = ground arith
  move_main-work p killed q e h = ground arith
  move_main-work p panicked q e h = ground arith

  -- Each move leaves less work.
  step-work : (t : Thread) (p q : Process) → step codes_of t p ≡ some q → work q < work p
  unfolding step step_main step_run step_signal
  step-work main_thread p q h = move_main-work p p.main q refl h
  step-work run_thread p q h = ground arith
  step-work signal_thread p q h = ground arith

deliver-work : (p : Process) → work (deliver p) ≤ work p
unfolding deliver
deliver-work p = ground arith

end_service-work : (e : Option Text) (p : Process) → work (end_service e p) ≡ work p
unfolding end_service
end_service-work e p = ground arith

Runs-work :
    (codes_of : Codes) {p : Process} {n : ℕ} {u : Process}
    → Runs codes_of p n u
    → n + work u ≤ work p
Runs-work codes_of here = omega arith
Runs-work codes_of (moves {n} {q} t r run alive h) =
    omega (arith, Runs-work codes_of run, step-work codes_of t q r h)
Runs-work codes_of (signals {n} {q} run alive) =
    omega (arith, Runs-work codes_of run, deliver-work q)
Runs-work codes_of (ends {n} {q} e run alive) =
    omega (arith, Runs-work codes_of run, end_service-work e q)

module _ (codes_of : Codes) where
  abbrev pub Moves : Process → Type 0
  Moves p = (t : Thread) × (q : Process) × (step codes_of t p ≡ some q)

  -- The service is awaited, and a signal that has come has been passed on to it.
  abbrev pub Waits : Process → Type 0
  Waits p = (p.main ≡ waiting) × (p.service ≡ serving) × ((p.stops ≡ 1) ⊎ (p.pending ≡ false))

  main_moves :
      (p : Process) (m : MainThread)
      → is_alive m ≡ true
      → ((q : Process) × (move_main codes_of p m ≡ some q))
        ⊎ ((m ≡ waiting) × (p.service ≡ serving))
  unfolding move_main
  main_moves p notifying a = inl (_, refl)
  main_moves p waiting a = waits p p.service refl
    where
      waits :
          (p : Process) (s : Service)
          → p.service ≡ s
          → ((q : Process) × (wait codes_of p s ≡ some q))
            ⊎ ((waiting ≡ waiting) × (p.service ≡ serving))
      waits p serving e = inr (refl, e)
      waits p (ended f) e = inl (_, refl)
  main_moves p (ignoring e) a = inl (_, refl)
  main_moves p (closing e) a = inl (_, refl)
  main_moves p (reporting e) a = inl (_, refl)
  main_moves p (exited code) a = absurd (ground arith)
  main_moves p killed a = absurd (ground arith)
  main_moves p panicked a = absurd (ground arith)

  signal_moves :
      (p : Process) (s : SignalThread)
      → s ≢ not_started
      → p.watcher ≡ s
      → p.stops ≡ stops_by s
      → ((q : Process) × (move_signal codes_of p s ≡ some q))
        ⊎ ((p.stops ≡ 1) ⊎ (p.pending ≡ false))
  unfolding move_signal
  signal_moves p not_started h w e = absurd (h refl)
  signal_moves p listening h w e = elim (Bool-cases p.pending) [
    | inl signal ↦ inl (stop_asked codes_of p, rw signal refl)
    | inr quiet ↦ inr (inr quiet)
  ]
  signal_moves p stopping h w e = inl (_, refl)
  signal_moves p stopped h w e = inr (inl e)

  progress : (p : Process) → IsSound codes_of p → is_alive p.main ≡ true → Moves p ⊎ Waits p
  unfolding step step_main step_signal
  progress p h a = elim (main_moves p p.main a) [
    | inl (q, e) ↦ inl (main_thread, q, e)
    | inr (at, serves) ↦
        let placed : Place codes_of p waiting = rw at at h.placed in
        elim (signal_moves p p.watcher placed.2 refl placed.3) [
          | inl (q, e) ↦ inl (signal_thread, q, e)
          | inr answered ↦ inr (at, serves, answered)
        ]
  ]

  -- Once the server is made, the threads make at most eight moves, however many signals come; and while the process lives, some thread can move, or `main` waits for a service that has not ended, which was asked to stop if a signal has come.
  pub launch-ends :
      (log : List Text) {n : ℕ} {u : Process}
      → Runs codes_of (launch codes_of log (ok tt)) n u
      → (n ≤ 8) × ((is_alive u.main ≡ false) ⊎ (Moves u ⊎ Waits u))
  unfolding launch
  launch-ends log {n} {u} run = (
    omega (arith, Runs-work codes_of run),
    elim (Bool-cases (is_alive u.main)) [
      | inl alive ↦ inr (progress u (Runs-IsSound codes_of run (launch-IsSound codes_of log)) alive)
      | inr dead ↦ inl dead
    ],
  )
