-- ===== src/Tests/Processes.antt =====
-- Processes of the servers, from the environment to the exit.
use dev_box.Common.{
  ℕ, ◌≤◌, ◌≡◌, refl, ◌⊎◌, true, false, List, [], ◌∷◌, none, some, Text, codes, Result, ok, err,
}
use dev_box.Service.{
  Process, Service, serving, ended, running, returned, stopping, stopped, waiting, exited, Thread,
  main_thread, run_thread, signal_thread, Runs, here, moves, signals, ends, boot, launch, is_alive,
  deliver, end_service, step,
}
use dev_box.Service.Ends.{Moves, Waits, launch-ends}
use dev_box.Service.Exits.{Outcome, boot-Outcome}
use dev_box.Config.Startup.{Startup, configure}
use dev_box.Config.Main
use dev_box.Auth.Main as AuthMain
use dev_box.Tests.Starting.{config_system}

abbrev serves : Startup → Result Text (Unit {0})
serves s = ok tt

-- After a signal that came twice and the end of the service, with an error that only `main` reports.
abbrev after_signal : Process
after_signal = record {
  service = ended (some (codes "listener closed"));
  runner = running;
  watcher = stopping;
  main = exited 1;
  subscribed = false;
  pending = true;
  closed = true;
  stops = 1;
  log = codes "CONFIG_SERVER_SHUTDOWN" ∷ codes "CONFIG_SERVER_EXIT_ERROR" ∷ [];
}

ran :
    Runs Main.log_codes
      (boot Main.log_codes Main.failure_log Main.said serves (configure config_system))
      6
      after_signal
unfolding boot launch configure dev_box.Common.bytes_dec codes dev_box.Common.ℕ_discrete step
    dev_box.Service.step_main deliver dev_box.Service.step_signal end_service
    dev_box.Strings.Decimal.atoi
ran =
    moves main_thread _
      (moves main_thread _
        (moves main_thread _
          (moves main_thread _
            (ends (some (codes "listener closed"))
              (signals
                (moves signal_thread _ (signals (moves main_thread _ here refl refl) refl) refl
                  refl)
                refl)
              refl)
            refl refl)
          refl refl)
        refl refl)
      refl refl

boot-Outcome_example :
    Outcome Main.log_codes Main.failure_log Main.said serves
      (configure config_system)
      after_signal
      (exited 1)
    × (1 ≤ 1)
boot-Outcome_example =
    boot-Outcome Main.log_codes Main.failure_log Main.said serves (configure config_system) ran

-- The service was asked to stop and has not ended; a second signal stays unread.
abbrev asked_to_stop : Process
asked_to_stop = record {
  service = serving;
  runner = running;
  watcher = stopped;
  main = waiting;
  subscribed = true;
  pending = true;
  closed = false;
  stops = 1;
  log = codes "AUTH_DEV_SHUTDOWN" ∷ [];
}

waited : Runs AuthMain.log_codes (launch AuthMain.log_codes [] (ok tt)) 3 asked_to_stop
unfolding launch step dev_box.Service.step_main deliver dev_box.Service.step_signal
waited =
    signals
      (moves signal_thread _
        (moves signal_thread _ (signals (moves main_thread _ here refl refl) refl) refl refl) refl
        refl)
      refl

launch-ends_example :
    (3 ≤ 8)
    × ((is_alive waiting ≡ false)
        ⊎ (Moves AuthMain.log_codes asked_to_stop ⊎ Waits AuthMain.log_codes asked_to_stop))
launch-ends_example = launch-ends AuthMain.log_codes [] waited
