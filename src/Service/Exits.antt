-- ===== src/Service/Exits.antt =====
-- How a server's process exits.
use dev_box.Common.{
  ℕ, ◌≤◌, ◌≡◌, refl, sym, ap, ◌∙◌, ◌⊎◌, inl, inr, true, false, List, [], ◌∷◌, ◌++◌, Option, Text,
  Result, ok, err, arith,
}
use dev_box.Service.{
  Codes, Process, ended, SignalThread, MainThread, notifying, waiting, ignoring, closing, reporting,
  exited, killed, panicked, is_alive, exit_code, exit_with, launch, boot, Runs, here, moves,
  signals, ends,
}
use dev_box.Service.Place.{stops_by, Place, Reported}
use dev_box.Service.Sound.{Runs-IsSound, launch-IsSound}

no_step : (p q : Process) → q ≡ p → is_alive p.main ≡ false → is_alive q.main ≡ true → ⊥
no_step p q e dead alive = cc (sym alive ∙ ap (λ (r : Process). is_alive r.main) e ∙ dead)

-- A process that has ended makes no step.
Runs-dead :
    (codes_of : Codes) {p : Process} {n : ℕ} {u : Process}
    → is_alive p.main ≡ false
    → Runs codes_of p n u
    → u ≡ p
Runs-dead codes_of dead here = refl
Runs-dead codes_of {p} dead (moves {n} {q} t r run alive e) =
    absurd (no_step p q (Runs-dead codes_of dead run) dead alive)
Runs-dead codes_of {p} dead (signals {n} {q} run alive) =
    absurd (no_step p q (Runs-dead codes_of dead run) dead alive)
Runs-dead codes_of {p} dead (ends {n} {q} e run alive) =
    absurd (no_step p q (Runs-dead codes_of dead run) dead alive)

module _ {E A : Type 0} (codes_of : Codes) (failure_log : E → List Text) (said : A → List Text)
    (new_server : A → Result Text (Unit {0})) where
  -- The server could not be configured or made, and the log says so.
  abbrev pub FailedStart : Result E A → Process → Type 0
  FailedStart (err e) u = u.log ≡ failure_log e
  FailedStart (ok a) u =
      (cause : Text) × (new_server a ≡ err cause) × (u.log ≡ said a ++ codes_of.start_failed ∷ [])

  abbrev pub Started : Result E A → Type 0
  Started (err e) = ⊥
  Started (ok a) = new_server a ≡ ok tt

  -- What the end of `main` tells.
  abbrev pub Outcome : Result E A → Process → MainThread → Type 0
  Outcome r u (exited code) =
      ((code ≡ 1) × FailedStart r u)
      ⊎ (Started r
          × (e : Option Text) × (u.service ≡ ended e)
          × (code ≡ exit_code e)
          × Reported codes_of u e)
  Outcome r u killed = Started r × (u.stops ≡ 0)
  Outcome r u panicked = ⊥
  Outcome r u _ = Started r

  sound_outcome :
      (r : Result E A) (u : Process) (m : MainThread)
      → Started r
      → Place codes_of u m
      → Outcome r u m
  sound_outcome r u notifying s h = s
  sound_outcome r u waiting s h = s
  sound_outcome r u (ignoring e) s h = s
  sound_outcome r u (closing e) s h = s
  sound_outcome r u (reporting e) s h = s
  sound_outcome r u (exited code) s (e, over, code_is, reported) =
      inr (s, e, over, code_is, reported)
  sound_outcome r u killed s h = (s, h)
  sound_outcome r u panicked s h = h

  stops_by-le : (s : SignalThread) → stops_by s ≤ 1
  stops_by-le s = ground arith

  -- After a start, every run tells of the service.
  launch-Outcome :
      (r : Result E A) (a : A) {n : ℕ} {u : Process}
      → Started r
      → Runs codes_of (launch codes_of (said a) (ok tt)) n u
      → Outcome r u u.main × (u.stops ≤ 1)
  launch-Outcome r a {n} {u} s run =
      let sound = Runs-IsSound codes_of run (launch-IsSound codes_of (said a)) in
      (
        sound_outcome r u u.main s sound.placed,
        omega (arith, sound.stopped_once, stops_by-le u.watcher),
      )

  failed-Outcome :
      (r : Result E A) (log : List Text) {n : ℕ} {u : Process}
      → FailedStart r (exit_with log)
      → Runs codes_of (exit_with log) n u
      → Outcome r u u.main × (u.stops ≤ 1)
  failed-Outcome r log failed run =
      rw (Runs-dead codes_of refl run) (inl (refl, failed), omega arith)

  booted-Outcome :
      (a : A) (made : Result Text (Unit {0})) {n : ℕ} {u : Process}
      → new_server a ≡ made
      → Runs codes_of (launch codes_of (said a) made) n u
      → Outcome (ok a) u u.main × (u.stops ≤ 1)
  unfolding launch
  booted-Outcome a (err cause) e run =
      failed-Outcome (ok a) (said a ++ codes_of.start_failed ∷ []) (cause, e, refl) run
  booted-Outcome a (ok tt) e run = launch-Outcome (ok a) a e run

  -- However signals, the end of the service and the threads interleave: a process that exits either does so with 1, since the server could not be configured or made, with just what is logged of that; or the server was made and its service has ended, with an error exactly if the code is 1, which is then in the log. `main` never panics on the channel of signals, it is killed by one only before the service was asked to stop, and the service is asked at most once.
  pub boot-Outcome :
      (r : Result E A) {n : ℕ} {u : Process}
      → Runs codes_of (boot codes_of failure_log said new_server r) n u
      → Outcome r u u.main × (u.stops ≤ 1)
  unfolding boot
  boot-Outcome (err e) run = failed-Outcome (err e) (failure_log e) refl run
  boot-Outcome (ok a) run = booted-Outcome a (new_server a) refl run
