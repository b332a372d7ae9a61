-- ===== src/Service/Place.antt =====
-- What holds in every state of a server's process, told by the place of `main`.
use dev_box.Common.{
  ℕ, ◌≤◌, ◌≡◌, ◌≢◌, true, false, contains, ◌∙◌, sym, Option, none, some, Text, text_eq, arith,
}
use dev_box.Service.{
  Codes, Process, serving, ended, SignalThread, not_started, listening, stopping, stopped,
  MainThread, notifying, waiting, ignoring, closing, reporting, exited, killed, panicked, is_alive,
  exit_code,
}

-- The calls of `lifecycle.Stop` that a thread of signals has made, at most.
abbrev pub stops_by : SignalThread → ℕ
stops_by not_started = 0
stops_by listening = 0
stops_by stopping = 1
stops_by stopped = 1

module _ (codes_of : Codes) where
  -- An error of the service is reported.
  abbrev pub Reported : Process → Option Text → Type 0
  Reported p none = Unit
  Reported p (some e) = contains p.log codes_of.exit_error ≡ true

  abbrev pub Place : Process → MainThread → Type 0
  Place p notifying =
      (p.subscribed ≡ false) × (p.closed ≡ false) × (p.watcher ≡ not_started) × (p.stops ≡ 0)
  Place p waiting =
      (p.subscribed ≡ true)
      × (p.closed ≡ false)
      × (p.watcher ≢ not_started)
      × (p.stops ≡ stops_by p.watcher)
  Place p (ignoring e) = (p.service ≡ ended e) × (p.closed ≡ false)
  Place p (closing e) = (p.service ≡ ended e) × (p.subscribed ≡ false)
  Place p (reporting e) = (p.service ≡ ended e) × (p.subscribed ≡ false)
  Place p (exited code) =
      (e : Option Text) × (p.service ≡ ended e) × (code ≡ exit_code e) × Reported p e
  Place p killed = (p.stops ≡ 0)
  Place p panicked = ⊥

  pub record IsSound (p : Process) : Type 0 where
    pub placed : Place p p.main
    pub stopped_once : p.stops ≤ stops_by p.watcher

  -- The other threads leave the place of `main`, the service and what `main` keeps.
  pub Place-same :
      (p q : Process) (m : MainThread)
      → is_alive m ≡ true
      → q.service ≡ p.service
      → q.subscribed ≡ p.subscribed
      → q.closed ≡ p.closed
      → (p.watcher ≢ not_started → q.watcher ≢ not_started)
      → (p.watcher ≡ not_started → (q.watcher ≡ not_started) × (q.stops ≡ p.stops))
      → (p.closed ≡ false → p.stops ≡ stops_by p.watcher → q.stops ≡ stops_by q.watcher)
      → Place p m
      → Place q m
  Place-same p q notifying a s b c w v k h = ground (arith, v h.2)
  Place-same p q waiting a s b c w v k h = (b ∙ h.0, c ∙ h.1, w h.2, k h.1 h.3)
  Place-same p q (ignoring e) a s b c w v k h = ground arith
  Place-same p q (closing e) a s b c w v k h = ground arith
  Place-same p q (reporting e) a s b c w v k h = ground arith
  Place-same p q (exited code) a s b c w v k h = absurd (ground arith)
  Place-same p q killed a s b c w v k h = absurd (ground arith)
  Place-same p q panicked a s b c w v k h = absurd (ground arith)

  -- The thread of signals has been started, and stays so.
  pub watched-IsSound :
      (p q : Process) (s : SignalThread)
      → is_alive p.main ≡ true
      → p.watcher ≡ s
      → s ≢ not_started
      → q.main ≡ p.main
      → q.service ≡ p.service
      → q.subscribed ≡ p.subscribed
      → q.closed ≡ p.closed
      → q.watcher ≢ not_started
      → q.stops ≤ stops_by q.watcher
      → (p.closed ≡ false → p.stops ≡ stops_by p.watcher → q.stops ≡ stops_by q.watcher)
      → IsSound p
      → IsSound q
  watched-IsSound p q s a e started m b c d w l k h = record {
    placed =
        rw m
          (Place-same p q p.main a b c d (λ f. w) (λ f. absurd (started (sym e ∙ f))) k h.placed);
    stopped_once = l;
  }

  -- Signals no longer go to the channel when it is closed.
  pub no_panic :
      (p : Process) (m : MainThread)
      → is_alive m ≡ true
      → Place p m
      → p.subscribed ≡ true
      → p.closed ≡ true
      → ⊥
  no_panic p notifying a h s c = ground arith
  no_panic p waiting a h s c = ground arith
  no_panic p (ignoring e) a h s c = ground arith
  no_panic p (closing e) a h s c = ground arith
  no_panic p (reporting e) a h s c = ground arith
  no_panic p (exited code) a h s c = ground arith
  no_panic p killed a h s c = ground arith
  no_panic p panicked a h s c = ground arith

  -- No place of `main` before the end of the service tells of it.
  pub Place-ended :
      (e : Option Text) (p : Process) (m : MainThread)
      → p.service ≡ serving
      → Place p m
      → Place (record p { service = ended e }) m
  Place-ended e p notifying s h = h
  Place-ended e p waiting s h = h
  Place-ended e p (ignoring f) s h = absurd (ground arith)
  Place-ended e p (closing f) s h = absurd (ground arith)
  Place-ended e p (reporting f) s h = absurd (ground arith)
  Place-ended e p (exited code) s (f, g, c, r) = absurd (ground arith)
  Place-ended e p killed s h = h
  Place-ended e p panicked s h = h
