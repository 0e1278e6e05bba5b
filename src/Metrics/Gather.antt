-- ===== src/Metrics/Gather.antt =====
-- What holds of the goroutine that gathers the metrics, whatever it waits for happens.
use mq_container.Base.{
  ◌≡◌, refl, sym, ap, subst, ◌∙◌, Bool, true, false, List, [], ◌∷◌, Option, none, some, Text, All,
  if◌then◌else◌, arith, ◌⊎◌, inl, inr,
}
use mq_container.Base.Decimal.{ℤ}
use mq_container.Metrics.{
  Element, MetricClass, MetricLookup, MetricData, initialise_metrics, normalised,
}
use mq_container.Metrics.Initialise.{initialise_metrics-IsInitial}
use mq_container.Metrics.Update.{cells, set_cells, update_metrics-cells}
use mq_container.Metrics.Exported.{distinct}
use mq_container.Metrics.Scrapes.{distinct-set_values, IsInitial-distinct}
use mq_container.Metrics.Server.{
  Pc, connecting, publications, requests, retry, finished, Gatherer, Event, connection, published,
  request, stop, timeout, start, lost, connect, respond, step, run,
}

abbrev pub is_active : Pc → Bool
is_active publications = true
is_active requests = true
is_active _ = false

module _ {ℓ} {V : Type ℓ} where
  -- `startChannel` was sent to once if the queue manager was connected to, and is not sent to again;
  -- the connection is open while publications are processed, and closed otherwise; there is no
  -- response before the first connection; and no map has a key twice.
  pub record IsWellFormed (s : Gatherer V) : Type ℓ where
    pub once : s.started ≡ (if s.first_connect then 0 else 1)
    pub closed : s.connected ≡ is_active s.pc
    pub active : is_active s.pc ≡ true → s.first_connect ≡ false
    pub silent : s.first_connect ≡ true → s.responses ≡ []
    pub current : distinct s.metrics ≡ true
    pub sent : All (λ metrics. distinct metrics ≡ true) s.responses

  start-IsWellFormed : IsWellFormed (start {V = V})
  unfolding distinct
  start-IsWellFormed = record {
    once = refl;
    closed = refl;
    active = λ h. ground arith;
    silent = λ h. refl;
    current = refl;
    sent = tt;
  }

  lost-IsWellFormed : (s : Gatherer V) → IsWellFormed s → IsWellFormed (lost s)
  lost-IsWellFormed s w = record {
    once = w.once;
    closed = refl;
    active = λ h. ground arith;
    silent = w.silent;
    current = w.current;
    sent = w.sent;
  }

  distinct-set_cells :
      (normalise : Element → Text → ℤ → V) (cs : List (Text × Element))
      (metrics : List (Text × MetricData V))
      → distinct (set_cells normalise cs metrics) ≡ distinct metrics
  distinct-set_cells normalise [] metrics = refl
  distinct-set_cells normalise ((key, x) ∷ cs) metrics =
      distinct-set_cells normalise cs _ ∙ distinct-set_values key (normalised normalise x) metrics

module _ {ℓ} {V : Type ℓ} (lookup : Text → Option MetricLookup)
    (normalise : Element → Text → ℤ → V) where
  connect-IsWellFormed :
      (initialised : Bool) (discovered : Option (List MetricClass)) (s : Gatherer V)
      → IsWellFormed s
      → IsWellFormed (connect lookup normalise initialised discovered s)
  unfolding connect
  connect-IsWellFormed false discovered s w = lost-IsWellFormed s w
  connect-IsWellFormed true none s w = lost-IsWellFormed s w
  connect-IsWellFormed true (some cs) s w = record {
    once = let w_once = w.once in ground arith;
    closed = refl;
    active = λ h. refl;
    silent = λ h. ground arith;
    current =
        IsInitial-distinct lookup (initialise_metrics lookup cs).0
          (initialise_metrics-IsInitial V lookup cs);
    sent = w.sent;
  }

  respond-IsWellFormed :
      (collect : Bool) (s : Gatherer V)
      → s.pc ≡ requests
      → IsWellFormed s
      → IsWellFormed (respond lookup normalise collect s)
  unfolding respond
  respond-IsWellFormed true s at w =
      let f = w.active (ap is_active at) in
      let d =
        subst (λ ms. distinct ms ≡ true) (sym (update_metrics-cells normalise s.classes s.metrics))
          (distinct-set_cells normalise (cells s.classes) s.metrics ∙ w.current) in
      record {
        once = w.once;
        closed = w.closed ∙ ap is_active at;
        active = λ h. f;
        silent = λ h. ground arith;
        current = d;
        sent = (d, w.sent);
      }
  respond-IsWellFormed false s at w =
      let f = w.active (ap is_active at) in
      record {
        once = w.once;
        closed = w.closed ∙ ap is_active at;
        active = λ h. f;
        silent = λ h. ground arith;
        current = w.current;
        sent = (w.current, w.sent);
      }

  pc-IsWellFormed :
      (s : Gatherer V) (p : Pc)
      → is_active s.pc ≡ is_active p
      → IsWellFormed s
      → IsWellFormed (record s { pc = p })
  pc-IsWellFormed s p e w = record {
    once = w.once;
    closed = w.closed ∙ e;
    active = λ h. w.active (e ∙ h);
    silent = w.silent;
    current = w.current;
    sent = w.sent;
  }

  step-IsWellFormed :
      (e : Event) (p : Pc) (s : Gatherer V)
      → s.pc ≡ p
      → IsWellFormed s
      → IsWellFormed (step lookup normalise e p s)
  unfolding step
  step-IsWellFormed (connection initialised discovered) connecting s at w =
      connect-IsWellFormed initialised discovered s w
  step-IsWellFormed (published none) publications s at w = lost-IsWellFormed s w
  step-IsWellFormed (published (some cs)) publications s at w =
      let v = pc-IsWellFormed s requests (ap is_active at) w in
      record {
        once = v.once;
        closed = v.closed;
        active = v.active;
        silent = v.silent;
        current = v.current;
        sent = v.sent;
      }
  step-IsWellFormed (request collect) requests s at w = respond-IsWellFormed collect s at w
  step-IsWellFormed timeout requests s at w = pc-IsWellFormed s publications (ap is_active at) w
  step-IsWellFormed stop requests s at w =
      pc-IsWellFormed (lost s) finished refl (lost-IsWellFormed s w)
  step-IsWellFormed timeout retry s at w = pc-IsWellFormed s connecting (ap is_active at) w
  step-IsWellFormed stop retry s at w = pc-IsWellFormed s finished (ap is_active at) w
  step-IsWellFormed _ _ s at w = w

  run-IsWellFormed :
      (events : List Event) (s : Gatherer V)
      → IsWellFormed s
      → IsWellFormed (run lookup normalise events s)
  unfolding run
  run-IsWellFormed [] s w = w
  run-IsWellFormed (e ∷ events) s w =
      run-IsWellFormed events (step lookup normalise e s.pc s) (step-IsWellFormed e s.pc s refl w)

  -- Whatever processMetrics waits for happens, the exporter is told once that metrics are there, at
  -- the first connection, and gets no response before; the connection is open while publications
  -- are processed and closed otherwise; and no map that is sent has a key twice.
  pub process_metrics-IsWellFormed :
      (events : List Event) → IsWellFormed (run lookup normalise events start)
  process_metrics-IsWellFormed events = run-IsWellFormed events start start-IsWellFormed

  step-finished : (e : Event) (s : Gatherer V) → step lookup normalise e finished s ≡ s
  unfolding step
  step-finished (connection initialised discovered) s = refl
  step-finished (published none) s = refl
  step-finished (published (some cs)) s = refl
  step-finished (request collect) s = refl
  step-finished stop s = refl
  step-finished timeout s = refl

  -- Nothing more is done once the goroutine has returned.
  run-finished :
      (events : List Event) (s : Gatherer V) → s.pc ≡ finished → run lookup normalise events s ≡ s
  unfolding run
  run-finished [] s at = refl
  run-finished (e ∷ events) s at =
      subst (λ p. run lookup normalise events (step lookup normalise e p s) ≡ s) (sym at)
        (rw (step-finished e s) (run-finished events s at))

  run-stop :
      (s : Gatherer V) (events : List Event)
      → IsWellFormed s
      → (s.pc ≡ requests) ⊎ (s.pc ≡ retry)
      → run lookup normalise (stop ∷ events) s ≡ record s { pc = finished; connected = false }
  unfolding run step
  run-stop s events w (inl at) =
      rw (at) (run-finished events (record s { pc = finished; connected = false }) refl)
  run-stop s events w (inr at) = rw (at) (
      run-finished events (record s { pc = finished }) refl
      ∙ ap (λ c. record s { pc = finished; connected = c }) (w.closed ∙ ap is_active at))
