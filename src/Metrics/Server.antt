-- ===== src/Metrics/Server.antt =====
-- internal/metrics/update.go and metrics.go: the goroutine that takes the publications and answers the
-- exporter, as steps between the points where it waits, and the test for the keys of an HTTPS server.
use mq_container.Base.{
  ℕ, suc, Bool, true, false, ◌&&◌, ◌||◌, List, [], ◌∷◌, Option, none, some, Text, codes, eq_text,
  if◌then◌else◌,
}
use mq_container.Base.Decimal.{ℤ}
use mq_container.Metrics.{
  Element, MetricClass, MetricLookup, MetricData, initialise_metrics, update_metrics,
}
use mq_container.Ready.{Outcome, ok, failed}

-- what `os.ReadDir` of the directory of the keys gives
pub data Listing : Type 0 where
  no_such_directory unreadable : Listing
  names : List Text → Listing

unfoldable pub has_name : Text → List Text → Bool
has_name name [] = false
has_name name (n ∷ ns) = eq_text n name || has_name name ns

-- `isHTTPSMetricsEnabled`
unfoldable pub is_https_metrics_enabled : Listing → Outcome Bool
unfolding has_name
is_https_metrics_enabled no_such_directory = ok false
is_https_metrics_enabled unreadable = failed
is_https_metrics_enabled (names []) = ok false
is_https_metrics_enabled (names (n ∷ ns)) =
    if has_name (codes "tls.crt") (n ∷ ns) && has_name (codes "tls.key") (n ∷ ns)
    then ok true
    else failed

-- Where `processMetrics` waits: for the connection, for the publications, for a request, and for the
-- time to connect again; or it has returned.
pub data Pc : Type 0 where
  connecting publications requests retry finished : Pc

-- The goroutine, its connection, the classes of mqmetric, how often `startChannel` was sent to, and the
-- maps that were sent as responses, the last one first.
pub record Gatherer {ℓ} (V : Type ℓ) : Type ℓ where
  pub pc : Pc
  pub first_connect : Bool
  pub metrics : List (Text × MetricData V)
  pub classes : List MetricClass
  pub connected : Bool
  pub started : ℕ
  pub responses : List (List (Text × MetricData V))

-- What the goroutine waited for: whether `InitConnection` works, with the classes that are discovered;
-- the classes after `ProcessPublications`; a request; `stopChannel`; and the end of the time to wait.
pub data Event : Type 0 where
  connection : Bool → Option (List MetricClass) → Event
  published : Option (List MetricClass) → Event
  request : Bool → Event
  stop timeout : Event

abbrev pub start {ℓ} : {V : Type ℓ} → Gatherer V
start = record {
  pc = connecting;
  first_connect = true;
  metrics = [];
  classes = [];
  connected = false;
  started = 0;
  responses = [];
}

-- `EndConnection` after an error
abbrev pub lost {ℓ} : {V : Type ℓ} → Gatherer V → Gatherer V
lost s = record s { pc = retry; connected = false }

module _ {ℓ} {V : Type ℓ} (lookup : Text → Option MetricLookup)
    (normalise : Element → Text → ℤ → V) where
  -- after `doConnect`
  unfoldable pub connect : Bool → Option (List MetricClass) → Gatherer V → Gatherer V
  unfolding initialise_metrics
  connect false discovered s = lost s
  connect true none s = lost s
  connect true (some cs) s = record s {
    pc = publications;
    first_connect = false;
    metrics = (initialise_metrics lookup cs).0;
    classes = cs;
    connected = true;
    started = if s.first_connect then suc s.started else s.started;
  }

  -- the response to a request
  unfoldable pub respond : Bool → Gatherer V → Gatherer V
  unfolding update_metrics
  respond true s =
      let (classes, metrics) = update_metrics normalise s.classes s.metrics in
      record s {
        pc = publications;
        classes = classes;
        metrics = metrics;
        responses = metrics ∷ s.responses;
      }
  respond false s = record s { pc = publications; responses = s.metrics ∷ s.responses }

  -- One step of `processMetrics`; an event it does not wait for leaves it where it is.
  unfoldable pub step : Event → Pc → Gatherer V → Gatherer V
  unfolding connect respond
  step (connection initialised discovered) connecting s = connect initialised discovered s
  step (published none) publications s = lost s
  step (published (some cs)) publications s = record s { pc = requests; classes = cs }
  step (request collect) requests s = respond collect s
  step timeout requests s = record s { pc = publications }
  step stop requests s = record s { pc = finished; connected = false }
  step timeout retry s = record s { pc = connecting }
  step stop retry s = record s { pc = finished }
  step _ _ s = s

  unfoldable pub run : List Event → Gatherer V → Gatherer V
  unfolding step
  run [] s = s
  run (e ∷ events) s = run events (step e s.pc s)
