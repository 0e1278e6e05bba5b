-- ===== src/Metrics.antt =====
-- internal/metrics/update.go: the map of the metrics, as it is initialised from the classes that the
-- queue manager publishes, and its update from what was published since. The classes are those of
-- mqmetric, whose `Normalise` is an argument, as is `generateMetricNamesMap`. A Go map is an association
-- list without a key twice; the order of its entries has no meaning.
pub mod Exporter
pub mod Collect
pub mod Exported
pub mod Describe
pub mod Response
pub mod Scrapes
pub mod Server
pub mod Gather
pub mod Update
pub mod Initialise
mod Tests
use mq_container.Base.{
  ℕ, Bool, true, false, not, ◌&&◌, ◌||◌, List, [], ◌∷◌, ◌++◌, map, Option, none, some, Text, codes,
  eq_text, contains, if◌then◌else◌,
}
use mq_container.Base.Decimal.{ℤ}

-- `MonElement`: what is published for a label since the last update
pub record Element : Type 0 where
  pub description : Text
  pub is_delta : Bool
  pub published : List (Text × ℤ)

pub record MetricType : Type 0 where
  pub type_name : Text
  pub object_topic : Text
  pub elements : List Element

pub record MetricClass : Type 0 where
  pub class_name : Text
  pub types : List MetricType

-- an entry of the map of names
pub record MetricLookup : Type 0 where
  pub metric_name : Text
  pub enabled : Bool

-- `metricData`
pub record MetricData {ℓ} (V : Type ℓ) : Type ℓ where
  pub name : Text
  pub help : Text
  pub object_type : Bool
  pub nha_type : Bool
  pub delta : Bool
  pub values : List (Text × V)

-- `makeKey`
unfoldable pub make_key : Text → Text → Element → Text
make_key class_name type_name e = class_name ++ b'/' ∷ [] ++ type_name ++ b'/' ∷ [] ++ e.description

abbrev pub is_nha : Text → Bool
is_nha class_name = eq_text class_name (codes "NHAREPLICA")

-- The test on a metric type that both functions make.
unfoldable pub is_processed : Text → MetricType → Bool
is_processed class_name t = is_nha class_name || not (contains t.object_topic (codes "%s"))

module _ {ℓ} {V : Type ℓ} where
  unfoldable pub find : Text → List (Text × MetricData V) → Option (MetricData V)
  find key [] = none
  find key ((k, d) ∷ metrics) =
      let rest = find key metrics in if eq_text k key then some d else rest

  -- `metric.values = …` through the pointer that the map holds
  unfoldable pub set_values :
      Text → List (Text × V) → List (Text × MetricData V) → List (Text × MetricData V)
  set_values key values [] = []
  set_values key values ((k, d) ∷ metrics) =
      let rest = set_values key values metrics in
      if eq_text k key then (k, record d { values = values }) ∷ metrics else (k, d) ∷ rest

  -- a metric, when the map has an element with its key already, or not; with `validMetrics`
  unfoldable pub add_if_new :
      Text
      → MetricData V
      → List (Text × MetricData V) × Bool
      → Option (MetricData V)
      → List (Text × MetricData V) × Bool
  add_if_new key metric (metrics, valid) none = ((key, metric) ∷ metrics, valid)
  add_if_new key metric (metrics, valid) (some duplicate) = (metrics, false)

  -- the body of the innermost loop of `initialiseMetrics`, with what the map of names has for the key
  unfoldable pub initialise_lookup :
      Text
      → Element
      → Text
      → List (Text × MetricData V) × Bool
      → Option MetricLookup
      → List (Text × MetricData V) × Bool
  unfolding add_if_new
  initialise_lookup class_name e key found none = (found.0, false)
  initialise_lookup class_name e key found (some lookup) =
      let metric : MetricData V = record {
        name = lookup.metric_name;
        help = e.description;
        object_type = false;
        nha_type = is_nha class_name;
        delta = e.is_delta;
        values = [];
      } in
      if not lookup.enabled then found else add_if_new key metric found (find key found.0)

module _ {ℓ} {V : Type ℓ} (names : Text → Option MetricLookup) where
  -- the loop of `initialiseMetrics` over the elements of a type
  unfoldable pub initialise_elements :
      Text
      → Text
      → List Element
      → List (Text × MetricData V) × Bool
      → List (Text × MetricData V) × Bool
  unfolding initialise_lookup
  initialise_elements class_name type_name [] found = found
  initialise_elements class_name type_name (e ∷ es) found =
      initialise_elements class_name type_name es (
        initialise_lookup class_name e (make_key class_name type_name e) found
          (names (make_key class_name type_name e)))

  -- the loop over the types of a class
  unfoldable pub initialise_types :
      Text → List MetricType → List (Text × MetricData V) × Bool → List (Text × MetricData V) × Bool
  unfolding initialise_elements
  initialise_types class_name [] found = found
  initialise_types class_name (t ∷ ts) found = initialise_types class_name ts (
      if is_processed class_name t
      then initialise_elements class_name t.type_name t.elements found
      else found)

  unfoldable pub initialise_classes :
      List MetricClass → List (Text × MetricData V) × Bool → List (Text × MetricData V) × Bool
  unfolding initialise_types
  initialise_classes [] found = found
  initialise_classes (c ∷ cs) found =
      initialise_classes cs (initialise_types c.class_name c.types found)

  -- `initialiseMetrics`: the map, and that there is no error
  unfoldable pub initialise_metrics : List MetricClass → List (Text × MetricData V) × Bool
  unfolding initialise_classes
  initialise_metrics cs = initialise_classes cs ([], true)

module _ {ℓ} {V : Type ℓ} (normalise : Element → Text → ℤ → V) where
  abbrev pub normalised : Element → List (Text × V)
  normalised e = map (λ p. (p.0, normalise e p.0 p.1)) e.published

  -- The loop of `updateMetrics` over the elements of a type: the elements, which are reset, and the map.
  unfoldable pub update_elements :
      Text
      → Text
      → List Element
      → List (Text × MetricData V)
      → List Element × List (Text × MetricData V)
  update_elements class_name type_name [] metrics = ([], metrics)
  update_elements class_name type_name (e ∷ es) metrics =
      let updated = set_values (make_key class_name type_name e) (normalised e) metrics in
      let (es', metrics') = update_elements class_name type_name es updated in
      (record e { published = [] } ∷ es', metrics')

  -- the loop over the types of a class
  unfoldable pub update_types :
      Text
      → List MetricType
      → List (Text × MetricData V)
      → List MetricType × List (Text × MetricData V)
  unfolding update_elements
  update_types class_name [] metrics = ([], metrics)
  update_types class_name (t ∷ ts) metrics =
      let (es, updated) = update_elements class_name t.type_name t.elements metrics in
      let (ts', metrics') =
        update_types class_name ts (if is_processed class_name t then updated else metrics) in
      ((if is_processed class_name t then record t { elements = es } else t) ∷ ts', metrics')

  -- `updateMetrics`
  unfoldable pub update_metrics :
      List MetricClass → List (Text × MetricData V) → List MetricClass × List (Text × MetricData V)
  unfolding update_types
  update_metrics [] metrics = ([], metrics)
  update_metrics (c ∷ cs) metrics =
      let (ts, updated) = update_types c.class_name c.types metrics in
      let (cs', metrics') = update_metrics cs updated in (record c { types = ts } ∷ cs', metrics')
