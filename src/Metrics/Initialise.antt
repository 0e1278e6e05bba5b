-- ===== src/Metrics/Initialise.antt =====
-- What is in the map of the metrics at first.
use mq_container.Base.{
  ◌≡◌, refl, Bool, not, true, List, [], ◌∷◌, Option, none, some, Text, if-elim, arith,
}
use mq_container.Metrics.{
  Element, MetricType, MetricClass, MetricLookup, MetricData, make_key, is_processed, find,
  add_if_new, initialise_lookup, initialise_elements, initialise_types, initialise_classes,
  initialise_metrics,
}

module _ {ℓ} {V : Type ℓ} (names : Text → Option MetricLookup) where
  -- Each key has an enabled entry in the map of names, whose name the metric has; it has no values; and
  -- the key is not there again.
  abbrev pub IsInitial : List (Text × MetricData V) → Type ℓ
  IsInitial [] = Unit
  IsInitial ((key, d) ∷ metrics) =
      ((lookup : MetricLookup) × (names key ≡ some lookup)
        × (lookup.enabled ≡ true)
        × (d.name ≡ lookup.metric_name))
      × (d.values ≡ [])
      × (find key metrics ≡ none)
      × IsInitial metrics

  add_if_new-IsInitial :
      (key : Text) (d : MetricData V) (found : List (Text × MetricData V) × Bool)
      (o : Option (MetricData V))
      → find key found.0 ≡ o
      → ((lookup : MetricLookup) × (names key ≡ some lookup)
          × (lookup.enabled ≡ true)
          × (d.name ≡ lookup.metric_name))
      → d.values ≡ []
      → IsInitial found.0
      → IsInitial (add_if_new key d found o).0
  unfolding add_if_new
  add_if_new-IsInitial key d found none e l v h = (l, v, e, h)
  add_if_new-IsInitial key d found (some duplicate) e l v h = h

  lookup-IsInitial :
      (c : Text) (e : Element) (key : Text) (found : List (Text × MetricData V) × Bool)
      (l : Option MetricLookup)
      → names key ≡ l
      → IsInitial found.0
      → IsInitial (initialise_lookup c e key found l).0
  unfolding initialise_lookup
  lookup-IsInitial c e key found none eq h = h
  lookup-IsInitial c e key found (some lookup) eq h =
      if-elim (λ (f : List (Text × MetricData V) × Bool). IsInitial f.0) (not lookup.enabled)
        (λ off. h)
        (λ on.
          add_if_new-IsInitial key _ found (find key found.0) refl (lookup, eq, ground arith, refl)
            refl h)

  initialise_elements-IsInitial :
      (c t : Text) (es : List Element) (found : List (Text × MetricData V) × Bool)
      → IsInitial found.0
      → IsInitial (initialise_elements names c t es found).0
  unfolding initialise_elements
  initialise_elements-IsInitial c t [] found h = h
  initialise_elements-IsInitial c t (e ∷ es) found h =
      initialise_elements-IsInitial c t es _
        (lookup-IsInitial c e (make_key c t e) found (names (make_key c t e)) refl h)

  initialise_types-IsInitial :
      (c : Text) (ts : List MetricType) (found : List (Text × MetricData V) × Bool)
      → IsInitial found.0
      → IsInitial (initialise_types names c ts found).0
  unfolding initialise_types
  initialise_types-IsInitial c [] found h = h
  initialise_types-IsInitial c (t ∷ ts) found h = initialise_types-IsInitial c ts _ (
      if-elim (λ (f : List (Text × MetricData V) × Bool). IsInitial f.0) (is_processed c t)
        (λ e. initialise_elements-IsInitial c t.type_name t.elements found h) (λ e. h))

  initialise_classes-IsInitial :
      (cs : List MetricClass) (found : List (Text × MetricData V) × Bool)
      → IsInitial found.0
      → IsInitial (initialise_classes names cs found).0
  unfolding initialise_classes
  initialise_classes-IsInitial [] found h = h
  initialise_classes-IsInitial (c ∷ cs) found h =
      initialise_classes-IsInitial cs _ (initialise_types-IsInitial c.class_name c.types found h)

module _ {ℓ} (V : Type ℓ) (names : Text → Option MetricLookup) where
  -- Whatever classes there are, the map has no key twice, and only metrics that the map of names has and
  -- enables, under the name that it gives, without values.
  pub initialise_metrics-IsInitial :
      (cs : List MetricClass) → IsInitial {V = V} names (initialise_metrics names cs).0
  unfolding initialise_metrics
  initialise_metrics-IsInitial cs = initialise_classes-IsInitial names cs ([], true) tt
