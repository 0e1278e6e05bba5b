-- ===== src/Metrics/Exporter.antt =====
-- internal/metrics/exporter.go: the exporter that Prometheus describes and collects. A vector is the
-- list of its samples by label values, as client_golang keeps it; what the exporter is sent by
-- processMetrics is an argument. The two marks of labels are those of mqmetric.
use mq_container.Base.{
  ℕ, ◌-◌, Bool, true, false, not, ◌&&◌, ◌||◌, List, [], ◌∷◌, ◌++◌, Option, none, some, Text, codes,
  eq_text, has_prefix, length, ltb, ◌==◌, if◌then◌else◌,
}
use mq_container.Metrics.{MetricData}

pub record Vec {ℓ} (V : Type ℓ) : Type ℓ where
  pub vec_name : Text
  pub label_names : List Text
  pub samples : List (List Text × V)

-- `exporter`
pub record Exporter {ℓ} (V : Type ℓ) : Type ℓ where
  pub qm_name : Text
  pub gauge_map : List (Text × Vec V)
  pub counter_map : List (Text × Vec V)
  pub first_collect : Bool

-- `newExporter`
abbrev pub new_exporter {ℓ} : {V : Type ℓ} → Text → Exporter V
new_exporter qm_name = record {
  qm_name = qm_name;
  gauge_map = [];
  counter_map = [];
  first_collect = true;
}

-- `getVecDetails`
unfoldable pub get_vec_details : Bool → Bool → Text × List Text
get_vec_details true nha_type = (codes "object", codes "object" ∷ codes "qmgr" ∷ [])
get_vec_details false true = (codes "nha", codes "instance" ∷ codes "qmgr" ∷ [])
get_vec_details false false = (codes "qmgr", codes "qmgr" ∷ [])

-- `strings.ReplaceAll(s, sub, "")`, with `skip` characters still to leave out
unfoldable pub remove_all : Text → ℕ → Text → Text
remove_all sub skip [] = []
remove_all sub skip (c ∷ s) =
    let found = skip == 0 && not (eq_text sub []) && has_prefix (c ∷ s) sub in
    let rest = remove_all sub (if found then length sub - 1 else skip - 1) s in
    if found || ltb 0 skip then rest else c ∷ rest

unfoldable pub eq_labels : List Text → List Text → Bool
eq_labels [] [] = true
eq_labels (s ∷ ss) (t ∷ ts) = eq_text s t && eq_labels ss ts
eq_labels _ _ = false

module _ {ℓ} {V : Type ℓ} where
  -- `createCounterVec`, `createGaugeVec`: a vector without samples, with its name
  unfoldable pub create_vec : MetricData V → Vec V
  unfolding get_vec_details
  create_vec m =
      let (prefix, labels) = get_vec_details m.object_type m.nha_type in
      record {
        vec_name = codes "ibmmq_" ++ prefix ++ b'_' ∷ [] ++ m.name;
        label_names = labels;
        samples = [];
      }

  unfoldable pub find_vec : Text → List (Text × Vec V) → Option (Vec V)
  find_vec key [] = none
  find_vec key ((k, v) ∷ vecs) =
      let rest = find_vec key vecs in if eq_text k key then some v else rest

  unfoldable pub set_vec : Text → Vec V → List (Text × Vec V) → List (Text × Vec V)
  set_vec key v [] = (key, v) ∷ []
  set_vec key v ((k, w) ∷ vecs) =
      let rest = set_vec key v vecs in if eq_text k key then (k, v) ∷ vecs else (k, w) ∷ rest

  -- `Describe`
  unfoldable pub describe : Exporter V → List (Text × MetricData V) → Exporter V
  unfolding create_vec set_vec
  describe e [] = e
  describe e ((key, m) ∷ response) =
      describe
        (if m.delta
          then record e { counter_map = set_vec key (create_vec m) e.counter_map }
          else record e { gauge_map = set_vec key (create_vec m) e.gauge_map })
        response

  unfoldable pub sample : List Text → List (List Text × V) → Option V
  sample labels [] = none
  sample labels ((l, v) ∷ samples) =
      let rest = sample labels samples in if eq_labels l labels then some v else rest

  unfoldable pub set_sample :
      (Option V → V → V) → List Text → V → List (List Text × V) → List (List Text × V)
  set_sample upd labels v [] = (labels, upd none v) ∷ []
  set_sample upd labels v ((l, w) ∷ samples) =
      let rest = set_sample upd labels v samples in
      if eq_labels l labels then (l, upd (some w) v) ∷ samples else (l, w) ∷ rest

-- `counter.Add`, where a new counter is zero, and `gauge.Set`
abbrev pub counter_add {ℓ} : {V : Type ℓ} → V → (V → V → V) → Option V → V → V
counter_add zero_value add none v = add zero_value v
counter_add zero_value add (some w) v = add w v

abbrev pub gauge_set {ℓ} : {V : Type ℓ} → Option V → V → V
gauge_set o v = v

module _ (qmgr_label nha_label : Text) where
  -- the label values that `Collect` gives to a value
  unfoldable pub label_values : Text → Text → List Text
  unfolding remove_all
  label_values qm_name label =
      if eq_text label qmgr_label
      then qm_name ∷ []
      else if has_prefix label nha_label
      then remove_all nha_label 0 label ∷ qm_name ∷ []
      else label ∷ qm_name ∷ []

module _ {ℓ} {V : Type ℓ} (qmgr_label nha_label : Text) where
  -- `GetMetricWithLabelValues` with what is done to its metric; another number of labels than that
  -- of the vector is an error, and the value is passed over.
  unfoldable pub populate_one : (Option V → V → V) → Text → Vec V → Text × V → Vec V
  unfolding label_values set_sample
  populate_one upd qm_name vec (label, v) =
      let labels = label_values qmgr_label nha_label qm_name label in
      if length labels == length vec.label_names
      then record vec { samples = set_sample upd labels v vec.samples }
      else vec

  unfoldable pub populate : (Option V → V → V) → Text → Vec V → List (Text × V) → Vec V
  unfolding populate_one
  populate upd qm_name vec [] = vec
  populate upd qm_name vec (value ∷ values) =
      populate upd qm_name (populate_one upd qm_name vec value) values

module _ {ℓ} {V : Type ℓ} (qmgr_label nha_label : Text) (zero_value : V) (add : V → V → V) where
  unfoldable pub collect_counter : Exporter V → MetricData V → Vec V → Vec V
  unfolding populate
  collect_counter e m vec =
      if e.first_collect
      then vec
      else populate qmgr_label nha_label (counter_add zero_value add) e.qm_name vec m.values

  unfoldable pub collect_gauge : Exporter V → MetricData V → Vec V → Vec V
  unfolding populate
  collect_gauge e m vec =
      let reset : Vec V = record vec { samples = [] } in
      if e.first_collect
      then reset
      else populate qmgr_label nha_label gauge_set e.qm_name reset m.values

  -- The body of the loop of `Collect`; a key that was not described has a nil vector, at which the
  -- code panics: `none`. What is sent is the vector.
  unfoldable pub collect_metric : Exporter V → Text → MetricData V → Option (Exporter V × Vec V)
  unfolding collect_counter collect_gauge find_vec set_vec
  collect_metric e key m =
      if m.delta
      then elim (find_vec key e.counter_map) [
        | none ↦ none
        | some vec ↦
            let vec' = collect_counter e m vec in
            some (record e { counter_map = set_vec key vec' e.counter_map }, vec')
      ]
      else elim (find_vec key e.gauge_map) [
        | none ↦ none
        | some vec ↦
            let vec' = collect_gauge e m vec in
            some (record e { gauge_map = set_vec key vec' e.gauge_map }, vec')
      ]

  unfoldable pub collect_all :
      Exporter V → List (Text × MetricData V) → Option (Exporter V × List (Vec V))
  unfolding collect_metric
  collect_all e [] = some (e, [])
  collect_all e ((key, m) ∷ response) = elim (collect_metric e key m) [
    | none ↦ none
    | some (e', vec) ↦ elim (collect_all e' response) [
      | none ↦ none
      | some (e'', vecs) ↦ some (e'', vec ∷ vecs)
    ]
  ]

  -- `Collect`: the exporter afterwards, and the vectors that are sent
  unfoldable pub collect :
      Exporter V → List (Text × MetricData V) → Option (Exporter V × List (Vec V))
  unfolding collect_all
  collect e response = elim (collect_all e response) [
    | none ↦ none
    | some (e', vecs) ↦ some (record e' { first_collect = false }, vecs)
  ]
