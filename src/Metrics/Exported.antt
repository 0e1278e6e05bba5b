-- ===== src/Metrics/Exported.antt =====
-- What `Collect` sends for a whole response, whatever the order of its entries.
use mq_container.Base.{
  Bool-cases, ◌≡◌, refl, ◌∙◌, Bool, true, false, not, ◌&&◌, List, [], ◌∷◌, Option, none, some, Text,
  eq_text, eq_text_refl, if◌then◌else◌, arith, inl, inr,
}
use mq_container.Metrics.{MetricData}
use mq_container.Metrics.Exporter.{
  Vec, Exporter, find_vec, set_vec, sample, counter_add, gauge_set, collect_counter, collect_gauge,
  collect_metric,
}
use mq_container.Metrics.Collect.{find_vec-set_vec, applied, values_for, sample-populate}

module _ {ℓ} {V : Type ℓ} where
  -- the vector of a metric, in the map of its kind
  unfoldable pub vec_of : Exporter V → Text → MetricData V → Option (Vec V)
  vec_of e key m = if m.delta then find_vec key e.counter_map else find_vec key e.gauge_map

  unfoldable pub store : Exporter V → Text → MetricData V → Vec V → Exporter V
  store e key m v = record {
    qm_name = e.qm_name;
    gauge_map = if m.delta then e.gauge_map else set_vec key v e.gauge_map;
    counter_map = if m.delta then set_vec key v e.counter_map else e.counter_map;
    first_collect = e.first_collect;
  }

  pub vec_of-store :
      (e : Exporter V) (k : Text) (m : MetricData V) (v : Vec V) (j : Text) (n : MetricData V)
      → vec_of (store e k m v) j n ≡ (
          if eq_text k j && (if m.delta then n.delta else not n.delta)
          then some v
          else vec_of e j n)
  unfolding vec_of store
  vec_of-store e k m v j n =
      ground (arith, find_vec-set_vec k j v e.counter_map, find_vec-set_vec k j v e.gauge_map)

  unfoldable pub absent : Text → List (Text × MetricData V) → Bool
  absent key [] = true
  absent key ((k, m) ∷ response) = not (eq_text key k) && absent key response

  unfoldable pub distinct : List (Text × MetricData V) → Bool
  distinct [] = true
  distinct ((k, m) ∷ response) = absent k response && distinct response

  -- Every metric of the response was described.
  abbrev pub Described : Exporter V → List (Text × MetricData V) → Type ℓ
  Described e [] = Unit
  Described e ((k, m) ∷ response) = ((v : Vec V) × (vec_of e k m ≡ some v)) × Described e response

  pub vec_of-store_other :
      (e : Exporter V) (k : Text) (m : MetricData V) (v : Vec V) (j : Text) (n : MetricData V)
      → eq_text k j ≡ false
      → vec_of (store e k m v) j n ≡ vec_of e j n
  vec_of-store_other e k m v j n h = rw (vec_of-store e k m v j n, h) refl

  pub vec_of-store_same :
      (e : Exporter V) (k : Text) (m : MetricData V) (v : Vec V)
      → vec_of (store e k m v) k m ≡ some v
  vec_of-store_same e k m v = ground (arith, vec_of-store e k m v k m, eq_text_refl k)

  pub Described-store :
      (e : Exporter V) (k : Text) (m : MetricData V) (v : Vec V)
      (response : List (Text × MetricData V))
      → absent k response ≡ true
      → Described e response
      → Described (store e k m v) response
  unfolding absent
  Described-store e k m v [] a d = tt
  Described-store e k m v ((j, n) ∷ response) a ((w, f), d) = (
    (w, vec_of-store_other e k m v j n (ground arith) ∙ f),
    Described-store e k m v response (ground arith) d,
  )

module _ {ℓ} {V : Type ℓ} (qmgr_label nha_label : Text) (zero_value : V) (add : V → V → V) where
  -- What a vector shows after the collection, from what it showed before: a counter adds what was
  -- published to its old value, a gauge starts afresh, and the first collection leaves the values out.
  abbrev pub After : Exporter V → MetricData V → Vec V → Vec V → Type ℓ
  After e m old new =
      (ls : List Text)
      → let shown = if m.delta then sample ls old.samples else none in
        sample ls new.samples ≡ (
          if e.first_collect
          then shown
          else applied (if m.delta then counter_add zero_value add else gauge_set) shown
              (values_for qmgr_label nha_label e.qm_name old.label_names ls m.values))

  unfoldable pub collected : Exporter V → MetricData V → Vec V → Vec V
  collected e m v =
      if m.delta
      then collect_counter qmgr_label nha_label zero_value add e m v
      else collect_gauge qmgr_label nha_label zero_value add e m v

  pub collected-After :
      (e : Exporter V) (m : MetricData V) (v : Vec V) → After e m v (collected e m v)
  unfolding collected collect_counter collect_gauge sample
  collected-After e m v ls =
      let reset : Vec V = record v { samples = [] } in
      elim (Bool-cases m.delta) [
        | inl d ↦ elim (Bool-cases e.first_collect) [
          | inl f ↦ rw (d, f) refl
          | inr f ↦
              rw (d, f)
                (sample-populate qmgr_label nha_label e.qm_name (counter_add zero_value add) ls v
                  m.values)
        ]
        | inr d ↦ elim (Bool-cases e.first_collect) [
          | inl f ↦ rw (d, f) refl
          | inr f ↦
              rw (d, f) (sample-populate qmgr_label nha_label e.qm_name gauge_set ls reset m.values)
        ]
      ]

  pub collect_metric-store :
      (e : Exporter V) (k : Text) (m : MetricData V) (v : Vec V)
      → vec_of e k m ≡ some v
      → collect_metric qmgr_label nha_label zero_value add e k m
        ≡ some (store e k m (collected e m v), collected e m v)
  unfolding collect_metric collected vec_of store
  collect_metric-store e k m v h = ground arith
