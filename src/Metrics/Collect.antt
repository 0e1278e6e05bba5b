-- ===== src/Metrics/Collect.antt =====
-- What `Collect` exports: counters that add up what was published, and gauges that show the last of it.
use mq_container.Base.{
  ◌≡◌, refl, Bool, true, false, ◌&&◌, List, [], ◌∷◌, Option, some, Text, eq_text, eq_text→eq,
  eq_text_refl, length, ◌==◌, if◌then◌else◌, arith,
}
use mq_container.Metrics.Exporter.{
  Vec, eq_labels, find_vec, set_vec, sample, set_sample, label_values, populate_one, populate,
}

pub eq_labels→eq : (s t : List Text) → eq_labels s t ≡ true → s ≡ t
unfolding eq_labels
eq_labels→eq [] [] e = refl
eq_labels→eq [] (t ∷ ts) e = cc
eq_labels→eq (s ∷ ss) [] e = cc
eq_labels→eq (s ∷ ss) (t ∷ ts) e = ground (arith, eq_text→eq s t, eq_labels→eq ss ts)

eq_labels_refl : (s : List Text) → eq_labels s s ≡ true
unfolding eq_labels
eq_labels_refl [] = refl
eq_labels_refl (s ∷ ss) = rw (eq_text_refl s, eq_labels_refl ss)

module _ {ℓ} {V : Type ℓ} where
  pub find_vec-set_vec :
      (j k : Text) (v : Vec V) (vecs : List (Text × Vec V))
      → find_vec k (set_vec j v vecs) ≡ (if eq_text j k then some v else find_vec k vecs)
  unfolding find_vec set_vec
  find_vec-set_vec j k v [] = refl
  find_vec-set_vec j k v ((i, w) ∷ vecs) = ground (
    arith,
    find_vec-set_vec j k v vecs,
    eq_text→eq i j,
    eq_text→eq i k,
    eq_text→eq j k,
    eq_text_refl i,
    eq_text_refl j,
    eq_text_refl k,
  )

  sample-set_sample :
      (upd : Option V → V → V) (ls ms : List Text) (v : V) (samples : List (List Text × V))
      → sample ls (set_sample upd ms v samples)
        ≡ (if eq_labels ms ls then some (upd (sample ms samples) v) else sample ls samples)
  unfolding sample set_sample
  sample-set_sample upd ls ms v [] = refl
  sample-set_sample upd ls ms v ((l, w) ∷ samples) = ground (
    arith,
    sample-set_sample upd ls ms v samples,
    eq_labels→eq l ms,
    eq_labels→eq l ls,
    eq_labels→eq ms ls,
    eq_labels_refl l,
    eq_labels_refl ms,
    eq_labels_refl ls,
  )

  -- the values applied in turn
  abbrev pub applied : (Option V → V → V) → Option V → List V → Option V
  applied upd o [] = o
  applied upd o (v ∷ vs) = applied upd (some (upd o v)) vs

  applied-if :
      (upd : Option V → V → V) (b : Bool) (o : Option V) (v : V) (vs : List V)
      → applied upd (if b then some (upd o v) else o) vs ≡ applied upd o (if b then v ∷ vs else vs)
  applied-if upd true o v vs = refl
  applied-if upd false o v vs = refl

module _ {ℓ} {V : Type ℓ} (qmgr_label nha_label qm_name : Text) where
  -- The values that are published for some label values of a vector, in order.
  abbrev pub values_for : List Text → List Text → List (Text × V) → List V
  values_for label_names ls [] = []
  values_for label_names ls ((label, v) ∷ values) =
      let rest = values_for label_names ls values in
      let ms = label_values qmgr_label nha_label qm_name label in
      if (length ms == length label_names) && eq_labels ms ls then v ∷ rest else rest

  label_names-populate_one :
      (upd : Option V → V → V) (vec : Vec V) (value : Text × V)
      → (populate_one qmgr_label nha_label upd qm_name vec value).label_names ≡ vec.label_names
  unfolding populate_one
  label_names-populate_one upd vec (label, v) = ground arith

  sample-populate_one :
      (upd : Option V → V → V) (ls : List Text) (vec : Vec V) (label : Text) (v : V)
      → let ms = label_values qmgr_label nha_label qm_name label in
        sample ls (populate_one qmgr_label nha_label upd qm_name vec (label, v)).samples ≡ (
          if (length ms == length vec.label_names) && eq_labels ms ls
          then some (upd (sample ls vec.samples) v)
          else sample ls vec.samples)
  unfolding populate_one
  sample-populate_one upd ls vec label v =
      let ms = label_values qmgr_label nha_label qm_name label in
      ground (arith, sample-set_sample upd ls ms v vec.samples, eq_labels→eq ms ls)

  pub sample-populate :
      (upd : Option V → V → V) (ls : List Text) (vec : Vec V) (values : List (Text × V))
      → sample ls (populate qmgr_label nha_label upd qm_name vec values).samples
        ≡ applied upd (sample ls vec.samples) (values_for vec.label_names ls values)
  unfolding populate
  sample-populate upd ls vec [] = refl
  sample-populate upd ls vec ((label, v) ∷ values) =
      let one = populate_one qmgr_label nha_label upd qm_name vec (label, v) in
      let ms = label_values qmgr_label nha_label qm_name label in
      rw
        (
          sample-populate upd ls one values,
          label_names-populate_one upd vec (label, v),
          sample-populate_one upd ls vec label v,
        )
        (applied-if upd ((length ms == length vec.label_names) && eq_labels ms ls)
          (sample ls vec.samples) v (values_for vec.label_names ls values))
