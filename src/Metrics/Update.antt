-- ===== src/Metrics/Update.antt =====
-- What an update makes of the map, and that it takes what was published.
use mq_container.Base.{
  ◌||◌, not, contains, codes, ◌≡◌, refl, sym, ap, ◌∙◌, Bool, true, false, List, [], ◌∷◌, ◌++◌, map,
  Option, none, some, Text, eq_text, eq_text→eq, eq_text_refl, if◌then◌else◌, All, Bool-cases, inl,
  inr, arith,
}
use mq_container.Base.Decimal.{ℤ}
use mq_container.Metrics.{
  Element, MetricType, MetricClass, MetricData, make_key, is_nha, is_processed, find, set_values,
  normalised, update_elements, update_types, update_metrics,
}

-- The elements that the loops come to, each with its key, in that order.
abbrev pub element_cells : Text → Text → List Element → List (Text × Element)
element_cells class_name type_name [] = []
element_cells class_name type_name (e ∷ es) =
    (make_key class_name type_name e, e) ∷ element_cells class_name type_name es

abbrev pub type_cells : Text → List MetricType → List (Text × Element)
type_cells class_name [] = []
type_cells class_name (t ∷ ts) =
    (if is_processed class_name t then element_cells class_name t.type_name t.elements else [])
    ++ type_cells class_name ts

abbrev pub cells : List MetricClass → List (Text × Element)
cells [] = []
cells (c ∷ cs) = type_cells c.class_name c.types ++ cells cs

-- A key that is another one's is not a third one's.
apart : (a b c : Text) → eq_text a b ≡ false → eq_text a c ≡ true → eq_text b c ≡ false
apart a b c e f = elim (Bool-cases (eq_text b c)) [
  | inl g ↦
      let same = eq_text→eq a c f ∙ sym (eq_text→eq b c g) in
      let equal = ap (λ t. eq_text t b) same ∙ eq_text_refl b in ground arith
  | inr g ↦ g
]

module _ {ℓ} {V : Type ℓ} where
  -- a metric with other values, if there is one
  abbrev pub with_values : List (Text × V) → Option (MetricData V) → Option (MetricData V)
  with_values values none = none
  with_values values (some d) = some (record d { values = values })

  with_values_twice :
      (values others : List (Text × V)) (b : Bool) (o : Option (MetricData V))
      → with_values values (if b then with_values others o else o) ≡ with_values values o
  with_values_twice values others true none = refl
  with_values_twice values others true (some d) = refl
  with_values_twice values others false o = refl

  find-set_values :
      (k key : Text) (values : List (Text × V)) (metrics : List (Text × MetricData V))
      → find k (set_values key values metrics)
        ≡ (if eq_text key k then with_values values (find k metrics) else find k metrics)
  unfolding find set_values
  find-set_values k key values [] = elim (Bool-cases (eq_text key k)) [
    | inl e ↦ rw e refl
    | inr e ↦ rw e refl
  ]
  find-set_values k key values ((k', d) ∷ metrics) =
      let rest = find-set_values k key values metrics in
      elim (Bool-cases (eq_text k' key)) [
        | inl e ↦
            let same = ap (λ t. eq_text t k) (eq_text→eq k' key e) in
            elim (Bool-cases (eq_text key k)) [
              | inl f ↦ rw (e, f, same ∙ f) refl
              | inr f ↦ rw (e, f, same ∙ f) refl
            ]
        | inr e ↦ elim (Bool-cases (eq_text k' k)) [
          | inl f ↦ rw (e, f, apart k' key k e f) refl
          | inr f ↦ rw (e, f) rest
        ]
      ]

module _ {ℓ} {V : Type ℓ} (normalise : Element → Text → ℤ → V) where
  -- each element's values are set under its key, one after the other
  abbrev pub set_cells :
      List (Text × Element) → List (Text × MetricData V) → List (Text × MetricData V)
  set_cells [] metrics = metrics
  set_cells ((key, e) ∷ rest) metrics =
      set_cells rest (set_values key (normalised normalise e) metrics)

  set_cells-append :
      (xs ys : List (Text × Element)) (metrics : List (Text × MetricData V))
      → set_cells (xs ++ ys) metrics ≡ set_cells ys (set_cells xs metrics)
  set_cells-append [] ys metrics = refl
  set_cells-append ((k, e) ∷ xs) ys metrics = set_cells-append xs ys _

  update_elements-cells :
      (c t : Text) (es : List Element) (metrics : List (Text × MetricData V))
      → (update_elements normalise c t es metrics).1 ≡ set_cells (element_cells c t es) metrics
  unfolding update_elements
  update_elements-cells c t [] metrics = refl
  update_elements-cells c t (e ∷ es) metrics = update_elements-cells c t es _

  update_types-cells :
      (c : Text) (ts : List MetricType) (metrics : List (Text × MetricData V))
      → (update_types normalise c ts metrics).1 ≡ set_cells (type_cells c ts) metrics
  unfolding update_types
  update_types-cells c [] metrics = refl
  update_types-cells c (t ∷ ts) metrics = elim (Bool-cases (is_processed c t)) [
    | inl e ↦ rw e (
        update_types-cells c ts _
        ∙ ap (λ m. set_cells (type_cells c ts) m)
            (update_elements-cells c t.type_name t.elements metrics)
        ∙ sym (set_cells-append (element_cells c t.type_name t.elements) (type_cells c ts) metrics))
    | inr e ↦ rw e (update_types-cells c ts metrics)
  ]

  pub update_metrics-cells :
      (cs : List MetricClass) (metrics : List (Text × MetricData V))
      → (update_metrics normalise cs metrics).1 ≡ set_cells (cells cs) metrics
  unfolding update_metrics
  update_metrics-cells [] metrics = refl
  update_metrics-cells (c ∷ cs) metrics =
      update_metrics-cells cs _
      ∙ ap (λ m. set_cells (cells cs) m) (update_types-cells c.class_name c.types metrics)
      ∙ sym (set_cells-append (type_cells c.class_name c.types) (cells cs) metrics)

  find-other_cells :
      (k : Text) (rest : List (Text × Element)) (metrics : List (Text × MetricData V))
      → All (λ c. eq_text c.0 k ≡ false) rest
      → find k (set_cells rest metrics) ≡ find k metrics
  find-other_cells k [] metrics h = refl
  find-other_cells k ((key, e) ∷ rest) metrics h =
      find-other_cells k rest _ h.1
      ∙ find-set_values k key (normalised normalise e) metrics
      ∙ ap
          (λ b. if b then with_values (normalised normalise e) (find k metrics) else find k metrics)
          h.0

  find-before_cells :
      (k : Text) (xs : List (Text × Element)) (values : List (Text × V))
      (metrics : List (Text × MetricData V))
      → with_values values (find k (set_cells xs metrics)) ≡ with_values values (find k metrics)
  find-before_cells k [] values metrics = refl
  find-before_cells k ((key, e) ∷ xs) values metrics =
      find-before_cells k xs values _
      ∙ ap (λ o. with_values values o) (find-set_values k key (normalised normalise e) metrics)
      ∙ with_values_twice values (normalised normalise e) (eq_text key k) (find k metrics)

  -- An update gives a metric the normalised values of the last of the processed elements that have its
  -- key, and changes nothing else of it.
  pub update_metrics-find :
      (cs : List MetricClass) (metrics : List (Text × MetricData V))
      (before after : List (Text × Element)) (k : Text) (e : Element)
      → cells cs ≡ before ++ (k, e) ∷ after
      → All (λ c. eq_text c.0 k ≡ false) after
      → find k (update_metrics normalise cs metrics).1
        ≡ with_values (normalised normalise e) (find k metrics)
  update_metrics-find cs metrics before after k e eq h =
      let found = find-set_values k k (normalised normalise e) (set_cells before metrics) in
      ap (λ m. find k m) (update_metrics-cells cs metrics)
      ∙ ap (λ x. find k (set_cells x metrics)) eq
      ∙ ap (λ m. find k m) (set_cells-append before ((k, e) ∷ after) metrics)
      ∙ find-other_cells k after _ h
      ∙ found
      ∙ ap
          (λ b.
            if b
            then with_values (normalised normalise e) (find k (set_cells before metrics))
            else find k (set_cells before metrics))
          (eq_text_refl k)
      ∙ find-before_cells k before (normalised normalise e) metrics

abbrev pub taken : Text × Element → Text × Element
taken c = (c.0, record c.1 { published = [] })

append-taken :
    (a b x y : List (Text × Element))
    → a ≡ map taken x
    → b ≡ map taken y
    → a ++ b ≡ map taken (x ++ y)
append-taken a b x y e f = ap (λ z. z ++ b) e ∙ ap (λ z. map taken x ++ z) f ∙ sym (apart_taken x)
  where
    apart_taken : (x : List (Text × Element)) → map taken (x ++ y) ≡ map taken x ++ map taken y
    apart_taken [] = refl
    apart_taken (c ∷ x) = ap (λ z. taken c ∷ z) (apart_taken x)

module _ {ℓ} {V : Type ℓ} (normalise : Element → Text → ℤ → V) where
  element_cells-taken :
      (c t : Text) (es : List Element) (metrics : List (Text × MetricData V))
      → element_cells c t (update_elements normalise c t es metrics).0
        ≡ map taken (element_cells c t es)
  unfolding update_elements make_key
  element_cells-taken c t [] metrics = refl
  element_cells-taken c t (e ∷ es) metrics =
      ap (λ x. taken (make_key c t e, e) ∷ x) (element_cells-taken c t es _)

  type_cells-taken :
      (c : Text) (ts : List MetricType) (metrics : List (Text × MetricData V))
      → type_cells c (update_types normalise c ts metrics).0 ≡ map taken (type_cells c ts)
  unfolding update_types is_processed
  type_cells-taken c [] metrics = refl
  type_cells-taken c (t ∷ ts) metrics = elim (Bool-cases (is_processed c t)) [
    | inl e ↦
        let again : (is_nha c || not (contains t.object_topic (codes "%s"))) ≡ true = e in
        rw (e, again)
          (append-taken _ _ (element_cells c t.type_name t.elements) (type_cells c ts)
            (element_cells-taken c t.type_name t.elements metrics) (type_cells-taken c ts _))
    | inr e ↦
        let again : (is_nha c || not (contains t.object_topic (codes "%s"))) ≡ false = e in
        rw (e, again) (type_cells-taken c ts metrics)
  ]

  -- An update takes what was published: the same elements have nothing published afterwards.
  pub update_metrics-taken :
      (cs : List MetricClass) (metrics : List (Text × MetricData V))
      → cells (update_metrics normalise cs metrics).0 ≡ map taken (cells cs)
  unfolding update_metrics
  update_metrics-taken [] metrics = refl
  update_metrics-taken (c ∷ cs) metrics =
      append-taken _ _ (type_cells c.class_name c.types) (cells cs)
        (type_cells-taken c.class_name c.types metrics) (update_metrics-taken cs _)
