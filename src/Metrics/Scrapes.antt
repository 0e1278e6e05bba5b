-- ===== src/Metrics/Scrapes.antt =====
-- The exporter with the map it is sent: `Describe` once, then `Collect` after each update of the map.
use mq_container.Base.{
  ◌≡◌, refl, sym, subst, ap, ◌∙◌, true, List, [], ◌∷◌, Option, none, some, Text, eq_text, if-elim,
  arith, suc, length,
}
use mq_container.Base.Decimal.{ℤ}
use mq_container.Metrics.{
  Element, MetricClass, MetricLookup, MetricData, find, set_values, normalised, update_metrics,
  initialise_metrics,
}
use mq_container.Metrics.Update.{cells, set_cells, update_metrics-cells}
use mq_container.Metrics.Initialise.{IsInitial, initialise_metrics-IsInitial}
use mq_container.Metrics.Exporter.{Vec, Exporter, new_exporter, describe, collect}
use mq_container.Metrics.Exported.{vec_of, absent, distinct, Described}
use mq_container.Metrics.Describe.{describe-Described}
use mq_container.Metrics.Response.{Each, ends, also, eq_text-swap, KeptAs, collect_lem}

module _ {ℓ} {V : Type ℓ} where
  absent-set_values :
      (j key : Text) (values : List (Text × V)) (metrics : List (Text × MetricData V))
      → absent j (set_values key values metrics) ≡ absent j metrics
  unfolding absent set_values
  absent-set_values j key values [] = refl
  absent-set_values j key values ((k, m) ∷ metrics) =
      ground (arith, absent-set_values j key values metrics)

  pub distinct-set_values :
      (key : Text) (values : List (Text × V)) (metrics : List (Text × MetricData V))
      → distinct (set_values key values metrics) ≡ distinct metrics
  unfolding distinct set_values
  distinct-set_values key values [] = refl
  distinct-set_values key values ((k, m) ∷ metrics) =
      ground (arith, distinct-set_values key values metrics, absent-set_values k key values metrics)

  Described-set_values :
      (e : Exporter V) (key : Text) (values : List (Text × V))
      (metrics : List (Text × MetricData V))
      → Described e metrics
      → Described e (set_values key values metrics)
  unfolding set_values vec_of
  Described-set_values e key values [] d = d
  Described-set_values e key values ((k, m) ∷ metrics) (f, d) =
      if-elim (λ ms. Described e ms) (eq_text k key) (λ _. (f, d))
        (λ _. (f, Described-set_values e key values metrics d))

  -- An exporter can collect from a map that has no key twice and only described metrics.
  abbrev CanCollect : Exporter V → List (Text × MetricData V) → Type ℓ
  CanCollect e metrics = (distinct metrics ≡ true) × Described e metrics

  CanCollect-set_cells :
      (normalise : Element → Text → ℤ → V) (e : Exporter V) (cs : List (Text × Element))
      (metrics : List (Text × MetricData V))
      → CanCollect e metrics
      → CanCollect e (set_cells normalise cs metrics)
  CanCollect-set_cells normalise e [] metrics h = h
  CanCollect-set_cells normalise e ((key, x) ∷ cs) metrics (u, d) =
      CanCollect-set_cells normalise e cs (set_values key (normalised normalise x) metrics) (
        distinct-set_values key (normalised normalise x) metrics ∙ u,
        Described-set_values e key (normalised normalise x) metrics d,
      )

  CanCollect-update_metrics :
      (normalise : Element → Text → ℤ → V) (e : Exporter V) (classes : List MetricClass)
      (metrics : List (Text × MetricData V))
      → CanCollect e metrics
      → CanCollect e (update_metrics normalise classes metrics).1
  CanCollect-update_metrics normalise e classes metrics h =
      subst (λ ms. CanCollect e ms) (sym (update_metrics-cells normalise classes metrics))
        (CanCollect-set_cells normalise e (cells classes) metrics h)

  find-absent :
      (key : Text) (metrics : List (Text × MetricData V))
      → find key metrics ≡ none
      → absent key metrics ≡ true
  unfolding find absent
  find-absent key [] h = refl
  find-absent key ((k, m) ∷ metrics) h = ground (arith, find-absent key metrics, eq_text-swap k key)

  pub IsInitial-distinct :
      (names : Text → Option MetricLookup) (metrics : List (Text × MetricData V))
      → IsInitial names metrics
      → distinct metrics ≡ true
  unfolding distinct
  IsInitial-distinct names [] h = refl
  IsInitial-distinct names ((k, m) ∷ metrics) (l, v, f, h) =
      rw (find-absent k metrics f, IsInitial-distinct names metrics h) refl

  Described-kept :
      (e : Exporter V) (metrics : List (Text × MetricData V)) (vecs : List (Vec V))
      → Each (KeptAs e) metrics vecs
      → Described e metrics
  Described-kept e [] [] ends = tt
  Described-kept e [] (v ∷ vecs) s = elim s [ ]
  Described-kept e ((k, m) ∷ metrics) [] s = elim s [ ]
  Described-kept e ((k, m) ∷ metrics) (v ∷ vecs) (also _ _ _ _ _ f s) =
      ((v, f), Described-kept e metrics vecs s)

module _ {ℓ} {V : Type ℓ} (qmgr_label nha_label : Text) (zero_value : V) (add : V → V → V)
    (normalise : Element → Text → ℤ → V) where
  -- Collections one after the other, each after an update from what was published by then: what is
  -- sent for each, or `none` where the vector of a metric is nil.
  unfoldable pub scrapes :
      Exporter V
      → List (Text × MetricData V)
      → List (List MetricClass)
      → Option (List (List (Vec V)))
  unfolding collect update_metrics
  scrapes e metrics [] = some []
  scrapes e metrics (classes ∷ later) =
      let metrics' = (update_metrics normalise classes metrics).1 in
      elim (collect qmgr_label nha_label zero_value add e metrics') [
        | none ↦ none
        | some (e', vecs) ↦ elim (scrapes e' metrics' later) [
          | none ↦ none
          | some sent ↦ some (vecs ∷ sent)
        ]
      ]

  scrapes-CanCollect :
      (e : Exporter V) (metrics : List (Text × MetricData V)) (published : List (List MetricClass))
      → CanCollect e metrics
      → (sent : List (List (Vec V))) × (scrapes e metrics published ≡ some sent)
        × (length sent ≡ length published)
  unfolding scrapes vec_of
  scrapes-CanCollect e metrics [] h = ([], refl, refl)
  scrapes-CanCollect e metrics (classes ∷ later) h =
      let metrics' = (update_metrics normalise classes metrics).1 in
      let (u, d) = CanCollect-update_metrics normalise e classes metrics h in
      let (e', vecs, run, _, kept, _, _) =
        collect_lem qmgr_label nha_label zero_value add e metrics' u d in
      let (sent, runs, n) =
        scrapes-CanCollect e' metrics' later (u, Described-kept e' metrics' vecs kept) in
      (vecs ∷ sent, rw (scrapes, run, runs) refl, ap suc n)

  -- Whatever is discovered, and whatever is published between the collections, an exporter that was
  -- described with the initial map finds the vector of every metric: each collection from that map,
  -- updated, gives what it sends.
  pub scrapes-Succeed :
      (names : Text → Option MetricLookup) (discovered : List MetricClass) (qm_name : Text)
      (published : List (List MetricClass))
      → let metrics = (initialise_metrics names discovered).0 in
        (sent : List (List (Vec V))) × (scrapes
            (describe (new_exporter qm_name) metrics)
            metrics
            published
          ≡ some sent)
        × (length sent ≡ length published)
  scrapes-Succeed names discovered qm_name published =
      let metrics = (initialise_metrics names discovered).0 in
      scrapes-CanCollect (describe (new_exporter qm_name) metrics) metrics published (
        IsInitial-distinct names metrics (initialise_metrics-IsInitial V names discovered),
        describe-Described (new_exporter qm_name) metrics,
      )
