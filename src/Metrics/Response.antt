-- ===== src/Metrics/Response.antt =====
-- `Collect` of a response whose metrics were all described, in whatever order the map gives them.
use mq_container.Base.{
  ◌≡◌, refl, sym, ◌∙◌, true, false, List, [], ◌∷◌, some, Text, eq_text, eq_text→eq, eq_text_refl,
  arith,
}
use mq_container.Metrics.{MetricData}
use mq_container.Metrics.Exporter.{Vec, Exporter, collect_all, collect}
use mq_container.Metrics.Exported.{
  vec_of, store, absent, distinct, Described, vec_of-store_other, vec_of-store_same,
  Described-store, After, collected, collected-After, collect_metric-store,
}

pub eq_text-swap : (s t : Text) → eq_text s t ≡ false → eq_text t s ≡ false
eq_text-swap s t h = ground (arith, eq_text→eq t s, eq_text_refl s)

-- A relation holds of each metric of a response and its vector.
pub data Each {ℓ} {V : Type ℓ} (P : Text → MetricData V → Vec V → Type ℓ)
    : List (Text × MetricData V) → List (Vec V) → Type ℓ where
  ends : Each P [] []
  also :
      (k : Text) (m : MetricData V) (v : Vec V) (response : List (Text × MetricData V))
      (vecs : List (Vec V))
      → P k m v
      → Each P response vecs
      → Each P ((k, m) ∷ response) (v ∷ vecs)

module _ {ℓ} {V : Type ℓ} where
  -- The vector that was sent is kept for the next collection.
  abbrev pub KeptAs : Exporter V → Text → MetricData V → Vec V → Type ℓ
  KeptAs e k m v = vec_of e k m ≡ some v

module _ {ℓ} {V : Type ℓ} (qmgr_label nha_label : Text) (zero_value : V) (add : V → V → V) where
  -- The vector that is sent is that of its metric after the collection.
  abbrev pub SentAs : Exporter V → Text → MetricData V → Vec V → Type ℓ
  SentAs e k m v =
      (old : Vec V) × (vec_of e k m ≡ some old)
      × After qmgr_label nha_label zero_value add e m old v

  record Run (e : Exporter V) (response : List (Text × MetricData V)) (e' : Exporter V)
      (vecs : List (Vec V)) : Type ℓ where
    run : collect_all qmgr_label nha_label zero_value add e response ≡ some (e', vecs)
    sent : Each (SentAs e) response vecs
    kept : Each (KeptAs e') response vecs
    same_name : e'.qm_name ≡ e.qm_name
    others : (j : Text) (n : MetricData V) → absent j response ≡ true → vec_of e' j n ≡ vec_of e j n

  Each-store :
      (e : Exporter V) (k : Text) (m : MetricData V) (v : Vec V)
      (response : List (Text × MetricData V)) (vecs : List (Vec V))
      → absent k response ≡ true
      → Each (SentAs (store e k m v)) response vecs
      → Each (SentAs e) response vecs
  unfolding store absent
  Each-store e k m v [] [] a ends = ends
  Each-store e k m v [] (w ∷ vecs) a s = elim s [ ]
  Each-store e k m v ((j, n) ∷ response) [] a s = elim s [ ]
  Each-store e k m v ((j, n) ∷ response) (w ∷ vecs) a (also _ _ _ _ _ (old, f, shown) s) =
      also j n w response vecs (old, sym (vec_of-store_other e k m v j n (ground arith)) ∙ f, shown)
        (Each-store e k m v response vecs (ground arith) s)

  collect_all-cons :
      (e : Exporter V) (k : Text) (m : MetricData V) (response : List (Text × MetricData V))
      (v : Vec V) (e' : Exporter V) (vecs : List (Vec V))
      → let v' = collected qmgr_label nha_label zero_value add e m v in
        vec_of e k m ≡ some v
        → absent k response ≡ true
        → Run (store e k m v') response e' vecs
        → Run e ((k, m) ∷ response) e' (v' ∷ vecs)
  unfolding collect_all absent store
  collect_all-cons e k m response v e' vecs f a r =
      let v' = collected qmgr_label nha_label zero_value add e m v in
      record {
        run =
            rw
              (
                collect_all,
                collect_metric-store qmgr_label nha_label zero_value add e k m v f,
                r.run,
              )
              refl;
        sent =
            also k m v' response vecs
              (v, f, collected-After qmgr_label nha_label zero_value add e m v)
              (Each-store e k m v' response vecs a r.sent);
        kept = also k m v' response vecs (r.others k m a ∙ vec_of-store_same e k m v') r.kept;
        same_name = r.same_name;
        others = λ j n b.
            r.others j n (ground arith)
            ∙ vec_of-store_other e k m v' j n (eq_text-swap j k (ground arith));
      }

  collect_all-Run :
      (e : Exporter V) (response : List (Text × MetricData V))
      → distinct response ≡ true
      → Described e response
      → (e' : Exporter V) × (vecs : List (Vec V)) × Run e response e' vecs
  unfolding collect_all distinct
  collect_all-Run e [] u d = (
    e,
    [],
    record { run = refl; sent = ends; kept = ends; same_name = refl; others = λ j n a. refl },
  )
  collect_all-Run e ((k, m) ∷ response) u ((v, f), d) =
      let v' = collected qmgr_label nha_label zero_value add e m v in
      let (e', vecs, r) =
        collect_all-Run (store e k m v') response (ground arith)
          (Described-store e k m v' response (ground arith) d) in
      (e', v' ∷ vecs, collect_all-cons e k m response v e' vecs f (ground arith) r)

  -- Where the response has no key twice, and every metric of it was described, Collect sends each
  -- metric's vector and keeps it for the next collection: a counter adds the values to what it
  -- showed, a gauge shows only the values of this response, and the first collection leaves the
  -- values out. It is not the first one afterwards, and the name of the queue manager is the same.
  pub collect_lem :
      (e : Exporter V) (response : List (Text × MetricData V))
      → distinct response ≡ true
      → Described e response
      → (e' : Exporter V) × (vecs : List (Vec V)) × (collect qmgr_label nha_label zero_value add e
            response
          ≡ some (e', vecs))
        × Each (SentAs e) response vecs
        × Each (KeptAs e') response vecs
        × (e'.qm_name ≡ e.qm_name)
        × (e'.first_collect ≡ false)
  unfolding collect vec_of
  collect_lem e response u d =
      let (e', vecs, r) = collect_all-Run e response u d in
      (
        record e' { first_collect = false },
        vecs,
        rw (collect, r.run) refl,
        r.sent,
        r.kept,
        r.same_name,
        refl,
      )
