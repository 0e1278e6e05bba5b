-- ===== src/Metrics/Describe.antt =====
-- `Describe` makes a vector for every metric of the response, as `Collect` needs it.
use mq_container.Base.{
  ◌≡◌, refl, sym, subst, ◌∙◌, Bool-cases, inl, inr, not, ◌&&◌, List, [], ◌∷◌, some, Text, eq_text,
  if-elim, if◌then◌else◌,
}
use mq_container.Metrics.{MetricData}
use mq_container.Metrics.Exporter.{Vec, Exporter, describe, create_vec}
use mq_container.Metrics.Exported.{vec_of, store, Described, vec_of-store_same, vec_of-store}

module _ {ℓ} {V : Type ℓ} where
  describe-store :
      (e : Exporter V) (k : Text) (m : MetricData V) (response : List (Text × MetricData V))
      → describe e ((k, m) ∷ response) ≡ describe (store e k m (create_vec m)) response
  unfolding describe store
  describe-store e k m response = elim (Bool-cases m.delta) [
    | inl d ↦ rw (d) refl
    | inr d ↦ rw (d) refl
  ]

  vec_of-describe :
      (e : Exporter V) (k : Text) (m : MetricData V) (v : Vec V)
      (response : List (Text × MetricData V))
      → vec_of e k m ≡ some v
      → (w : Vec V) × (vec_of (describe e response) k m ≡ some w)
  unfolding describe
  vec_of-describe e k m v [] f = (v, f)
  vec_of-describe e k m v ((j, n) ∷ response) f =
      let e1 = store e j n (create_vec n) in
      subst (λ x. (w : Vec V) × (vec_of x k m ≡ some w)) (sym (describe-store e j n response))
        (if-elim
          (λ o. vec_of e1 k m ≡ o → (w : Vec V) × (vec_of (describe e1 response) k m ≡ some w))
          (eq_text j k && (if n.delta then m.delta else not m.delta))
          (λ _ g. vec_of-describe e1 k m (create_vec n) response g)
          (λ _ g. vec_of-describe e1 k m v response (g ∙ f))
          (vec_of-store e j n (create_vec n) k m))

  pub describe-Described :
      (e : Exporter V) (response : List (Text × MetricData V))
      → Described (describe e response) response
  describe-Described e [] = tt
  describe-Described e ((k, m) ∷ response) =
      let e1 = store e k m (create_vec m) in
      subst (λ x. Described x ((k, m) ∷ response)) (sym (describe-store e k m response))
        (
          vec_of-describe e1 k m (create_vec m) response (vec_of-store_same e k m (create_vec m)),
          describe-Described e1 response,
        )
