-- ===== src/License/Accept.antt =====
-- When the licence is accepted, and which file is shown.
use mq_container.Base.{
  ℕ, ◌≡◌, ◌↔◌, refl, [], ◌∷◌, Option, none, some, Text, codes, eq_text, eq_text→eq, eq_text_refl,
  has_prefix, Env, arith, if◌then◌else◌,
}
use mq_container.License.{
  file_for, resolve_license_file, accepted, viewed, read_failed, not_set, check_license,
}

-- The licence counts as accepted exactly when LICENSE is set to "accept", to the letter.
pub check_license-accepted :
    (env : Env) (licenses : Text → Option Text)
    → (check_license env licenses ≡ accepted) ↔ (env (codes "LICENSE") ≡ some (codes "accept"))
unfolding check_license
check_license-accepted env licenses = (
  λ h. only (env (codes "LICENSE")) (licenses (resolve_license_file env)) h,
  λ e. rw (e, check_license) (rw eq_text_refl),
)
  where
    only :
        (lic buf : Option Text)
        → (elim lic [
          | none ↦ not_set
          | some l ↦
              if eq_text l (codes "accept")
              then accepted
              else if eq_text l (codes "view")
              then elim buf [ none ↦ read_failed | some b ↦ viewed b ]
              else not_set
        ])
          ≡ accepted
        → lic ≡ some (codes "accept")
    only none buf h = cc
    only (some l) buf h = ground (arith, eq_text→eq l (codes "accept"))

-- The first five characters of LANG decide which file is shown: what follows, such as an encoding,
-- does not matter.
pub file_for_start :
    (a b c d e : ℕ) (rest : Text)
    → file_for (a ∷ b ∷ c ∷ d ∷ e ∷ rest) ≡ file_for (a ∷ b ∷ c ∷ d ∷ e ∷ [])
unfolding file_for has_prefix
file_for_start a b c d e rest = refl
