-- ===== src/MqVersion/RoundTrip.antt =====
-- A version is read back from what it is written as, and what is read is a valid version.
use mq_container.Base.{
  ℕ, zero, suc, ◌≤◌, ◌<◌, ◌≡◌, ◌≢◌, refl, true, List, [], ◌∷◌, ◌++◌, Option, none, some, Text,
  split_on, arith, All, Bool-cases, inl, inr,
}
use mq_container.Base.Decimal.{ℤ, pos, negsuc, max_int, is_digit, atoi, itoa}
use mq_container.Base.Decimal.RoundTrip.{itoa-digits, atoi-itoa, itoa-ne-nil}
use mq_container.MqVersion.{
  Part, version, release, minor, fix, Parsed, valid, invalid, Vrmf, is_version, checked_part,
  parse_part, parse_vrmf, to_string, parse_parts, ◌>>=◌,
}

-- A text with no dot is split off at the next dot.
split_on-dot :
    (s t : Text)
    → All (λ c. is_digit c ≡ true) s
    → split_on b'.' (s ++ b'.' ∷ t) ≡ s ∷ split_on b'.' t
unfolding split_on
split_on-dot [] t h = refl
split_on-dot (c ∷ s) t h = ground (arith, h.0, split_on-dot s t h.1)

split_on-last : (s : Text) → All (λ c. is_digit c ≡ true) s → split_on b'.' s ≡ s ∷ []
unfolding split_on
split_on-last [] h = refl
split_on-last (c ∷ s) h = ground (arith, h.0, split_on-last s h.1)

parse_part-itoa :
    (p : Part) (n : ℕ)
    → n ≤ max_int
    → (is_version p ≡ true → 0 < n)
    → parse_part p (itoa n) ≡ valid n
parse_part-itoa p n le pos_version = go p n (itoa n) (itoa-ne-nil n) (atoi-itoa n le) pos_version
  where
    go :
        (p : Part) (n : ℕ) (s : Text)
        → s ≢ []
        → atoi s ≡ some (pos n)
        → (is_version p ≡ true → 0 < n)
        → parse_part p s ≡ valid n
    go p n [] ne e h = absurd (ne refl)
    go p zero (c ∷ s) ne e h = elim (Bool-cases (is_version p)) [
      | inl v ↦ absurd (omega (arith, h v))
      | inr v ↦ unfold parse_part in rw (e, v)
    ]
    go p (suc n) (c ∷ s) ne e h = unfold parse_part in rw e

-- The numbers that a version may have: the first is not zero, and all fit an `int`.
pub record IsVrmf (v : Vrmf) : Type 0 where
  pub version_pos : 0 < v.version
  pub version_le : v.version ≤ max_int
  pub release_le : v.release ≤ max_int
  pub minor_le : v.minor ≤ max_int
  pub fix_le : v.fix ≤ max_int

-- A valid version is read back from what `String` writes.
pub parse_vrmf-to_string : (v : Vrmf) → IsVrmf v → parse_vrmf (to_string v) ≡ valid v
unfolding parse_vrmf to_string
parse_vrmf-to_string v h = rw (
  split_on-dot (itoa v.version) _ (itoa-digits v.version),
  split_on-dot (itoa v.release) _ (itoa-digits v.release),
  split_on-dot (itoa v.minor) _ (itoa-digits v.minor),
  split_on-last (itoa v.fix) (itoa-digits v.fix),
  parse_part-itoa version v.version h.version_le (λ e. h.version_pos),
  parse_part-itoa release v.release h.release_le (λ e. cc),
  parse_part-itoa minor v.minor h.minor_le (λ e. cc),
  parse_part-itoa fix v.fix h.fix_le (λ e. cc),
)

atoi-le : (s : Text) (n : ℕ) → atoi s ≡ some (pos n) → n ≤ max_int
unfolding atoi
atoi-le [] n e = cc
atoi-le (c ∷ s) n e = ground arith

parse_part_valid :
    (p : Part) (s : Text) (n : ℕ)
    → parse_part p s ≡ valid n
    → (n ≤ max_int) × (is_version p ≡ true → 0 < n)
unfolding parse_part
parse_part_valid p [] n e = cc
parse_part_valid p (c ∷ s) n e = go (atoi (c ∷ s)) (atoi-le (c ∷ s)) e
  where
    go :
        (o : Option ℤ)
        → ((m : ℕ) → o ≡ some (pos m) → m ≤ max_int)
        → checked_part p o ≡ valid n
        → (n ≤ max_int) × (is_version p ≡ true → 0 < n)
    go none le e = cc
    go (some (negsuc m)) le e = cc
    go (some (pos zero)) le e = (ground (arith, le 0 refl), λ v. ground arith)
    go (some (pos (suc m))) le e = (ground (arith, le (suc m) refl), λ v. ground arith)

bind-eq-valid {ℓ κ} :
    {A : Type ℓ} {B : Type κ} (m : Parsed A) (f : A → Parsed B) {b : B}
    → (m >>= f) ≡ valid b
    → (a : A) × (m ≡ valid a) × (f a ≡ valid b)
bind-eq-valid (valid a) f h = (a, refl, h)
bind-eq-valid (invalid e) f h = cc

-- What `parseVRMF` accepts is a valid version.
pub parse_vrmf-IsVrmf : (s : Text) (v : Vrmf) → parse_vrmf s ≡ valid v → IsVrmf v
unfolding parse_vrmf
parse_vrmf-IsVrmf s v e = go (split_on b'.' s) e
  where
    go : (parts : List Text) → parse_parts parts ≡ valid v → IsVrmf v
    go (a ∷ b ∷ c ∷ d ∷ []) e =
        let (m, em, e1) = bind-eq-valid (parse_part version a) _ e in
        let (n, en, e2) = bind-eq-valid (parse_part release b) _ e1 in
        let (k, ek, e3) = bind-eq-valid (parse_part minor c) _ e2 in
        let (l, el, e4) = bind-eq-valid (parse_part fix d) _ e3 in
        ground (
          arith,
          e4,
          parse_part_valid version a m em,
          parse_part_valid release b n en,
          parse_part_valid minor c k ek,
          parse_part_valid fix d l el,
        )
    go [] e = cc
    go (a ∷ []) e = cc
    go (a ∷ b ∷ []) e = cc
    go (a ∷ b ∷ c ∷ []) e = cc
    go (a ∷ b ∷ c ∷ d ∷ x ∷ parts) e = cc
