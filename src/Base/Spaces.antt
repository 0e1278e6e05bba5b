-- ===== src/Base/Spaces.antt =====
-- Lemmas on `strings.TrimSpace`.
use Prim.Native.Nat.{ℕ}
use mathlib.Core.Path.{◌≡◌, refl, sym, ap, ◌∙◌}
use mathlib.Core.Logic.{◌⊎◌, inl, inr}
use mathlib.Core.Bool.{Bool, true, false}
use mathlib.Core.List.{[], ◌∷◌, ◌++◌, reverse, reverse-append, reverse-reverse}
use native.Mathlib.Omega.{arith}
use mq_container.Base.Tests.{Bool-cases}
use mq_container.Base.Strings.{Text, is_space, drop_while, trim_left, trim_right, trim_space}

module _ (p : ℕ → Bool) where
  -- A character at the end that goes: either all went, or it is the only difference.
  drop_while-snoc :
      (s : Text) (c : ℕ)
      → p c ≡ true
      → ((drop_while p s ≡ []) × (drop_while p (s ++ c ∷ []) ≡ []))
        ⊎ (drop_while p (s ++ c ∷ []) ≡ drop_while p s ++ c ∷ [])
  unfolding drop_while
  drop_while-snoc [] c h = inl (refl, rw h)
  drop_while-snoc (d ∷ s) c h = elim (Bool-cases (p d)) [
    | inl e ↦ rw e (drop_while-snoc s c h)
    | inr e ↦ rw e (inr refl)
  ]

  drop_while-cons : (c : ℕ) (s : Text) → p c ≡ true → drop_while p (c ∷ s) ≡ drop_while p s
  unfolding drop_while
  drop_while-cons c s h = rw h

  drop_while_idem : (s : Text) → drop_while p (drop_while p s) ≡ drop_while p s
  unfolding drop_while
  drop_while_idem [] = refl
  drop_while_idem (c ∷ s) = ground (arith, drop_while_idem s)

trim_right-snoc : (s : Text) (c : ℕ) → is_space c ≡ true → trim_right (s ++ c ∷ []) ≡ trim_right s
unfolding trim_right
trim_right-snoc s c h =
    ap (λ t. reverse (drop_while is_space t)) (reverse-append s (c ∷ []))
    ∙ ap reverse (drop_while-cons is_space c (reverse s) h)

-- White space at the end of a text is trimmed.
pub trim_space-snoc :
    (s : Text) (c : ℕ) → is_space c ≡ true → trim_space (s ++ c ∷ []) ≡ trim_space s
unfolding trim_space trim_left
trim_space-snoc s c h = elim (drop_while-snoc is_space s c h) [
  | inl (e, e') ↦ rw (e, e')
  | inr e ↦ rw e (trim_right-snoc (drop_while is_space s) c h)
]

-- Only the white space before a text goes, where it ends in none.
trim_right-solid : (s : Text) (d : ℕ) → is_space d ≡ false → trim_right (s ++ d ∷ []) ≡ s ++ d ∷ []
unfolding trim_right drop_while
trim_right-solid s d f =
    rw (reverse-append s (d ∷ []), f)
      (ap reverse (sym (reverse-append s (d ∷ []))) ∙ reverse-reverse (s ++ d ∷ []))

pub trim_space-solid :
    (c : ℕ) (s : Text) (d : ℕ)
    → is_space c ≡ false
    → is_space d ≡ false
    → trim_space (c ∷ s ++ d ∷ []) ≡ c ∷ s ++ d ∷ []
unfolding trim_space trim_left drop_while
trim_space-solid c s d e f = rw e (trim_right-solid (c ∷ s) d f)

pub trim_space-blank : (s : Text) → trim_space (b' ' ∷ s) ≡ trim_space s
unfolding trim_space trim_left
trim_space-blank s = refl
