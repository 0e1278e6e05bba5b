-- ===== src/Base/Decimal/RoundTrip.antt =====
-- `Atoi` reads back what `Itoa` writes.
use Prim.Native.Nat.{ℕ, zero, suc, ◌+◌, ◌-◌, ◌*◌, ◌/◌, ◌%◌, ◌≤◌, ◌<◌}
use mathlib.Core.Path.{◌≡◌, refl, ◌∙◌}
use mathlib.Core.Logic.{◌≢◌, inl, inr}
use mathlib.Core.Bool.{true}
use mathlib.Core.List.{[], ◌∷◌, ◌++◌}
use mathlib.Core.Option.{Option, none, some}
use native.Mathlib.Omega.{arith}
use mq_container.Base.Tests.{ltb, Bool-cases}
use mq_container.Base.Lists.{All, All-append}
use mq_container.Base.Strings.{Text}
use mq_container.Base.Decimal.{pos, max_int, is_digit, scan_digits, atoi, emit_digits, itoa}

abbrev then_scan : Option ℕ → Text → Option ℕ
then_scan none t = none
then_scan (some n) t = scan_digits n t

scan_digits-append : (n : ℕ) (s t : Text) → scan_digits n (s ++ t) ≡ then_scan (scan_digits n s) t
unfolding scan_digits
scan_digits-append n [] t = refl
scan_digits-append n (c ∷ s) t = ground (arith, scan_digits-append (n * 10 + (c - b'0')) s t)

scan_digits-emit : (f n : ℕ) → n < f → scan_digits 0 (emit_digits f n) ≡ some n
unfolding emit_digits scan_digits
scan_digits-emit zero n h = absurd (omega arith)
scan_digits-emit (suc f) n h = elim (Bool-cases (ltb n 10)) [
  | inl small ↦ ground arith
  | inr large ↦ rw large (
      scan_digits-append 0 (emit_digits f (n / 10)) ((b'0' + n % 10) ∷ [])
      ∙ rw (scan_digits-emit f (n / 10) (ground arith)) (ground arith))
]

pub emit_digits-digits : (f n : ℕ) → All (λ c. is_digit c ≡ true) (emit_digits f n)
unfolding emit_digits
emit_digits-digits zero n = tt
emit_digits-digits (suc f) n = elim (Bool-cases (ltb n 10)) [
  | inl small ↦ rw small (ground arith, tt)
  | inr large ↦ rw large (
      All-append (λ c. is_digit c ≡ true) (emit_digits f (n / 10)) ((b'0' + n % 10) ∷ [])
        (emit_digits-digits f (n / 10)) (ground arith, tt))
]

-- Every character of `Itoa` is a digit.
pub itoa-digits : (n : ℕ) → All (λ c. is_digit c ≡ true) (itoa n)
unfolding itoa
itoa-digits n = emit_digits-digits (suc n) n

atoi_of_digits :
    (s : Text) (n : ℕ)
    → All (λ c. is_digit c ≡ true) s
    → s ≢ []
    → scan_digits 0 s ≡ some n
    → n ≤ max_int
    → atoi s ≡ some (pos n)
unfolding atoi
atoi_of_digits [] n h some_digit e le = absurd (some_digit refl)
atoi_of_digits (c ∷ s) n h some_digit e le = ground (arith, h.0)

snoc-ne-nil : (s : Text) (c : ℕ) → s ++ c ∷ [] ≢ []
snoc-ne-nil [] c e = cc
snoc-ne-nil (d ∷ s) c e = cc

emit_digits-ne-nil : (f n : ℕ) → emit_digits (suc f) n ≢ []
unfolding emit_digits
emit_digits-ne-nil f n e = ground (arith, snoc-ne-nil (emit_digits f (n / 10)) (b'0' + n % 10))

pub itoa-ne-nil : (n : ℕ) → itoa n ≢ []
unfolding itoa
itoa-ne-nil n = emit_digits-ne-nil n n

-- `Itoa` of a number of `int` is read back by `Atoi`.
pub atoi-itoa : (n : ℕ) → n ≤ max_int → atoi (itoa n) ≡ some (pos n)
unfolding itoa
atoi-itoa n le =
    atoi_of_digits (emit_digits (suc n) n) n (emit_digits-digits (suc n) n) (emit_digits-ne-nil n n)
      (scan_digits-emit (suc n) n (omega arith)) le
