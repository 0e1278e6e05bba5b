-- ===== src/Base/Decimal.antt =====
-- The functions of `strconv` that the program calls: `Itoa` of a natural number, and `Atoi`, which is
-- `ParseInt` in base 10 with 64 bits. Integers are those of Go's `int`, 64 bits wide.
pub mod RoundTrip
use Prim.Native.Nat.{ℕ, zero, suc, ◌+◌, ◌-◌, ◌*◌, ◌/◌, ◌%◌, ◌^◌}
use mathlib.Core.Bool.{Bool, true, false, ◌&&◌, ◌||◌}
use mathlib.Core.List.{List, [], ◌∷◌, ◌++◌}
use mathlib.Core.Option.{Option, none, some}
use mq_container.Base.Tests.{ltb, leb, ◌==◌, if◌then◌else◌}
use mq_container.Base.Strings.{Text}

-- `negsuc n` is -(n + 1).
pub data ℤ : Type 0 where
  pos : ℕ → ℤ
  negsuc : ℕ → ℤ

abbrev pub max_int : ℕ
max_int = 2 ^ 63 - 1

abbrev pub is_digit : ℕ → Bool
is_digit c = leb b'0' c && leb c b'9'

-- The value of some decimal digits, behind the value of those before them.
unfoldable pub scan_digits : ℕ → Text → Option ℕ
scan_digits n [] = some n
scan_digits n (c ∷ s) =
    let rest = scan_digits (n * 10 + (c - b'0')) s in if is_digit c then rest else none

abbrev digits_of : Text → Option ℕ
digits_of [] = none
digits_of (c ∷ s) = scan_digits 0 (c ∷ s)

abbrev positive : Option ℕ → Option ℤ
positive none = none
positive (some n) = if ltb max_int n then none else some (pos n)

abbrev negative : Option ℕ → Option ℤ
negative none = none
negative (some zero) = some (pos 0)
negative (some (suc n)) = if ltb max_int n then none else some (negsuc n)

-- `strconv.Atoi(s)`, `strconv.ParseInt(s, 10, 64)`
unfoldable pub atoi : Text → Option ℤ
unfolding scan_digits
atoi [] = none
atoi (c ∷ s) =
    if c == b'-'
    then negative (digits_of s)
    else if c == b'+'
    then positive (digits_of s)
    else positive (digits_of (c ∷ s))

-- a digit for each division by ten; `n + 1` rounds are enough
unfoldable pub emit_digits : ℕ → ℕ → Text
emit_digits zero n = []
emit_digits (suc fuel) n =
    let high = emit_digits fuel (n / 10) in
    if ltb n 10 then (b'0' + n) ∷ [] else high ++ (b'0' + n % 10) ∷ []

-- `strconv.Itoa(n)`
unfoldable pub itoa : ℕ → Text
unfolding emit_digits
itoa n = emit_digits (suc n) n
