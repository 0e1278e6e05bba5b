-- ===== src/Base/Int.antt =====
-- Subtraction and order of Go's `int64`, with its wrap-around.
use Prim.Native.Nat.{ℕ, ◌+◌, ◌-◌, ◌%◌, ◌^◌, ◌≤◌}
use mathlib.Core.Path.{◌≡◌}
use mathlib.Core.Bool.{Bool, true, false}
use native.Mathlib.Omega.{arith}
use mq_container.Base.Tests.{ltb, leb, if◌then◌else◌}
use mq_container.Base.Decimal.{ℤ, pos, negsuc, max_int}

-- the bit pattern of a number, and the number of a bit pattern
abbrev to_word : ℤ → ℕ
to_word (pos n) = n % 2 ^ 64
to_word (negsuc n) = 2 ^ 64 - 1 - n % 2 ^ 64

abbrev from_word : ℕ → ℤ
from_word w = if ltb w (2 ^ 63) then pos w else negsuc (2 ^ 64 - 1 - w)

unfoldable pub sub_int : ℤ → ℤ → ℤ
sub_int a b = from_word ((to_word a + 2 ^ 64 - to_word b) % 2 ^ 64)

-- `a <= b`
unfoldable pub le_int : ℤ → ℤ → Bool
le_int (pos a) (pos b) = leb a b
le_int (pos a) (negsuc b) = false
le_int (negsuc a) (pos b) = true
le_int (negsuc a) (negsuc b) = leb b a

pub sub_int_pos : (a b : ℕ) → b ≤ a → a ≤ max_int → sub_int (pos a) (pos b) ≡ pos (a - b)
unfolding sub_int
sub_int_pos a b le fits = ground arith
