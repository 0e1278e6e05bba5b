-- ===== src/Base/Strings.antt =====
-- Texts as lists of code points, and the functions of Go's `strings` package and of `os.Getenv`
-- that the program calls.
use Prim.Native.Nat.{ℕ, ◌+◌}
use Prim.Native.Char.{code}
use Prim.Native.String.{String}
use mathlib.Core.Path.{◌≡◌, refl}
use mathlib.Core.Bool.{Bool, true, false, ◌&&◌, ◌||◌}
use mathlib.Core.List.{List, [], ◌∷◌, ◌++◌, reverse}
use mathlib.Core.Option.{Option, none, some}
use native.Mathlib.Omega.{arith}
use mq_container.Base.Tests.{leb, ◌==◌, if◌then◌else◌, ==-refl}

abbrev pub Text : Type 0
Text = List ℕ

abbrev pub codes : String → Text
codes String.[] = []
codes (String.◌∷◌ c s) = code c ∷ codes s

-- `s == t`
unfoldable pub eq_text : Text → Text → Bool
eq_text [] [] = true
eq_text (c ∷ s) (d ∷ t) = c == d && eq_text s t
eq_text _ _ = false

-- `strings.HasPrefix(s, prefix)`
unfoldable pub has_prefix : Text → Text → Bool
has_prefix s [] = true
has_prefix [] (p ∷ ps) = false
has_prefix (c ∷ s) (p ∷ ps) = c == p && has_prefix s ps

-- `strings.HasSuffix(s, suffix)`
unfoldable pub has_suffix : Text → Text → Bool
unfolding has_prefix
has_suffix s suffix = has_prefix (reverse s) (reverse suffix)

-- `strings.Contains(s, sub)`
unfoldable pub contains : Text → Text → Bool
unfolding has_prefix
contains [] sub = has_prefix [] sub
contains (c ∷ s) sub = has_prefix (c ∷ s) sub || contains s sub

-- `unicode.IsSpace`
unfoldable pub is_space : ℕ → Bool
is_space c =
    (leb 9 c && leb c 13)
    || c == 32
    || c == 0x85
    || c == 0xa0
    || c == 0x1680
    || (leb 0x2000 c && leb c 0x200a)
    || c == 0x2028
    || c == 0x2029
    || c == 0x202f
    || c == 0x205f
    || c == 0x3000

unfoldable pub drop_while : (ℕ → Bool) → Text → Text
drop_while p [] = []
drop_while p (c ∷ s) = let rest = drop_while p s in if p c then rest else c ∷ s

-- `strings.TrimSpace(s)`: from the left, then from the right.
unfoldable pub trim_left : Text → Text
unfolding drop_while is_space
trim_left s = drop_while is_space s

unfoldable pub trim_right : Text → Text
unfolding drop_while is_space
trim_right s = reverse (drop_while is_space (reverse s))

unfoldable pub trim_space : Text → Text
unfolding trim_left trim_right
trim_space s = trim_right (trim_left s)

abbrev pub push_head : ℕ → List Text → List Text
push_head c [] = (c ∷ []) ∷ []
push_head c (w ∷ ws) = (c ∷ w) ∷ ws

-- `strings.Split(s, sep)` at a separator of one character
unfoldable pub split_on : ℕ → Text → List Text
split_on sep [] = [] ∷ []
split_on sep (c ∷ s) = if c == sep then [] ∷ split_on sep s else push_head c (split_on sep s)

-- `strings.ReplaceAll(s, old, new)` where `old` is one character
unfoldable pub replace_char : ℕ → Text → Text → Text
replace_char old new [] = []
replace_char old new (c ∷ s) = (if c == old then new else c ∷ []) ++ replace_char old new s

-- `strings.Count(s, sub)` where `sub` is one character
unfoldable pub count_char : ℕ → Text → ℕ
count_char d [] = 0
count_char d (c ∷ s) = (if c == d then 1 else 0) + count_char d s

-- ASCII lower case, with the two other code points that Unicode folds to an ASCII letter: the
-- long s and the Kelvin sign. It is what `strings.EqualFold` sees when one side is ASCII.
unfoldable pub to_lower : ℕ → ℕ
to_lower c =
    if leb b'A' c && leb c b'Z'
    then c + 32
    else if c == 0x17f
    then b's'
    else if c == 0x212a
    then b'k'
    else c

-- `strings.EqualFold(s, t)` where `t` is an ASCII text in lower case
unfoldable pub equal_fold : Text → Text → Bool
unfolding to_lower
equal_fold [] [] = true
equal_fold (c ∷ s) (d ∷ t) = to_lower c == d && equal_fold s t
equal_fold _ _ = false

-- `os.LookupEnv` is an environment itself; `os.Getenv` is "" where the variable is not set.
abbrev pub Env : Type 0
Env = Text → Option Text

unfoldable pub getenv : Env → Text → Text
getenv env k = elim (env k) [ none ↦ [] | some v ↦ v ]

pub eq_text_refl : (s : Text) → eq_text s s ≡ true
unfolding eq_text
eq_text_refl [] = refl
eq_text_refl (c ∷ s) = rw (==-refl c, eq_text_refl s)

pub eq_text→eq : (s t : Text) → eq_text s t ≡ true → s ≡ t
unfolding eq_text
eq_text→eq [] [] h = refl
eq_text→eq [] (d ∷ t) h = cc
eq_text→eq (c ∷ s) [] h = cc
eq_text→eq (c ∷ s) (d ∷ t) h = ground (arith, eq_text→eq s t)

pub has_prefix-append : (p s : Text) → has_prefix (p ++ s) p ≡ true
unfolding has_prefix
has_prefix-append [] s = refl
has_prefix-append (c ∷ p) s = rw (==-refl c, has_prefix-append p s)

pub contains-append : (s sub t : Text) → contains (s ++ sub ++ t) sub ≡ true
unfolding contains
contains-append [] [] [] = refl
contains-append [] [] (c ∷ t) = refl
contains-append [] (c ∷ sub) t = rw (has_prefix-append (c ∷ sub) t)
contains-append (c ∷ s) sub t = ground (arith, contains-append s sub t)

pub has_prefix-weaken : (s t p : Text) → has_prefix s p ≡ true → has_prefix (s ++ t) p ≡ true
unfolding has_prefix
has_prefix-weaken s t [] h = refl
has_prefix-weaken [] t (d ∷ p) h = cc
has_prefix-weaken (c ∷ s) t (d ∷ p) h = ground (arith, has_prefix-weaken s t p)

-- What a text contains, a longer one does too.
pub contains-append_left : (s t sub : Text) → contains s sub ≡ true → contains (t ++ s) sub ≡ true
unfolding contains
contains-append_left s [] sub h = h
contains-append_left s (c ∷ t) sub h = ground (arith, contains-append_left s t sub)
