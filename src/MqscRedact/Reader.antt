-- ===== src/MqscRedact/Reader.antt =====
-- The reader of parameters: it returns what it reads, and never runs out of fuel.
use mq_container.Base.{
  ℕ, zero, suc, ◌≤◌, ◌<◌, ◌≡◌, refl, ap, false, Option, none, some, [], ◌∷◌, ◌++◌, append_assoc,
  arith, Text, length, length-append,
}
use mq_container.MqscRedact.{
  QuoteLoop, outer, next_loop, find_end_of_parameter_string, quoted_part, read_parameter,
  get_parameter_string, read_comment,
}

find_end-append :
    (q : ℕ) (l : QuoteLoop) (r : Text)
    → (find_end_of_parameter_string q l r).0 ++ (find_end_of_parameter_string q l r).1 ≡ r
unfolding find_end_of_parameter_string
find_end-append q l [] = refl
find_end-append q l (c ∷ r) = go (next_loop q l c) refl (λ l'. find_end-append q l' r)
  where
    go :
        (o : Option QuoteLoop)
        → next_loop q l c ≡ o
        → ((l' : QuoteLoop)
            → (find_end_of_parameter_string q l' r).0 ++ (find_end_of_parameter_string q l' r).1
              ≡ r)
        → (find_end_of_parameter_string q l (c ∷ r)).0
            ++ (find_end_of_parameter_string q l (c ∷ r)).1
          ≡ c ∷ r
    go none e ih = rw (e, find_end_of_parameter_string)
    go (some l') e ih = rw (e, find_end_of_parameter_string) (ap (λ t. c ∷ t) (ih l'))

-- The quoted part that follows a character.
quoted_part-append : (c : ℕ) (r : Text) → (quoted_part c r).0 ++ (quoted_part c r).1 ≡ r
unfolding quoted_part
quoted_part-append c r = ground (arith, find_end-append c outer r)

length-quoted_part : (c : ℕ) (r : Text) → length (quoted_part c r).1 ≤ length r
length-quoted_part c r = omega (
  arith,
  ap length (quoted_part-append c r),
  length-append (quoted_part c r).0 (quoted_part c r).1,
)

read_parameter-append :
    (fuel : ℕ) (r : Text) → (read_parameter fuel r).0 ++ (read_parameter fuel r).1 ≡ r
unfolding read_parameter
read_parameter-append zero r = refl
read_parameter-append (suc fuel) [] = refl
read_parameter-append (suc fuel) (c ∷ r) = ground (
  arith,
  read_parameter-append fuel (quoted_part c r).1,
  quoted_part-append c r,
  append_assoc (quoted_part c r).0 (read_parameter fuel (quoted_part c r).1).0
      (read_parameter fuel (quoted_part c r).1).1,
)

-- What `getParameterString` returns, with what it leaves, is the text from the parenthesis on.
pub get_parameter_string-append :
    (r : Text) → (get_parameter_string r).0 ++ (get_parameter_string r).1 ≡ b'(' ∷ r
unfolding get_parameter_string
get_parameter_string-append r = ap (λ t. b'(' ∷ t) (read_parameter-append (suc (length r)) r)

-- What it leaves is an end of the text.
pub get_parameter_string_rest : (r : Text) → (p : Text) × (p ++ (get_parameter_string r).1 ≡ r)
unfolding get_parameter_string
get_parameter_string_rest r =
    ((read_parameter (suc (length r)) r).0, read_parameter-append (suc (length r)) r)

pub length-get_parameter_string : (r : Text) → length (get_parameter_string r).1 ≤ length r
unfolding get_parameter_string
length-get_parameter_string r = omega (
  arith,
  ap length (read_parameter-append (suc (length r)) r),
  length-append (read_parameter (suc (length r)) r).0 (read_parameter (suc (length r)) r).1,
)

-- Fuel above the length of the text is enough: more does not change the result.
pub read_parameter-fuel :
    (f g : ℕ) (r : Text) → length r < f → length r < g → read_parameter f r ≡ read_parameter g r
unfolding read_parameter
read_parameter-fuel zero g r hf hg = absurd (omega arith)
read_parameter-fuel (suc f) zero r hf hg = absurd (omega arith)
read_parameter-fuel (suc f) (suc g) [] hf hg = refl
read_parameter-fuel (suc f) (suc g) (c ∷ r) hf hg =
    ground (arith, read_parameter-fuel f g (quoted_part c r).1, length-quoted_part c r)

pub read_comment-append : (r : Text) → (read_comment r).0 ++ (read_comment r).1 ≡ r
unfolding read_comment
read_comment-append [] = refl
read_comment-append (c ∷ r) = ground (arith, read_comment-append r)

pub length-read_comment : (r : Text) → length (read_comment r).1 ≤ length r
length-read_comment r =
    omega (
      arith,
      ap length (read_comment-append r),
      length-append (read_comment r).0 (read_comment r).1,
    )

-- A comment without its new line is all the rest of the text.
pub read_comment_end : (r : Text) → (read_comment r).2 ≡ false → (read_comment r).0 ≡ r
unfolding read_comment
read_comment_end [] h = refl
read_comment_end (c ∷ r) h = ground (arith, read_comment_end r)
