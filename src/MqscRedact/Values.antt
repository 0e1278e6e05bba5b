-- ===== src/MqscRedact/Values.antt =====
-- A value of a parameter, and what the loop of `Redact` makes of it.
use mq_container.Base.{
  ℕ, zero, suc, ◌-◌, ◌<◌, ◌≡◌, refl, ap, ◌∙◌, true, false, ◌||◌, [], ◌∷◌, ◌++◌, map, append_assoc,
  arith, Text, length, length-append, ◌==◌, All,
}
use mq_container.MqscRedact.{
  Redactor, continue, outer, next_loop, find_end_of_parameter_string, quoted_part, read_parameter,
  redaction_string, get_parameter_string, take_parameter, reset_all_parameters, read_verb_char,
  switch_char, read_char, round, main_loop, start_output, to_upper, is_sensitive_command,
}
use mq_container.MqscRedact.Account.{main_loop-fuel}

-- A parameter value up to its closing parenthesis: characters and quoted strings. A quoted string
-- may hold parentheses.
pub data IsValue : Text → Type 0 where
  empty : IsValue []
  char :
      {v : Text} (c : ℕ)
      → (c == b')' || c == b'\'' || c == b'"') ≡ false
      → IsValue v
      → IsValue (c ∷ v)
  quoted :
      {v w : Text} (q : ℕ) (body : Text)
      → (q == b'\'' || q == b'"') ≡ true
      → All (λ c. (c == q || c == b'\n') ≡ false) body
      → IsValue v
      → w ≡ q ∷ (body ++ q ∷ v)
      → IsValue w

find_end_quoted :
    (q : ℕ) (body r : Text)
    → All (λ c. (c == q || c == b'\n') ≡ false) body
    → find_end_of_parameter_string q outer (body ++ q ∷ r) ≡ (body ++ q ∷ [], r)
unfolding find_end_of_parameter_string next_loop
find_end_quoted q [] r h = ground arith
find_end_quoted q (c ∷ body) r h = ground (arith, find_end_quoted q body r h.1)

shorter :
    (q : ℕ) (body v t : Text) (f : ℕ)
    → length ((q ∷ (body ++ q ∷ v)) ++ t) < suc f
    → length (v ++ t) < f
shorter q body v t f h =
    omega
      (arith, length-append (q ∷ (body ++ q ∷ v)) t, length-append body (q ∷ v), length-append v t)

read_parameter_value :
    {v : Text} (f : ℕ) (post : Text)
    → IsValue v
    → length (v ++ b')' ∷ post) < f
    → read_parameter f (v ++ b')' ∷ post) ≡ (v ++ b')' ∷ [], post)
unfolding read_parameter quoted_part
read_parameter_value zero post i h = absurd (omega arith)
read_parameter_value (suc f) post empty h = refl
read_parameter_value (suc f) post (char {v} c plain i) h =
    ground (arith, read_parameter_value {v = v} f post i)
read_parameter_value (suc f) post (quoted {v} {w} q body is_quote plain i e) h = rw e (
    ground (
      arith,
      append_assoc body (q ∷ v) (b')' ∷ post),
      append_assoc body (q ∷ []) (v ++ b')' ∷ []),
      append_assoc body (q ∷ v) (b')' ∷ []),
      find_end_quoted q body (v ++ b')' ∷ post) plain,
      read_parameter_value f post i (shorter q body v (b')' ∷ post) f (rw e at h)),
    ))

-- A closing parenthesis ends the value.
get_parameter_string_value :
    {v : Text} (post : Text)
    → IsValue v
    → get_parameter_string (v ++ b')' ∷ post) ≡ (b'(' ∷ (v ++ b')' ∷ []), post)
unfolding get_parameter_string
get_parameter_string_value {v} post i =
    rw (read_parameter_value (suc (length (v ++ b')' ∷ post))) post i (omega arith))

-- From the state `s`, with `t` to read before a value, the loop comes to a state after the value
-- that is the same for all values.
abbrev pub Hides : Redactor → Text → Text → Type 0
Hides s t post =
    (after : Redactor) × ((v : Text) (f : ℕ)
      → IsValue v
      → length (t ++ (v ++ b')' ∷ post)) < f
      → main_loop f s (t ++ (v ++ b')' ∷ post)) ≡ main_loop (suc (length post)) after post)

same_round :
    (f : ℕ) (s : Redactor) (r : Text) (s' : Redactor) (r' : Text)
    → round s r ≡ round s' r'
    → main_loop (suc f) s r ≡ main_loop (suc f) s' r'
unfolding main_loop
same_round f s r s' r' e = rw (e, main_loop)

hidden_value :
    (s : Redactor) (post : Text)
    → s.parameter_next ≡ true
    → s.redacting ≡ true
    → (v : Text) (f : ℕ) → IsValue v
    → length (v ++ b')' ∷ post) < f
    → main_loop f s (v ++ b')' ∷ post)
      ≡ main_loop
          (suc (length post))
          (reset_all_parameters (record s { return_str = s.return_str ++ redaction_string }))
          post
hidden_value s post flag hidden v zero i h = absurd (omega arith)
hidden_value s post flag hidden v (suc f) i h =
    same_round f s (v ++ b')' ∷ post)
      (reset_all_parameters (record s { return_str = s.return_str ++ redaction_string })) post
      (unfold round take_parameter in rw (get_parameter_string_value post i, flag, hidden))
    ∙ main_loop-fuel (suc f) (suc (length post)) _ post
        (omega (arith, length-append v (b')' ∷ post))) (omega arith)

step :
    (s s' : Redactor) (c : ℕ) (r : Text) (f : ℕ)
    → round s (c ∷ r) ≡ continue s' r
    → length (c ∷ r) < f
    → main_loop f s (c ∷ r) ≡ main_loop (f - 1) s' r
unfolding main_loop
step s s' c r zero e h = absurd (omega arith)
step s s' c r (suc f) e h = rw (e, main_loop) (ap (λ g. main_loop g s' r) (omega arith))

-- The value itself, where it is to be redacted.
Hides-value :
    (s : Redactor) (post : Text) → s.parameter_next ≡ true → s.redacting ≡ true → Hides s [] post
Hides-value s post flag hidden =
    let after : Redactor =
      reset_all_parameters (record s { return_str = s.return_str ++ redaction_string }) in
    (after, λ v f i h. hidden_value s post flag hidden v f i h)

pub Hides-step :
    (s s' : Redactor) (c : ℕ) (t post : Text)
    → ((r : Text) → round s (c ∷ r) ≡ continue s' r)
    → Hides s' t post
    → Hides s (c ∷ t) post
Hides-step s s' c t post next (after, same) = (
  after,
  λ v f i h. step s s' c (t ++ (v ++ b')' ∷ post)) f (next _) h ∙ same v (f - 1) i (omega arith),
)

open_round :
    (s : Redactor) (r : Text)
    → s.parameter_next ≡ false
    → round s (b'(' ∷ r)
      ≡ continue (read_verb_char (record s { newline = false; parameter_next = true }) b'(') r
unfolding round take_parameter read_char switch_char start_output
open_round s r flag = ground arith

-- The opening parenthesis after a sensitive command.
pub Hides-open :
    (s : Redactor) (post : Text)
    → s.parameter_next ≡ false
    → is_sensitive_command (map to_upper s.current_verb) ≡ true
    → Hides s (b'(' ∷ []) post
Hides-open s post flag sensitive =
    let s' : Redactor = read_verb_char (record s { newline = false; parameter_next = true }) b'(' in
    Hides-step s s' b'(' [] post (λ r. open_round s r flag)
      (Hides-value s' post (unfold read_verb_char in refl)
        (unfold read_verb_char in ground (arith, sensitive)))
