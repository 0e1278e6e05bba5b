-- ===== src/MqscRedact/Hiding.antt =====
-- What `Redact` returns for a text does not depend on the values of its sensitive parameters.
use mathlib.Core.List.{map-append}
use mq_container.Base.{
  ℕ, suc, ◌≡◌, refl, sym, ◌∙◌, Bool, true, false, ◌&&◌, ◌||◌, List, [], ◌∷◌, ◌++◌, map,
  append_assoc, append-nil, arith, Text, length, leb, ◌==◌, if◌then◌else◌, All,
  contains-append_left,
}
use mq_container.MqscRedact.{
  Redactor, Round, finish, continue, take_parameter, read_verb_char, switch_char, read_char, round,
  initial, redact_trimmed, start_output, to_upper, is_sensitive_command, is_sensitive_in,
  sensitive_parameters,
}
use mq_container.MqscRedact.Values.{IsValue, Hides, Hides-step, Hides-open}

abbrev is_letter : ℕ → Bool
is_letter c = (leb b'a' c && leb c b'z') || (leb b'A' c && leb c b'Z')

letter_round :
    (s : Redactor) (c : ℕ) (r : Text)
    → s.parameter_next ≡ false
    → is_letter c ≡ true
    → round s (c ∷ r) ≡ continue (read_verb_char (record s { newline = false }) c) r
unfolding round take_parameter read_char switch_char start_output
letter_round s c r flag letter = ground arith

-- A longer command is sensitive too.
is_sensitive_in_longer :
    (vs : List Text) (s t : Text) → is_sensitive_in vs s ≡ true → is_sensitive_in vs (t ++ s) ≡ true
unfolding is_sensitive_in
is_sensitive_in_longer [] s t h = h
is_sensitive_in_longer (v ∷ vs) s t h =
    ground (arith, contains-append_left s t v, is_sensitive_in_longer vs s t)

is_sensitive_longer :
    (s t : Text)
    → is_sensitive_command (map to_upper s) ≡ true
    → is_sensitive_command (map to_upper (t ++ s)) ≡ true
unfolding is_sensitive_command
is_sensitive_longer s t h =
    rw map-append (is_sensitive_in_longer sensitive_parameters (map to_upper s) (map to_upper t) h)

-- The letters of a keyword, read into the verb.
Hides-letters :
    (k : Text) (s : Redactor) (post : Text)
    → s.parameter_next ≡ false
    → s.found_gap ≡ false
    → All (λ c. is_letter c ≡ true) k
    → is_sensitive_command (map to_upper (s.current_verb ++ k)) ≡ true
    → Hides s (k ++ b'(' ∷ []) post
Hides-letters [] s post flag gap letters sensitive =
    Hides-open s post flag (rw append-nil at sensitive)
Hides-letters (c ∷ k) s post flag gap letters sensitive =
    let s' : Redactor = read_verb_char (record s { newline = false }) c in
    Hides-step s s' c (k ++ b'(' ∷ []) post (λ r. letter_round s c r flag letters.0)
      (Hides-letters k s' post flag' gap' letters.1 sensitive')
  where
    flag' : (read_verb_char (record s { newline = false }) c).parameter_next ≡ false
    flag' = unfold read_verb_char in flag

    gap' : (read_verb_char (record s { newline = false }) c).found_gap ≡ false
    gap' = unfold read_verb_char in ground arith

    sensitive' :
        is_sensitive_command
          (map to_upper ((read_verb_char (record s { newline = false }) c).current_verb ++ k))
        ≡ true
    sensitive' = unfold read_verb_char in rw (flag, gap, append_assoc) sensitive

-- A keyword is read into the verb, whatever came before it.
Hides-keyword :
    (c : ℕ) (k : Text) (s : Redactor) (post : Text)
    → s.parameter_next ≡ false
    → All (λ c. is_letter c ≡ true) (c ∷ k)
    → is_sensitive_command (map to_upper (c ∷ k)) ≡ true
    → Hides s ((c ∷ k) ++ b'(' ∷ []) post
Hides-keyword c k s post flag letters sensitive =
    Hides-step s (after_first s c) c (k ++ b'(' ∷ []) post (λ r. letter_round s c r flag letters.0)
      (Hides-letters k (after_first s c) post (unfold read_verb_char in flag)
        (unfold read_verb_char in ground arith) letters.1
        (unfold read_verb_char in
          rw append_assoc (
            is_sensitive_longer (c ∷ k)
              (if s.found_gap || s.parameter_next then [] else s.current_verb) sensitive)))
  where
    after_first : Redactor → ℕ → Redactor
    after_first t d = read_verb_char (record t { newline = false }) d

-- A character that neither opens a value nor may start a comment takes one round.
abbrev state_after : Redactor → Round → Redactor
state_after s (continue s' r) = s'
state_after s (finish t) = s

plain_round :
    (s : Redactor) (c : ℕ) (r : Text)
    → s.parameter_next ≡ false
    → (c == b'(' || c == b'*') ≡ false
    → round s (c ∷ r) ≡ continue (state_after s (round s (c ∷ []))) r
unfolding round take_parameter read_char switch_char
plain_round s c r flag plain = ground arith

plain_flag :
    (s : Redactor) (c : ℕ)
    → s.parameter_next ≡ false
    → (c == b'(' || c == b'*') ≡ false
    → (state_after s (round s (c ∷ []))).parameter_next ≡ false
unfolding round take_parameter read_char switch_char
plain_flag s c flag plain = ground arith

Hides-after :
    (pre : Text) (t post : Text) (s : Redactor)
    → s.parameter_next ≡ false
    → All (λ c. (c == b'(' || c == b'*') ≡ false) pre
    → ((s' : Redactor) → s'.parameter_next ≡ false → Hides s' t post)
    → Hides s (pre ++ t) post
Hides-after [] t post s flag plain hides = hides s flag
Hides-after (c ∷ pre) t post s flag plain hides =
    Hides-step s (state_after s (round s (c ∷ []))) c (pre ++ t) post
      (λ r. plain_round s c r flag plain.0)
      (Hides-after pre t post (state_after s (round s (c ∷ []))) (plain_flag s c flag plain.0)
        plain.1 hides)

-- The text around a value: what stands before, the keyword with its parenthesis, the value with its
-- parenthesis, and what follows.
abbrev pub around : Text → Text → Text → Text → Text
around pre keyword post value = (pre ++ (keyword ++ b'(' ∷ [])) ++ (value ++ b')' ∷ post)

-- Let a text hold a keyword of letters that is taken for a sensitive command, right before a value
-- in parentheses, with no parenthesis and no asterisk before the keyword. Then what `Redact`
-- returns, once the text is trimmed, is the same whatever the value is, quoted strings in it
-- included, and whatever follows the value.
pub redact-hides :
    (pre : Text) (c : ℕ) (keyword : Text) (v w : Text) (post : Text)
    → All (λ d. (d == b'(' || d == b'*') ≡ false) pre
    → All (λ d. is_letter d ≡ true) (c ∷ keyword)
    → is_sensitive_command (map to_upper (c ∷ keyword)) ≡ true
    → IsValue v
    → IsValue w
    → redact_trimmed (around pre (c ∷ keyword) post v)
      ≡ redact_trimmed (around pre (c ∷ keyword) post w)
unfolding redact_trimmed
redact-hides pre c keyword v w post plain letters sensitive iv iw =
    let (after, same) =
      Hides-after pre ((c ∷ keyword) ++ b'(' ∷ []) post initial refl plain
        (λ s flag. Hides-keyword c keyword s post flag letters sensitive) in
    same v (suc (length (around pre (c ∷ keyword) post v))) iv (omega arith)
    ∙ sym (same w (suc (length (around pre (c ∷ keyword) post w))) iw (omega arith))
