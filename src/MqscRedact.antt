-- ===== src/MqscRedact.antt =====
-- internal/mqscredact/mqscredact.go: `Redact` and its helpers. The `bufio.Reader` is the text that
-- is still to be read; it fails only at the end of the text, so the error result is always nil.
-- A loop that reads a parameter within a round takes fuel: one unit for each character.
pub mod Reader
pub mod Spelling
pub mod Rounds
pub mod Account
pub mod Values
pub mod Hiding
pub mod Without
mod Tests
use mq_container.Base.{
  ℕ, zero, suc, ◌-◌, Bool, true, false, not, ◌&&◌, ◌||◌, List, [], ◌∷◌, ◌++◌, map, Option, none,
  some, Text, codes, contains, trim_space, length, leb, ◌==◌, if◌then◌else◌,
}

-- `sensitiveParameters`
abbrev pub sensitive_parameters : List Text
sensitive_parameters = codes "LDAPPWD" ∷ codes "PASSWORD" ∷ codes "SSLCRYP" ∷ []

-- `redactionString`
abbrev pub redaction_string : Text
redaction_string = codes "(*********)"

-- the regular expression `[^:0-9\s]` at one character: the start of some data
unfoldable pub start_output : ℕ → Bool
start_output c = not (
    c == b':'
    || (leb b'0' c && leb c b'9')
    || c == b'\t'
    || c == b'\n'
    || c == 12
    || c == b'\r'
    || c == b' ')

-- Where `findEndOfParamterString` is when it reads a character: in its outer loop, in
-- `NewLineLoop` or in `CommentLoop`.
pub data QuoteLoop : Type 0 where
  outer new_line comment : QuoteLoop

-- The loop that reads the next character; `none` after the closing quote.
unfoldable pub next_loop : ℕ → QuoteLoop → ℕ → Option QuoteLoop
unfolding start_output
next_loop string_denoter outer c =
    if c == string_denoter then none else if c == b'\n' then some new_line else some outer
next_loop string_denoter new_line c =
    if not (start_output c)
    then some new_line
    else if c == b'*'
    then some comment
    else if c == string_denoter
    then none
    else some outer
next_loop string_denoter comment c = if c == b'\n' then some new_line else some comment

-- `findEndOfParamterString`: what it returns, and what the reader has left.
pub find_end_of_parameter_string : ℕ → QuoteLoop → Text → Text × Text
find_end_of_parameter_string string_denoter l [] = ([], [])
find_end_of_parameter_string string_denoter l (c ∷ r) = elim (next_loop string_denoter l c) [
  | none ↦ (c ∷ [], r)
  | some l' ↦
      let (parameter, rest) = find_end_of_parameter_string string_denoter l' r in
      (c ∷ parameter, rest)
]

-- `case '\'', '"'` of `getParameterString`
pub quoted_part : ℕ → Text → Text × Text
quoted_part c r =
    if c == b'\'' || c == b'"' then find_end_of_parameter_string c outer r else ([], r)

-- the loop of `getParameterString`
pub read_parameter : ℕ → Text → Text × Text
read_parameter zero r = ([], r)
read_parameter (suc fuel) [] = ([], [])
read_parameter (suc fuel) (c ∷ r) =
    let (quoted, r') = quoted_part c r in
    let more = read_parameter fuel r' in
    if c == b')' then (c ∷ [], r) else (c ∷ quoted ++ more.0, more.1)

-- `getParameterString`
pub get_parameter_string : Text → Text × Text
get_parameter_string r =
    let (parameter, rest) = read_parameter (suc (length r)) r in (b'(' ∷ parameter, rest)

-- `isSensitiveCommand`
pub is_sensitive_in : List Text → Text → Bool
is_sensitive_in [] command = false
is_sensitive_in (v ∷ vs) command = contains command v || is_sensitive_in vs command

pub is_sensitive_command : Text → Bool
unfolding is_sensitive_in
is_sensitive_command command = is_sensitive_in sensitive_parameters command

-- `strings.ToUpper`, at the characters that it takes to an ASCII letter: the lower case letters,
-- the dotless i and the long s. Of the others no search for an ASCII word can tell the result.
unfoldable pub to_upper : ℕ → ℕ
to_upper c =
    if leb b'a' c && leb c b'z'
    then c - 32
    else if c == 0x131
    then b'I'
    else if c == 0x17f
    then b'S'
    else c

-- the variables of `Redact`
pub record Redactor : Type 0 where
  pub return_str : Text
  pub current_verb : Text
  pub original_string : Text
  pub line_continuation : Bool
  pub found_gap : Bool
  pub parameter_next : Bool
  pub redacting : Bool
  pub check_comment : Bool
  pub newline : Bool

-- `resetAllParameters`
abbrev pub reset_all_parameters : Redactor → Redactor
reset_all_parameters s = record s {
  current_verb = [];
  original_string = [];
  line_continuation = false;
  found_gap = false;
  parameter_next = false;
  redacting = false;
  check_comment = true;
}

abbrev pub append_original : Redactor → Text → Redactor
append_original s t = record s { original_string = s.original_string ++ t }

-- `if parameterNext` at the head of the loop
pub take_parameter : Redactor → Text → Redactor × Text
take_parameter s r =
    let (parameter, rest) = get_parameter_string r in
    if s.parameter_next
    then (
      reset_all_parameters (record s {
        return_str = s.return_str ++ (if s.redacting then redaction_string else parameter);
      }),
      rest,
    )
    else (s, r)

-- `CommentLoop` of `Redact`: what it reads, what is left, and whether it met the new line.
pub read_comment : Text → Text × Text × Bool
read_comment [] = ([], [], false)
read_comment (c ∷ r) =
    let more = read_comment r in
    if c == b'\n' then (c ∷ [], r, true) else (c ∷ more.0, more.1, more.2)

-- the part of the loop below the `switch`
pub read_verb_char : Redactor → ℕ → Redactor
read_verb_char s c =
    let completed = s.found_gap || s.parameter_next in
    let verb = map to_upper s.current_verb in
    record s {
      return_str = if completed then s.return_str ++ s.original_string else s.return_str;
      current_verb = (if completed then [] else s.current_verb) ++ c ∷ [];
      original_string = (if completed then [] else s.original_string) ++ c ∷ [];
      line_continuation = false;
      found_gap = if completed then false else s.found_gap;
      redacting = if completed && is_sensitive_command verb then true else s.redacting;
      check_comment = false;
    }

-- A round either ends the loop with the text to return, or goes on.
pub data Round : Type 0 where
  finish : Text → Round
  continue : Redactor → Text → Round

-- `case '*'` where a comment may start
pub comment_round : Redactor → Text → Round
comment_round s r =
    let (skipped, rest, ended) = read_comment r in
    let s' = append_original s (b'*' ∷ skipped) in
    if ended
    then continue (record s' { check_comment = true; newline = true }) rest
    else finish (s'.return_str ++ s'.original_string)

-- the `switch` on a character that is no leading white space, digit or colon of a line
pub switch_char : Redactor → ℕ → Text → Round
unfolding comment_round read_verb_char
switch_char s c r =
    if c == b'+' || c == b'-'
    then continue
        (append_original (record s { line_continuation = true; found_gap = false }) (c ∷ [])) r
    else if c == b'\n'
    then continue
        (append_original
          (record s {
            check_comment = true;
            newline = true;
            found_gap = if not s.line_continuation then true else s.found_gap;
          })
          (c ∷ []))
        r
    else if c == b'\t' || c == b'\r' || c == b' '
    then continue
        (append_original
          (record s { found_gap = if not s.line_continuation then true else s.found_gap }) (c ∷ []))
        r
    else if c == b'('
    then continue (read_verb_char (record s { parameter_next = true }) c) r
    else if c == b'*' && s.check_comment
    then comment_round s r
    else continue (read_verb_char s c) r

-- the body of `MainLoop` once the next character is asked for
pub read_char : Redactor → Text → Round
unfolding switch_char start_output
read_char s [] = finish (s.return_str ++ s.original_string)
read_char s (c ∷ r) =
    if s.newline && not (start_output c)
    then continue (append_original s (c ∷ [])) r
    else switch_char (record s { newline = false }) c r

pub round : Redactor → Text → Round
unfolding take_parameter read_char
round s r = let (s', r') = take_parameter s r in read_char s' r'

pub main_loop : ℕ → Redactor → Text → Option Text
main_loop zero s r = none
main_loop (suc fuel) s r = elim (round s r) [
  | finish t ↦ some t
  | continue s' r' ↦ main_loop fuel s' r'
]

abbrev pub initial : Redactor
initial = record {
  return_str = [];
  current_verb = [];
  original_string = [];
  line_continuation = false;
  found_gap = false;
  parameter_next = false;
  redacting = false;
  check_comment = true;
  newline = true;
}

-- `Redact` behind its `strings.TrimSpace`. Each round reads a character at least.
pub redact_trimmed : Text → Option Text
redact_trimmed out = main_loop (suc (length out)) initial out

-- `Redact`; `none` stands for fuel that ran out.
unfoldable pub redact : Text → Option Text
unfolding redact_trimmed
redact out = redact_trimmed (trim_space out)
