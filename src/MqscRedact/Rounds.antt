-- ===== src/MqscRedact/Rounds.antt =====
-- The account of a round of `Redact`: what it reads is written, but for the values of sensitive
-- parameters.
use mq_container.Base.{
  ℕ, ◌≤◌, ◌<◌, ◌≡◌, refl, sym, subst, ◌∙◌, Bool, true, false, not, ◌&&◌, ◌||◌, [], ◌∷◌, ◌++◌,
  append_assoc, append-nil, arith, Text, length, ◌==◌, if◌then◌else◌, Bool-cases, inl, inr, if-elim,
  ==→eq,
}
use mq_container.MqscRedact.{
  Redactor, Round, finish, continue, redaction_string, get_parameter_string, take_parameter,
  read_comment, comment_round, read_verb_char, switch_char, read_char, round, start_output,
}
use mq_container.MqscRedact.Spelling.{Spells}
use mq_container.MqscRedact.Reader.{
  get_parameter_string-append, length-get_parameter_string, read_comment-append,
  length-read_comment, read_comment_end,
}

-- `Redacts whole s t`: `t` is `s` with some values, each from its opening parenthesis on, hidden;
-- there are such values only if the text `whole` spells a sensitive parameter.
pub data Redacts (whole : Text) : Text → Text → Type 0 where
  done : Redacts whole [] []
  keep : {s t : Text} (c : ℕ) → Redacts whole s t → Redacts whole (c ∷ s) (c ∷ t)
  hide :
      {s t w : Text} (value : Text)
      → Spells whole
      → w ≡ (b'(' ∷ value) ++ s
      → Redacts whole s t
      → Redacts whole w (redaction_string ++ t)

module _ (whole : Text) where
  Redacts-append : (w : Text) {s t : Text} → Redacts whole s t → Redacts whole (w ++ s) (w ++ t)
  Redacts-append [] h = h
  Redacts-append (c ∷ w) h = keep c (Redacts-append w h)

  Redacts-refl : (w : Text) → Redacts whole w w
  Redacts-refl [] = done
  Redacts-refl (c ∷ w) = keep c (Redacts-refl w)

  -- What is written for the text read so far, and what is still to be accounted for: an opening
  -- parenthesis that was read is written with its value.
  abbrev pub shown : Redactor → Text
  shown s = s.return_str ++ (if s.parameter_next then [] else s.original_string)

  abbrev pub remaining : Redactor → Text → Text
  remaining s r = if s.parameter_next then b'(' ∷ r else r

  -- One step from `s`, with `r` to read, to `s'`, with `r'` to read, in the account.
  pub record Accounts (s : Redactor) (r : Text) (s' : Redactor) (r' : Text) : Type 0 where
    pub written : Text
    pub shown_eq : shown s' ≡ shown s ++ written
    pub redacts :
        {v : Text}
        → Redacts whole (remaining s' r') v
        → Redacts whole (remaining s r) (written ++ v)

  Accounts-newline : (s : Redactor) (r : Text) → Accounts s r (record s { newline = false }) r
  Accounts-newline s r = record {
    written = [];
    shown_eq = sym (append-nil (shown s));
    redacts = λ h. h;
  }

  abbrev written_value : Bool → Text → Text
  written_value redacting r = if redacting then redaction_string else (get_parameter_string r).0

  Redacts-written_value :
      (redacting : Bool) (r : Text) {v : Text}
      → (redacting ≡ true → Spells whole)
      → Redacts whole (get_parameter_string r).1 v
      → Redacts whole (b'(' ∷ r) (written_value redacting r ++ v)
  unfolding get_parameter_string
  Redacts-written_value true r spells h =
      hide _ (spells refl) (sym (get_parameter_string-append r)) h
  Redacts-written_value false r spells h =
      rw (← get_parameter_string-append r) (Redacts-append (get_parameter_string r).0 h)

  Redacts-take_parameter :
      (s : Redactor) (r : Text) {v : Text}
      → (s.redacting ≡ true → Spells whole)
      → Redacts whole (take_parameter s r).1 v
      → Redacts whole
          (remaining s r)
          ((if s.parameter_next then written_value s.redacting r else []) ++ v)
  unfolding take_parameter
  Redacts-take_parameter s r spells h = elim (Bool-cases s.parameter_next) [
    | inl e ↦ rw e (Redacts-written_value s.redacting r spells (rw (e, take_parameter) at h))
    | inr e ↦ rw e (rw (e, take_parameter) at h)
  ]

  take_parameter_next : (s : Redactor) (r : Text) → (take_parameter s r).0.parameter_next ≡ false
  unfolding take_parameter
  take_parameter_next s r = ground arith

  shown-take_parameter :
      (s : Redactor) (r : Text)
      → shown (take_parameter s r).0
        ≡ shown s ++ (if s.parameter_next then written_value s.redacting r else [])
  unfolding take_parameter
  shown-take_parameter s r = ground (
    arith,
    append-nil (s.return_str ++ s.original_string),
    append-nil s.return_str,
    append-nil (s.return_str ++ written_value s.redacting r),
  )

  take_parameter-Accounts :
      (s : Redactor) (r : Text)
      → (s.redacting ≡ true → Spells whole)
      → Accounts s r (take_parameter s r).0 (take_parameter s r).1
  take_parameter-Accounts s r spells = record {
    written = if s.parameter_next then written_value s.redacting r else [];
    shown_eq = shown-take_parameter s r;
    redacts = λ h. Redacts-take_parameter s r spells (rw (take_parameter_next s r) at h);
  }

  length-take_parameter : (s : Redactor) (r : Text) → length (take_parameter s r).1 ≤ length r
  unfolding take_parameter
  length-take_parameter s r = ground (arith, length-get_parameter_string r)

  -- A step that takes one character, which is written unless it opens a value.
  char_step :
      (s : Redactor) (c : ℕ) (r : Text) (s' : Redactor)
      → s.parameter_next ≡ false
      → (s'.parameter_next ≡ true → c ≡ b'(')
      → shown s' ≡ shown s ++ (if s'.parameter_next then [] else c ∷ [])
      → Accounts s (c ∷ r) s' r
  char_step s c r s' e opens eq = record {
    written = if s'.parameter_next then [] else c ∷ [];
    shown_eq = eq;
    redacts = λ {v} h. rw e (go s'.parameter_next opens v h);
  }
    where
      go :
          (b : Bool)
          → (b ≡ true → c ≡ b'(')
          → (v : Text) → Redacts whole (if b then b'(' ∷ r else r) v
          → Redacts whole (c ∷ r) ((if b then [] else c ∷ []) ++ v)
      go true o v h = rw (o refl) h
      go false o v h = keep c h

  -- A round accounted for: what it returns, or what it goes on with and how much is left to read.
  abbrev pub Accounted : Redactor → Text → Round → Type 0
  Accounted s r (finish t) = (w : Text) × (t ≡ shown s ++ w) × Redacts whole (remaining s r) w
  Accounted s r (continue s' r') = Accounts s r s' r' × (length r' < length r)

  module _ (s : Redactor) (plain : s.parameter_next ≡ false) (c : ℕ) (r : Text) where
    step_plain :
        (s' : Redactor)
        → s'.parameter_next ≡ false
        → shown s' ≡ shown s ++ c ∷ []
        → Accounted s (c ∷ r) (continue s' r)
    step_plain s' e eq = (char_step s c r s' plain (λ h. cc) (rw e (rw e at eq)), omega arith)

    step_verb : Accounted s (c ∷ r) (continue (read_verb_char s c) r)
    unfolding read_verb_char
    step_verb =
        step_plain (read_verb_char s c) plain
          (ground (arith, plain, append_assoc s.return_str s.original_string (c ∷ [])))

    step_open :
        c ≡ b'('
        → Accounted s (c ∷ r) (continue (read_verb_char (record s { parameter_next = true }) c) r)
    unfolding read_verb_char
    step_open e = (
      char_step s c r (read_verb_char (record s { parameter_next = true }) c) plain (λ h. e)
          (ground (arith, plain, append-nil (s.return_str ++ s.original_string))),
      omega arith,
    )

    -- the character is added to what is to be written
    step_kept :
        {s' : Redactor}
        → s'.parameter_next ≡ s.parameter_next
        → s'.return_str ≡ s.return_str
        → s'.original_string ≡ s.original_string ++ c ∷ []
        → Accounted s (c ∷ r) (continue s' r)
    step_kept {s'} flag written kept = step_plain s' (flag ∙ plain) (
        rw (flag, plain, written, kept)
          (sym (append_assoc s.return_str s.original_string (c ∷ []))))

    comment_shown :
        c ≡ b'*'
        → s.return_str ++ (s.original_string ++ b'*' ∷ (read_comment r).0)
          ≡ shown s ++ c ∷ (read_comment r).0
    comment_shown e =
        rw (plain, e)
          (sym (append_assoc s.return_str s.original_string (b'*' ∷ (read_comment r).0)))

    -- The comment, with its new line, is kept.
    comment-Redacts :
        {v : Text}
        → Redacts whole (read_comment r).1 v
        → Redacts whole (c ∷ r) (c ∷ (read_comment r).0 ++ v)
    comment-Redacts {v} h = keep c (
        subst (λ t. Redacts whole t ((read_comment r).0 ++ v)) (read_comment-append r)
          (Redacts-append (read_comment r).0 h))

    step_comment : c ≡ b'*' → Accounted s (c ∷ r) (comment_round s r)
    unfolding comment_round
    step_comment e =
        if-elim (Accounted s (c ∷ r)) (read_comment r).2
          (λ ended. (
            record {
              written = c ∷ (read_comment r).0;
              shown_eq = rw plain (rw plain at (comment_shown e));
              redacts = λ h. rw plain (comment-Redacts (rw plain at h));
            },
            omega (arith, length-read_comment r),
          ))
          λ open_end. (
            c ∷ (read_comment r).0,
            comment_shown e,
            rw (plain, read_comment_end r open_end) (keep c (Redacts-refl r)),
          )

    step_switch : Accounted s (c ∷ r) (switch_char s c r)
    unfolding switch_char
    step_switch =
        if-elim (Accounted s (c ∷ r)) (c == b'+' || c == b'-') (λ h. step_kept refl refl refl)
          λ h.
            if-elim (Accounted s (c ∷ r)) (c == b'\n') (λ h. step_kept refl refl refl)
              λ h.
                if-elim (Accounted s (c ∷ r)) (c == b'\t' || c == b'\r' || c == b' ')
                  (λ h. step_kept refl refl refl)
                  λ h.
                    if-elim (Accounted s (c ∷ r)) (c == b'(') (λ h. step_open (==→eq c b'(' h))
                      λ h.
                        if-elim (Accounted s (c ∷ r)) (c == b'*' && s.check_comment)
                          (λ h. step_comment (ground arith)) λ h. step_verb

  Accounted-trans :
      (s : Redactor) (r : Text) (s' : Redactor) (r' : Text) (o : Round)
      → Accounts s r s' r'
      → length r' ≤ length r
      → Accounted s' r' o
      → Accounted s r o
  Accounted-trans s r s' r' (finish t) a le (w, eq, h) =
      (a.written ++ w, rw (eq, a.shown_eq) (append_assoc (shown s) a.written w), a.redacts h)
  Accounted-trans s r s' r' (continue u v) a le (b, lt) = (
    record {
      written = a.written ++ b.written;
      shown_eq = rw (b.shown_eq, a.shown_eq) (append_assoc (shown s) a.written b.written);
      redacts = λ {v} h. rw (append_assoc a.written b.written v) (a.redacts (b.redacts h));
    },
    omega arith,
  )

  read_char-Accounted :
      (s : Redactor) (r : Text) → s.parameter_next ≡ false → Accounted s r (read_char s r)
  unfolding read_char
  read_char-Accounted s [] plain =
      ([], rw plain (sym (append-nil (s.return_str ++ s.original_string))), rw plain done)
  read_char-Accounted s (c ∷ r) plain =
      if-elim (Accounted s (c ∷ r)) (s.newline && not (start_output c))
        (λ h. step_kept s plain c r refl refl refl)
        λ h.
          Accounted-trans s (c ∷ r) (record s { newline = false }) (c ∷ r)
            (switch_char (record s { newline = false }) c r) (Accounts-newline s (c ∷ r))
            (omega arith) (step_switch (record s { newline = false }) plain c r)

  pub round-Accounted :
      (s : Redactor) (r : Text) → (s.redacting ≡ true → Spells whole) → Accounted s r (round s r)
  unfolding round
  round-Accounted s r spells =
      Accounted-trans s r (take_parameter s r).0 (take_parameter s r).1 (round s r)
        (take_parameter-Accounts s r spells) (length-take_parameter s r)
        (read_char-Accounted (take_parameter s r).0 (take_parameter s r).1
          (take_parameter_next s r))
