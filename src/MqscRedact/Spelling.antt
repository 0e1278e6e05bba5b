-- ===== src/MqscRedact/Spelling.antt =====
-- The invariant of the main loop on the verb that it collects: its characters come from the text
-- in order, so a value can only be hidden where the text spells a sensitive parameter.
use mathlib.Core.List.Sublistᴰ
use mathlib.Core.List.{Sublistᴰ}
use mq_container.Base.{
  ℕ, ◌≡◌, refl, sym, subst, Bool, true, false, not, ◌&&◌, ◌||◌, [], ◌∷◌, ◌++◌, map, append_assoc,
  append-nil, arith, Text, ◌==◌, if◌then◌else◌, Bool-cases, inl, inr, if-elim,
}
use mq_container.MqscRedact.{
  Redactor, Round, finish, continue, get_parameter_string, take_parameter, read_comment,
  comment_round, read_verb_char, switch_char, read_char, round, initial, start_output, to_upper,
  is_sensitive_command,
}
use mq_container.MqscRedact.Reader.{get_parameter_string_rest, read_comment-append}

-- Some characters of the text, in order, are taken for a sensitive command.
abbrev pub Spells : Text → Type 0
Spells text = (verb : Text) × Sublistᴰ verb text × (is_sensitive_command (map to_upper verb) ≡ true)

module _ {whole : Text} where
  suffix : (s t : Text) → Sublistᴰ (s ++ t) whole → Sublistᴰ t whole
  suffix s t = Sublistᴰ.trans (Sublistᴰ.append (Sublistᴰ.nil-sublist s) (Sublistᴰ.refl t))

  prefix : (s t : Text) → Sublistᴰ (s ++ t) whole → Sublistᴰ s whole
  prefix s t h =
      subst (λ u. Sublistᴰ u whole) (append-nil s)
        (Sublistᴰ.trans (Sublistᴰ.append (Sublistᴰ.refl s) (Sublistᴰ.nil-sublist t)) h)

  skip : (s : Text) (c : ℕ) (t : Text) → Sublistᴰ (s ++ c ∷ t) whole → Sublistᴰ (s ++ t) whole
  skip s c t = Sublistᴰ.trans (Sublistᴰ.append (Sublistᴰ.refl s) (Sublistᴰ.cons (Sublistᴰ.refl t)))

  skip_all : (s t u : Text) → Sublistᴰ (s ++ (t ++ u)) whole → Sublistᴰ (s ++ u) whole
  skip_all s t u = Sublistᴰ.trans (
      Sublistᴰ.append (Sublistᴰ.refl s)
        (Sublistᴰ.append (Sublistᴰ.nil-sublist t) (Sublistᴰ.refl u)))

  reset_verb :
      (b : Bool) (v t : Text)
      → Sublistᴰ (v ++ t) whole
      → Sublistᴰ ((if b then [] else v) ++ t) whole
  reset_verb true v t h = suffix v t h
  reset_verb false v t h = h

-- The verb and what is left to read are spelled by the whole text, and a value is hidden only
-- after a sensitive command.
pub record IsSpelled (whole : Text) (s : Redactor) (r : Text) : Type 0 where
  pub spelled : Sublistᴰ (s.current_verb ++ r) whole
  pub hidden : s.redacting ≡ true → Spells whole

pub initial-IsSpelled : (whole : Text) → IsSpelled whole initial whole
initial-IsSpelled whole = record { spelled = Sublistᴰ.refl whole; hidden = λ h. cc }

abbrev pub KeepsSpelled : Text → Round → Type 0
KeepsSpelled whole (finish t) = Unit
KeepsSpelled whole (continue s r) = IsSpelled whole s r

module _ {whole : Text} where
  take_parameter-IsSpelled :
      (s : Redactor) (r : Text)
      → IsSpelled whole s r
      → IsSpelled whole (take_parameter s r).0 (take_parameter s r).1
  unfolding take_parameter
  take_parameter-IsSpelled s r h =
      if-elim (λ (p : Redactor × Text). IsSpelled whole p.0 p.1) s.parameter_next
        (λ e.
          let (p, eq) = get_parameter_string_rest r in
          record {
            spelled =
                suffix p (get_parameter_string r).1
                  (subst (λ u. Sublistᴰ u whole) (sym eq) (suffix s.current_verb r h.spelled));
            hidden = λ k. cc;
          })
        λ e. h

  read_verb_char-IsSpelled :
      (s : Redactor) (c : ℕ) (r : Text)
      → IsSpelled whole s (c ∷ r)
      → IsSpelled whole (read_verb_char s c) r
  unfolding read_verb_char
  read_verb_char-IsSpelled s c r h = record {
    spelled =
        rw append_assoc
          (reset_verb (s.found_gap || s.parameter_next) s.current_verb (c ∷ r) h.spelled);
    hidden = λ k. elim (Bool-cases (is_sensitive_command (map to_upper s.current_verb))) [
      | inl e ↦ (s.current_verb, prefix s.current_verb (c ∷ r) h.spelled, e)
      | inr e ↦ h.hidden (ground arith)
    ];
  }

  module _ (s : Redactor) (c : ℕ) (r : Text) (h : IsSpelled whole s (c ∷ r)) where
    comment_round-KeepsSpelled : KeepsSpelled whole (comment_round s r)
    unfolding comment_round
    comment_round-KeepsSpelled =
        if-elim (KeepsSpelled whole) (read_comment r).2
          (λ e. record {
            spelled = skip_all s.current_verb (read_comment r).0 (read_comment r).1 (
                subst (λ u. Sublistᴰ (s.current_verb ++ u) whole) (sym (read_comment-append r))
                  (skip s.current_verb c r h.spelled));
            hidden = h.hidden;
          })
          λ e. tt

    -- a round that leaves the verb alone
    skip_char :
        {s' : Redactor}
        → s'.current_verb ≡ s.current_verb
        → s'.redacting ≡ s.redacting
        → KeepsSpelled whole (continue s' r)
    skip_char same_verb same = record {
      spelled = rw same_verb (skip s.current_verb c r h.spelled);
      hidden = rw same h.hidden;
    }

    switch_char-KeepsSpelled : KeepsSpelled whole (switch_char s c r)
    unfolding switch_char
    switch_char-KeepsSpelled =
        if-elim (KeepsSpelled whole) (c == b'+' || c == b'-') (λ e. skip_char refl refl)
          λ e.
            if-elim (KeepsSpelled whole) (c == b'\n') (λ e. skip_char refl refl)
              λ e.
                if-elim (KeepsSpelled whole) (c == b'\t' || c == b'\r' || c == b' ')
                  (λ e. skip_char refl refl)
                  λ e.
                    if-elim (KeepsSpelled whole) (c == b'(')
                      (λ e.
                        read_verb_char-IsSpelled (record s { parameter_next = true }) c r
                          (record { spelled = h.spelled; hidden = h.hidden }))
                      λ e.
                        if-elim (KeepsSpelled whole) (c == b'*' && s.check_comment)
                          (λ e. comment_round-KeepsSpelled) λ e. read_verb_char-IsSpelled s c r h

  read_char-KeepsSpelled :
      (s : Redactor) (r : Text) → IsSpelled whole s r → KeepsSpelled whole (read_char s r)
  unfolding read_char
  read_char-KeepsSpelled s [] h = tt
  read_char-KeepsSpelled s (c ∷ r) h =
      if-elim (KeepsSpelled whole) (s.newline && not (start_output c))
        (λ e. skip_char s c r h refl refl)
        λ e.
          switch_char-KeepsSpelled (record s { newline = false }) c r
            (record { spelled = h.spelled; hidden = h.hidden })

  pub round-KeepsSpelled :
      (s : Redactor) (r : Text) → IsSpelled whole s r → KeepsSpelled whole (round s r)
  unfolding round
  round-KeepsSpelled s r h =
      read_char-KeepsSpelled (take_parameter s r).0 (take_parameter s r).1
        (take_parameter-IsSpelled s r h)
