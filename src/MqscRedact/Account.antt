-- ===== src/MqscRedact/Account.antt =====
-- The account of what `Redact` does to a text: it ends, and it changes parameter values only.
use mathlib.Core.List.Sublistᴰ
use mq_container.Base.{
  codes, contains, has_prefix, ℕ, zero, suc, ◌<◌, ◌≡◌, refl, ap, subst, ◌∙◌, some, ◌∷◌, ◌++◌,
  append_assoc, arith, Text, length, trim_space,
}
use mq_container.MqscRedact.{
  Redactor, Round, finish, continue, round, main_loop, initial, redact_trimmed, redact, to_upper,
  is_sensitive_command,
}
use mq_container.MqscRedact.Spelling.{
  Spells, IsSpelled, KeepsSpelled, initial-IsSpelled, round-KeepsSpelled,
}
use mq_container.MqscRedact.Rounds.{
  Redacts, done, keep, hide, shown, remaining, Accounted, round-Accounted,
}

module _ (whole : Text) where
  -- With fuel above what is left to read the loop returns what was written, and a text that the rest
  -- is redacted to.
  abbrev Returns : ℕ → Redactor → Text → Type 0
  Returns fuel s r =
      (w : Text) × (main_loop fuel s r ≡ some (shown whole s ++ w))
      × Redacts whole (remaining whole s r) w

  main_loop-Redacts :
      (fuel : ℕ) (s : Redactor) (r : Text)
      → IsSpelled whole s r
      → length r < fuel
      → Returns fuel s r
  unfolding main_loop
  main_loop-Redacts zero s r i h = absurd (omega arith)
  main_loop-Redacts (suc fuel) s r i h =
      go (round s r) refl (round-Accounted whole s r i.hidden) (round-KeepsSpelled s r i)
        (λ s' r' i'. main_loop-Redacts fuel s' r' i')
    where
      go :
          (o : Round)
          → round s r ≡ o
          → Accounted whole s r o
          → KeepsSpelled whole o
          → ((s' : Redactor) (r' : Text)
              → IsSpelled whole s' r'
              → length r' < fuel
              → Returns fuel s' r')
          → Returns (suc fuel) s r
      go (finish t) e (w, eq, red) k ih = (w, rw (e, main_loop) (ap some eq), red)
      go (continue s' r') e (a, lt) k ih =
          let (w, eq, red) = ih s' r' k (omega arith) in
          (
            a.written ++ w,
            rw (e, main_loop)
                (eq ∙ rw a.shown_eq (ap some (append_assoc (shown whole s) a.written w))),
            a.redacts red,
          )

pub redact_trimmed-Redacts :
    (out : Text) → (t : Text) × (redact_trimmed out ≡ some t) × Redacts out out t
unfolding redact_trimmed
redact_trimmed-Redacts out =
    main_loop-Redacts out (suc (length out)) initial out (initial-IsSpelled out) (omega arith)

-- `Redact` returns, for every text, and its result is the text trimmed of white space at both ends
-- in which some stretches that begin at an opening parenthesis are replaced by `redactionString`;
-- every other character stays, in order. There are such stretches only if characters of the text,
-- in order, are taken for a sensitive command.
pub redact-Redacts :
    (out : Text) → (t : Text) × (redact out ≡ some t) × Redacts (trim_space out) (trim_space out) t
unfolding redact
redact-Redacts out = redact_trimmed-Redacts (trim_space out)

Redacts-unspelled : {whole s t : Text} → ¬ Spells whole → Redacts whole s t → t ≡ s
Redacts-unspelled unspelled done = refl
Redacts-unspelled unspelled (keep c h) = ap (λ u. c ∷ u) (Redacts-unspelled unspelled h)
Redacts-unspelled unspelled (hide value spells eq h) = absurd (unspelled spells)

-- A text that spells no sensitive parameter comes back as it is, trimmed.
pub redact_unspelled : (out : Text) → ¬ Spells (trim_space out) → redact out ≡ some (trim_space out)
redact_unspelled out unspelled =
    let (t, eq, h) = redact-Redacts out in eq ∙ ap some (Redacts-unspelled unspelled h)

password : Text
password = codes "PASSWORD"

password-Spells : Spells password
unfolding password is_sensitive_command to_upper contains has_prefix
password-Spells = (password, Sublistᴰ.refl password, refl)

-- Every round that goes on has read a character at least, and more fuel changes nothing.
pub round-shorter :
    (s : Redactor) (r : Text) {s' : Redactor} {r' : Text}
    → round s r ≡ continue s' r'
    → length r' < length r
round-shorter s r e =
    (subst (Accounted password s r) e (round-Accounted password s r (λ _. password-Spells))).1

pub main_loop-fuel :
    (f g : ℕ) (s : Redactor) (r : Text)
    → length r < f
    → length r < g
    → main_loop f s r ≡ main_loop g s r
unfolding main_loop
main_loop-fuel zero g s r hf hg = absurd (omega arith)
main_loop-fuel (suc f) zero s r hf hg = absurd (omega arith)
main_loop-fuel (suc f) (suc g) s r hf hg = go (round s r) refl (λ s' r'. main_loop-fuel f g s' r')
  where
    go :
        (o : Round)
        → round s r ≡ o
        → ((s' : Redactor) (r' : Text)
            → length r' < f
            → length r' < g
            → main_loop f s' r' ≡ main_loop g s' r')
        → main_loop (suc f) s r ≡ main_loop (suc g) s r
    go (finish t) e ih = rw (e, main_loop)
    go (continue s' r') e ih =
        let lt = round-shorter s r e in rw (e, main_loop) (ih s' r' (omega arith) (omega arith))
