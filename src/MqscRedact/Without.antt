-- ===== src/MqscRedact/Without.antt =====
-- Texts that spell no sensitive parameter: each of the parameters has the letter P.
use mathlib.Core.List.{Sublistᴰ}
use mq_container.Base.{
  ℕ, ◌≡◌, true, false, [], ◌∷◌, map, arith, Text, ◌==◌, All, contains, has_prefix, codes,
  Bool-cases, inl, inr,
}
use mq_container.MqscRedact.{to_upper, is_sensitive_command}
use mq_container.MqscRedact.Spelling.{Spells}

abbrev Lacks : ℕ → Text → Type 0
Lacks d = All (λ c. (c == d) ≡ false)

Lacks-sublist :
    {s t : Text} (d : ℕ) → Sublistᴰ s t → Lacks d (map to_upper t) → Lacks d (map to_upper s)
Lacks-sublist d Sublistᴰ.slnil h = h
Lacks-sublist d (Sublistᴰ.cons l) h = Lacks-sublist d l h.1
Lacks-sublist d (Sublistᴰ.cons-cons e l) h = (rw e h.0, Lacks-sublist d l h.1)

Lacks-prefix : (d : ℕ) (s p : Text) → has_prefix s p ≡ true → Lacks d s → Lacks d p
unfolding has_prefix
Lacks-prefix d s [] e h = tt
Lacks-prefix d [] (c ∷ p) e h = cc
Lacks-prefix d (b ∷ s) (c ∷ p) e h = (ground arith, Lacks-prefix d s p (ground arith) h.1)

Lacks-contains : (d : ℕ) (s p : Text) → contains s p ≡ true → Lacks d s → Lacks d p
unfolding contains
Lacks-contains d [] p e h = Lacks-prefix d [] p e h
Lacks-contains d (c ∷ s) p e h = elim (Bool-cases (has_prefix (c ∷ s) p)) [
  | inl k ↦ Lacks-prefix d (c ∷ s) p k h
  | inr k ↦ Lacks-contains d s p (ground arith) h.1
]

pub not-Spells : (text : Text) → Lacks b'P' (map to_upper text) → ¬ Spells text
unfolding is_sensitive_command
not-Spells text h (verb, l, e) =
    let lacks = Lacks-sublist b'P' l h in
    ground (
      arith,
      Lacks-contains b'P' (map to_upper verb) (codes "LDAPPWD"),
      Lacks-contains b'P' (map to_upper verb) (codes "PASSWORD"),
      Lacks-contains b'P' (map to_upper verb) (codes "SSLCRYP"),
    )
