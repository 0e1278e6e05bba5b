-- ===== src/QmName/Valid.antt =====
-- What a name from the host name is, and that data directories of different queue managers differ.
use mathlib.Core.List.{Sublistᴰ}
use mq_container.Base.{
  ℕ, ◌≡◌, refl, sym, ap, subst, ◌∙◌, ◌⊎◌, Bool, true, false, not, ◌||◌, [], ◌∷◌, Option, none, some,
  Text, codes, contains, has_prefix, eq_text, replace_char, All, Env, arith, ◌==◌, if-elim,
  Bool-cases, inl, inr,
}
use mq_container.QmName.{
  is_name_char, from_hostname, choose_name, sanitize_queue_manager_name, get_queue_manager_name,
  replace_chars_in_qm_name,
}

-- The queue manager's name that comes from a host name keeps its order, has only characters that
-- names may have, and is the host name itself if that has no others.
pub sanitize_lem :
    (name : Text)
    → All (λ c. is_name_char c ≡ true) (sanitize_queue_manager_name name)
      × Sublistᴰ (sanitize_queue_manager_name name) name
      × (All (λ c. is_name_char c ≡ true) name → sanitize_queue_manager_name name ≡ name)
unfolding sanitize_queue_manager_name
sanitize_lem [] = (tt, Sublistᴰ.slnil, λ h. refl)
sanitize_lem (c ∷ name) =
    let (valid, sublist, same) = sanitize_lem name in
    if-elim
      (λ t.
        All (λ c. is_name_char c ≡ true) t
        × Sublistᴰ t (c ∷ name)
        × (All (λ c. is_name_char c ≡ true) (c ∷ name) → t ≡ c ∷ name))
      (is_name_char c)
      (λ e. ((e, valid), Sublistᴰ.cons-cons refl sublist, λ h. ap (λ t. c ∷ t) (same h.1)))
      (λ e. (valid, Sublistᴰ.cons sublist, λ h. cc))

-- A character that a text does not contain is not replaced.
replace_char_absent :
    (d : ℕ) (new s : Text) → contains s (d ∷ []) ≡ false → replace_char d new s ≡ s
unfolding contains has_prefix replace_char
replace_char_absent d new [] h = refl
replace_char_absent d new (c ∷ s) h = ground (arith, replace_char_absent d new s)

-- The two tests in `replaceCharsInQMName` make no difference.
replaced :
    (s : Text)
    → replace_chars_in_qm_name s ≡ replace_char b'/' (codes "&") (replace_char b'.' (codes "!") s)
unfolding replace_chars_in_qm_name
replaced s = ground (
  arith,
  replace_char_absent b'.' (codes "!") s,
  replace_char_absent b'/' (codes "&") s,
  replace_char_absent b'/' (codes "&") (replace_char b'.' (codes "!") s),
)

abbrev is_directory_char : ℕ → Bool
is_directory_char c = not (c == b'!' || c == b'&')

replaced_injective :
    (s t : Text)
    → All (λ c. is_directory_char c ≡ true) s
    → All (λ c. is_directory_char c ≡ true) t
    → replace_char b'/' (codes "&") (replace_char b'.' (codes "!") s)
      ≡ replace_char b'/' (codes "&") (replace_char b'.' (codes "!") t)
    → s ≡ t
unfolding replace_char
replaced_injective [] [] hs ht e = refl
replaced_injective [] (d ∷ t) hs ht e = ground arith
replaced_injective (c ∷ s) [] hs ht e = ground arith
replaced_injective (c ∷ s) (d ∷ t) hs ht e = ground (arith, replaced_injective s t hs.1 ht.1)

-- Two queue managers have different data directories, if their names differ and have no '!' and
-- no '&': the name can be had back from the directory.
pub replace_chars-injective :
    (s t : Text)
    → All (λ c. is_directory_char c ≡ true) s
    → All (λ c. is_directory_char c ≡ true) t
    → replace_chars_in_qm_name s ≡ replace_chars_in_qm_name t
    → s ≡ t
replace_chars-injective s t hs ht e =
    replaced_injective s t hs ht (sym (replaced s) ∙ e ∙ replaced t)

named_by_host :
    (hostname : Option Text) (name : Text)
    → from_hostname hostname ≡ some name
    → All (λ c. is_name_char c ≡ true) name
named_by_host none name h = cc
named_by_host (some host) name h =
    subst (λ t. All (λ c. is_name_char c ≡ true) t) (ground arith) (sanitize_lem host).0

chosen :
    (found hostname : Option Text) (name : Text)
    → choose_name found hostname ≡ some name
    → found ≡ some name ⊎ All (λ c. is_name_char c ≡ true) name
unfolding choose_name
chosen none hostname name h = inr (named_by_host hostname name h)
chosen (some t) hostname name h = elim (Bool-cases (eq_text t [])) [
  | inl e ↦ inr (named_by_host hostname name (cc))
  | inr e ↦ inl (ground arith)
]

-- A name that `GetQueueManagerName` returns is the one the environment has, or it has only
-- characters that a name may have, whatever the host is called.
pub get_queue_manager_name_lem :
    (env : Env) (hostname : Option Text) (name : Text)
    → get_queue_manager_name env hostname ≡ some name
    → env (codes "MQ_QMGR_NAME") ≡ some name ⊎ All (λ c. is_name_char c ≡ true) name
unfolding get_queue_manager_name
get_queue_manager_name_lem env hostname name h = chosen (env (codes "MQ_QMGR_NAME")) hostname name h
