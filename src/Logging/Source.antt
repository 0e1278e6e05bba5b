-- ===== src/Logging/Source.antt =====
-- Which sources are valid and mirrored, in terms of the parts of MQ_LOGGING_CONSOLE_SOURCE.
use mq_container.Base.{
  push_head, ℕ, ◌≡◌, ◌≢◌, refl, ap, Bool, true, false, not, ◌&&◌, ◌||◌, List, [], ◌∷◌, Text, codes,
  eq_text, eq_text→eq, trim_space, split_on, Env, all, arith, if◌then◌else◌, ◌⊎◌, inl, inr,
  Bool-cases,
}
use mq_container.Logging.{
  lower_env, get_log_format, get_mq_log_console_source, is_permitted, valid_loop,
  is_log_console_source_valid, source_loop, check_log_source_for_mirroring,
}

-- some part, trimmed, is the source
abbrev pub has_part : Text → List Text → Bool
has_part source [] = false
has_part source (part ∷ rest) = eq_text (trim_space part) source || has_part source rest

valid_loop-all :
    (parts : List Text) → valid_loop true parts ≡ all (λ p. is_permitted (trim_space p)) parts
unfolding valid_loop
valid_loop-all [] = refl
valid_loop-all (p ∷ parts) = ground (arith, valid_loop-all parts)

abbrev IsSource : Text → Type 0
IsSource source = (source ≡ codes "qmgr") ⊎ (source ≡ codes "web") ⊎ (source ≡ codes "mqsc")

-- Where a text is compared and equal, it stands for the other text.
eq_text_other : (s t u : Text) → eq_text s t ≡ true → eq_text s u ≡ eq_text t u
eq_text_other s t u e = ap (λ x. eq_text x u) (eq_text→eq s t e)

source_loop-has_part :
    (source : Text) (parts : List Text)
    → IsSource source
    → source_loop source parts ≡ has_part source parts
unfolding source_loop eq_text
source_loop-has_part source [] h = refl
source_loop-has_part source (p ∷ parts) (inl e) =
    let rest = source_loop-has_part source parts (inl e) in rw e (ground arith)
source_loop-has_part source (p ∷ parts) (inr (inl e)) =
    let rest = source_loop-has_part source parts (inr (inl e)) in
    let other = eq_text_other (trim_space p) (codes "qmgr") (codes "web") in rw e (ground arith)
source_loop-has_part source (p ∷ parts) (inr (inr e)) =
    let rest = source_loop-has_part source parts (inr (inr e)) in
    let first = eq_text_other (trim_space p) (codes "qmgr") (codes "mqsc") in
    let second = eq_text_other (trim_space p) (codes "web") (codes "mqsc") in rw e (ground arith)

-- A source is mirrored exactly when it is a part of MQ_LOGGING_CONSOLE_SOURCE, blanks and case
-- aside; where the variable is blank, those of the queue manager and the web server are.
pub check_log_source_lem :
    (env : Env) (source : Text)
    → IsSource source
    → check_log_source_for_mirroring env source ≡ (
        if eq_text (get_mq_log_console_source env) []
        then eq_text source (codes "qmgr") || eq_text source (codes "web")
        else has_part source (split_on b',' (get_mq_log_console_source env)))
unfolding check_log_source_for_mirroring
check_log_source_lem env source h =
    let parts = source_loop-has_part source (split_on b',' (get_mq_log_console_source env)) h in
    ground arith

push_head_cons : (c : ℕ) (ws : List Text) → push_head c ws ≢ []
push_head_cons c [] h = cc
push_head_cons c (w ∷ ws) h = cc

split_on_cons : (sep : ℕ) (s : Text) → split_on sep s ≢ []
unfolding split_on
split_on_cons sep [] h = cc
split_on_cons sep (c ∷ s) h = ground (arith, push_head_cons c (split_on sep s))

valid_loop_start : (parts : List Text) → parts ≢ [] → valid_loop false parts ≡ valid_loop true parts
unfolding valid_loop
valid_loop_start [] h = elim (h refl) [ ]
valid_loop_start (p ∷ parts) h = refl

-- The variable is valid exactly when each of its parts is, blanks and case aside, a source or empty.
pub is_log_console_source_valid_lem :
    (env : Env)
    → is_log_console_source_valid env
      ≡ all (λ p. is_permitted (trim_space p)) (split_on b',' (get_mq_log_console_source env))
unfolding is_log_console_source_valid split_on is_permitted trim_space eq_text
is_log_console_source_valid_lem env =
    let source = get_mq_log_console_source env in
    elim (Bool-cases (eq_text source [])) [
      | inl e ↦ rw (eq_text→eq source [] e) refl
      | inr e ↦
          let loop = valid_loop_start (split_on b',' source) (split_on_cons b',' source) in
          let parts = valid_loop-all (split_on b',' source) in ground arith
    ]

checked_format :
    (format : Text)
    → (if not (eq_text format [])
          && (eq_text format (codes "basic") || eq_text format (codes "json"))
        then format
        else codes "basic")
      ≡ (if eq_text format (codes "json") then codes "json" else codes "basic")
unfolding eq_text
checked_format format = elim (Bool-cases (eq_text format (codes "json"))) [
  | inl e ↦ rw (eq_text→eq format (codes "json") e) refl
  | inr e ↦ elim (Bool-cases (eq_text format (codes "basic"))) [
    | inl f ↦ rw (eq_text→eq format (codes "basic") f) refl
    | inr f ↦ ground arith
  ]
]

-- The format is "json" exactly when the first of the two variables that is not blank asks for it,
-- blanks and case aside, and else "basic": the last case of configureLogger does not occur.
pub get_log_format_lem :
    (env : Env)
    → get_log_format env ≡ (
        if eq_text
          (if eq_text (lower_env env (codes "MQ_LOGGING_CONSOLE_FORMAT")) []
            then lower_env env (codes "LOG_FORMAT")
            else lower_env env (codes "MQ_LOGGING_CONSOLE_FORMAT"))
          (codes "json")
        then codes "json"
        else codes "basic")
unfolding get_log_format
get_log_format_lem env = checked_format (
    if eq_text (lower_env env (codes "MQ_LOGGING_CONSOLE_FORMAT")) []
    then lower_env env (codes "LOG_FORMAT")
    else lower_env env (codes "MQ_LOGGING_CONSOLE_FORMAT"))
