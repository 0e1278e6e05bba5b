-- ===== src/LogRotation/LastLine.antt =====
-- What `getLogLastLine` finds, and that a duplicate line is not appended.
use mq_container.Base.{
  ℕ, ◌<◌, ◌≡◌, ◌≢◌, refl, sym, ap, ◌∙◌, Bool, true, false, not, ◌||◌, [], ◌∷◌, ◌++◌, reverse,
  reverse-append, reverse-reverse, append_assoc, append-nil, some, Text, arith, ◌==◌, All,
  All-reverse, trim_space, eq_text_refl, is_space, Bool-cases, inl, inr,
}
use mq_container.Base.Spaces.{trim_space-snoc}
use mq_container.LogRotation.{
  RotatingLogger, Files, no_faults, content, touch, last_line_loop, get_log_last_line, cleaned,
  check_if_message_should_be_appended, terminated, append,
}
use mq_container.LogRotation.Append.{append_lem, is_duplicate, is_full}

abbrev pub in_line : ℕ → Bool
in_line c = not (c == b'\n' || c == b'\r')

-- Within a line the loop collects characters, up to the line break before it.
last_line_loop-line :
    (l : ℕ) (acc line before : Text)
    → All (λ c. in_line c ≡ true) line
    → last_line_loop (l ∷ acc) (line ++ b'\n' ∷ before) ≡ (l ∷ acc) ++ line
unfolding last_line_loop
last_line_loop-line l acc [] before h = sym (append-nil (l ∷ acc))
last_line_loop-line l acc (c ∷ line) before h =
    ground
      (arith, last_line_loop-line l (acc ++ c ∷ []) line before h.1, append_assoc acc (c ∷ []) line)

last_line_loop-start :
    (l : ℕ) (acc line : Text)
    → All (λ c. in_line c ≡ true) line
    → last_line_loop (l ∷ acc) line ≡ (l ∷ acc) ++ line
unfolding last_line_loop
last_line_loop-start l acc [] h = sym (append-nil (l ∷ acc))
last_line_loop-start l acc (c ∷ line) h =
    ground (arith, last_line_loop-start l (acc ++ c ∷ []) line h.1, append_assoc acc (c ∷ []) line)

-- Empty, or ended by a line feed.
pub data IsTerminated : Text → Type 0 where
  empty : IsTerminated []
  ended : {t : Text} (s : Text) → t ≡ s ++ b'\n' ∷ [] → IsTerminated t

reverse-line :
    (before line : Text)
    → reverse (before ++ (line ++ b'\n' ∷ [])) ≡ b'\n' ∷ (reverse line ++ reverse before)
reverse-line before line =
    reverse-append before (line ++ b'\n' ∷ [])
    ∙ ap (λ t. t ++ reverse before) (reverse-append line (b'\n' ∷ []))

in_line-test : (c : ℕ) → in_line c ≡ true → (c == b'\n' || c == b'\r') ≡ false
in_line-test c h = ground arith

loop_finds :
    (back before : Text)
    → back ≢ []
    → All (λ c. in_line c ≡ true) back
    → IsTerminated before
    → last_line_loop [] (b'\n' ∷ (back ++ reverse before)) ≡ back
unfolding last_line_loop
loop_finds [] before some_char h t = absurd (some_char refl)
loop_finds (c ∷ back) before some_char h empty =
    rw (append-nil, in_line-test c h.0) (last_line_loop-start c [] back h.1)
loop_finds (c ∷ back) before some_char h (ended s e) =
    rw (e, reverse-append, in_line-test c h.0) (last_line_loop-line c [] back (reverse s) h.1)

-- The last line of a file that a line was put to is that line.
pub get_log_last_line-line :
    (before line : Text)
    → line ≢ []
    → All (λ c. in_line c ≡ true) line
    → IsTerminated before
    → get_log_last_line (some (before ++ (line ++ b'\n' ∷ []))) ≡ line
unfolding get_log_last_line
get_log_last_line-line before line some_char h t = rw reverse-line (
    ap reverse (
      loop_finds (reverse line) before (λ e. some_char (sym (reverse-reverse line) ∙ ap reverse e))
        (All-reverse (λ c. in_line c ≡ true) line h) t)
    ∙ reverse-reverse line)

-- A terminated line cleans to what the line without its line feed cleans to.
cleaned-snoc : (line : Text) → cleaned (line ++ b'\n' ∷ []) ≡ cleaned line
unfolding cleaned
cleaned-snoc line = rw (trim_space-snoc line b'\n' (unfold is_space in refl))

-- The last line of the first file is the message.
abbrev EndsWith : Files → Text → Type 0
EndsWith files line = get_log_last_line (some (content (files 1))) ≡ line

EndsWith-is_duplicate :
    (files : Files) (m : Text) → EndsWith files (trim_space m) → is_duplicate files m true ≡ true
unfolding check_if_message_should_be_appended terminated
EndsWith-is_duplicate files m e = rw (e, cleaned-snoc, eq_text_refl)

append-EndsWith :
    (r : RotatingLogger) (files : Files) (m : Text) (d : Bool)
    → 0 < r.log_files_count
    → trim_space m ≢ []
    → All (λ c. in_line c ≡ true) (trim_space m)
    → IsTerminated (content (files 1))
    → is_duplicate files m d ≡ false
    → EndsWith (append r no_faults m d files) (trim_space m)
unfolding terminated
append-EndsWith r files m d some_file some_char h t new = elim (Bool-cases (is_full r files m)) [
  | inl full ↦
      ap get_log_last_line (written full)
      ∙ get_log_last_line-line [] (trim_space m) some_char h empty
  | inr room ↦
      ap get_log_last_line (appended room)
      ∙ get_log_last_line-line (content (files 1)) (trim_space m) some_char h t
]
  where
    written :
        is_full r files m ≡ true
        → some (content (append r no_faults m d files 1)) ≡ some (terminated m)
    written full = ground (arith, new, append_lem r files m d 1 some_file)

    appended :
        is_full r files m ≡ false
        → some (content (append r no_faults m d files 1)) ≡ some (content (files 1) ++ terminated m)
    appended room = ground (arith, new, append_lem r files m d 1 some_file)

append_first :
    (r : RotatingLogger) (files : Files) (m : Text)
    → 0 < r.log_files_count
    → some (content (append r no_faults m true files 1)) ≡ append r no_faults m true files 1
append_first r files m some_file = ground (arith, append_lem r files m true 1 some_file)

touch_first :
    (files : Files) (j : ℕ) → some (content (files 1)) ≡ files 1 → touch files 1 j ≡ files j
touch_first files j e = ground (arith, e)

append-is_duplicate :
    (r : RotatingLogger) (files : Files) (m : Text)
    → 0 < r.log_files_count
    → trim_space m ≢ []
    → All (λ c. in_line c ≡ true) (trim_space m)
    → IsTerminated (content (files 1))
    → is_duplicate (append r no_faults m true files) m true ≡ true
append-is_duplicate r files m some_file some_char h t =
    elim (Bool-cases (is_duplicate files m true)) [
      | inl dup ↦
          ap (λ file. not (check_if_message_should_be_appended no_faults file (terminated m) true))
            (same dup)
          ∙ dup
      | inr new ↦
          EndsWith-is_duplicate (append r no_faults m true files) m
            (append-EndsWith r files m true some_file some_char h t new)
    ]
  where
    same :
        is_duplicate files m true ≡ true
        → some (content (append r no_faults m true files 1)) ≡ some (content (files 1))
    same dup = ground (arith, dup, append_lem r files m true 1 some_file)

-- With no fault, a message of one line that is appended, or found to be a duplicate, is a duplicate
-- for the next call that deduplicates: that call changes no file. The first file may hold anything
-- that ends with a line feed.
pub append_twice :
    (r : RotatingLogger) (files : Files) (m : Text) (j : ℕ)
    → 0 < r.log_files_count
    → trim_space m ≢ []
    → All (λ c. in_line c ≡ true) (trim_space m)
    → IsTerminated (content (files 1))
    → append r no_faults m true (append r no_faults m true files) j
      ≡ append r no_faults m true files j
append_twice r files m j some_file some_char h t =
    append_lem r (append r no_faults m true files) m true j some_file
    ∙ rw (append-is_duplicate r files m some_file some_char h t)
        (touch_first (append r no_faults m true files) j (append_first r files m some_file))
