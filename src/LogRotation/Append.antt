-- ===== src/LogRotation/Append.antt =====
-- What `Append` does to the files: their sizes, and the log that they hold together.
use mq_container.Base.{
  ℕ, zero, suc, ◌+◌, ◌-◌, ◌≤◌, ◌<◌, ◌≡◌, refl, sym, ap, ◌∙◌, Bool, not, ◌&&◌, [], ◌∷◌, ◌++◌,
  append_assoc, append-nil, some, Text, arith, ◌==◌, if◌then◌else◌, Bool-cases, inl, inr,
}
use mq_container.LogRotation.{
  RotatingLogger, Files, no_faults, content, touch, byte_length, check_if_log_file_size_exceeded,
  check_if_message_should_be_appended, terminated, write_string, rotate_and_reopen, append_line,
  append,
}
use mq_container.LogRotation.Rotate.{rotated, perform_log_rotation_lem}

pub byte_length-append : (s t : Text) → byte_length (s ++ t) ≡ byte_length s + byte_length t
unfolding byte_length
byte_length-append [] t = omega arith
byte_length-append (c ∷ s) t = omega (arith, byte_length-append s t)

-- The three ends of `Append` with no fault: the line is a duplicate, it fits the first file, or it
-- goes to a new first file.
abbrev pub is_duplicate : Files → Text → Bool → Bool
is_duplicate files message_line deduplicate_line = not (
    check_if_message_should_be_appended no_faults (touch files 1 1) (terminated message_line)
      deduplicate_line)

abbrev pub is_full : RotatingLogger → Files → Text → Bool
is_full r files message_line =
    check_if_log_file_size_exceeded r (byte_length (terminated message_line)) (touch files 1 1)

module _ (r : RotatingLogger) (files : Files) (m : Text) (d : Bool) (j : ℕ)
    (some_file : 0 < r.log_files_count) where
  -- With no fault, a duplicate line leaves every file as it is, but for a first file that is
  -- created. Any other line is put at the end of the first file; the files are rotated first if
  -- it would bring the first file to the size limit.
  pub append_lem : append r no_faults m d files j ≡ (
      if is_duplicate files m d
      then touch files 1 j
      else if is_full r files m
      then (if j == 1 then some (terminated m) else rotated r.log_files_count (touch files 1) j)
      else if j == 1
      then some (content (files 1) ++ terminated m)
      else files j)
  unfolding append append_line rotate_and_reopen write_string
  append_lem = ground (
    arith,
    perform_log_rotation_lem r (touch files 1) j some_file,
    perform_log_rotation_lem r (touch files 1) 1 some_file,
  )

-- Every file is below the size limit.
abbrev pub IsBounded : RotatingLogger → Files → Type 0
IsBounded r files = (j : ℕ) → byte_length (content (files j)) < r.max_file_bytes

byte_length-nil : byte_length [] ≡ 0
unfolding byte_length
byte_length-nil = refl

-- With no fault, and a line that is itself below the size limit, `Append` keeps every file below
-- the size limit.
pub append-IsBounded :
    (r : RotatingLogger) (files : Files) (m : Text) (d : Bool)
    → 0 < r.log_files_count
    → byte_length (terminated m) < r.max_file_bytes
    → IsBounded r files
    → IsBounded r (append r no_faults m d files)
append-IsBounded r files m d some_file fits bounded j = rw (append_lem r files m d j some_file) (
    unfold check_if_log_file_size_exceeded in
    ground (
      arith,
      bounded 1,
      bounded j,
      bounded (j - 1),
      byte_length-nil,
      byte_length-append (content (files 1)) (terminated m),
    ))

-- The log that the first `n` instances hold together, the oldest line first.
pub history : ℕ → Files → Text
history zero files = []
history (suc n) files = content (files (suc n)) ++ history n files

history-same :
    (n : ℕ) (f g : Files)
    → ((j : ℕ) → 0 < j → j ≤ n → content (f j) ≡ content (g j))
    → history n f ≡ history n g
unfolding history
history-same zero f g same = refl
history-same (suc n) f g same = cc (
  same (suc n) (omega arith) (omega arith),
  history-same n f g (λ j pos le. same j pos (omega arith)),
)

-- A text put at the end of the first file is put at the end of the log.
history-write :
    (n : ℕ) (f g : Files) (line : Text)
    → content (g 1) ≡ content (f 1) ++ line
    → ((j : ℕ) → 1 < j → j ≤ suc n → content (g j) ≡ content (f j))
    → history (suc n) g ≡ history (suc n) f ++ line
unfolding history
history-write zero f g line first rest = simp append-nil first
history-write (suc n) f g line first rest = cc (
  rest (suc (suc n)) (omega arith) (omega arith),
  history-write n f g line first (λ j pos le. rest j pos (omega arith)),
  append_assoc (content (f (suc (suc n)))) (history (suc n) f) line,
)

-- A rotation drops the last instance from the log.
history-rotated :
    (n : ℕ) (f g : Files)
    → content (g 1) ≡ []
    → ((j : ℕ) → 1 < j → j ≤ suc n → content (g j) ≡ content (f (j - 1)))
    → history (suc n) g ≡ history n f
unfolding history
history-rotated zero f g first rest = rw append-nil first
history-rotated (suc n) f g first rest = ground (
  arith,
  rest (suc (suc n)) (omega arith) (omega arith),
  history-rotated n f g first (λ j pos le. rest j pos (omega arith)),
)

-- With no fault: a duplicate line changes nothing in the log. Any other line is put at the end of
-- the log; if the first file would come to the size limit, what the last instance held is dropped
-- from the beginning of the log, and nothing else is lost.
pub append-history :
    (n : ℕ) (r : RotatingLogger) (files : Files) (m : Text) (d : Bool)
    → r.log_files_count ≡ suc n
    → (if not (is_duplicate files m d) && is_full r files m then content (files (suc n)) else [])
        ++ history (suc n) (append r no_faults m d files)
      ≡ history (suc n) files ++ (if is_duplicate files m d then [] else terminated m)
append-history n r files m d e = elim (Bool-cases (is_duplicate files m d)) [
  | inl dup ↦
      rw (dup, append-nil)
        (history-same (suc n) (append r no_faults m d files) files
          (λ j pos le. ground (arith, dup, append_lem r files m d j some_file)))
  | inr new ↦ elim (Bool-cases (is_full r files m)) [
    | inl full ↦
        rw (new, full)
          (unfold history in
            ap (λ h. content (files (suc n)) ++ h)
              (history-write n mid (append r no_faults m d files) (terminated m)
                  (ground (arith, new, full, append_lem r files m d 1 some_file))
                  (λ j pos le. ground (arith, new, full, append_lem r files m d j some_file))
                ∙ ap (λ h. h ++ terminated m)
                    (history-rotated n (touch files 1) mid refl (λ j pos le. ground arith)
                      ∙ history-same n (touch files 1) files (λ j pos le. ground arith)))
            ∙ sym (append_assoc (content (files (suc n))) (history n files) (terminated m)))
    | inr room ↦
        rw (new, room)
          (history-write n files (append r no_faults m d files) (terminated m)
            (ground (arith, new, room, append_lem r files m d 1 some_file))
            (λ j pos le. ground (arith, new, room, append_lem r files m d j some_file)))
  ]
]
  where
    some_file : 0 < r.log_files_count
    some_file = omega arith

    mid : Files
    mid = rotated r.log_files_count (touch files 1)
