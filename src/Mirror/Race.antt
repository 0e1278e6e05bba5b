-- ===== src/Mirror/Race.antt =====
-- A second rotation between `waitForFile` and `os.OpenFile`: `fi` then names another file than the
-- one that is open.
use mq_container.Base.{
  ℕ, ◌+◌, ◌<◌, ◌≡◌, true, false, List, ◌++◌, length, arith, subst, ◌==◌, append-nil, Text,
}
use mq_container.Mirror.{
  reopen, Tail, turn_at, step, run, mirror_available_messages, mirror_messages, wait_for_file,
  end_of_round, same_file_or_rotated,
}
use mq_container.Mirror.Files.{content, drop, latest, drop-length, drop-zero}
use mq_container.Mirror.Opening.{turns}

abbrev reopening : ℕ → Tail → Tail
reopening new s = record s { pc = reopen new; cancelled = false; linked = true }

again :
    (xs newest : List Text)
    → xs
        ++ drop 0 newest
        ++ drop (0 + length (drop 0 newest)) newest
        ++ drop
            (0 + length (drop 0 newest) + length (drop (0 + length (drop 0 newest)) newest))
            newest
        ++ drop 0 newest
      ≡ xs ++ newest ++ newest
again xs newest = ground (arith, drop-zero newest, drop-length newest, append-nil (xs ++ newest))

reopens :
    (new : ℕ) (s : Tail)
    → new == latest s.files ≡ false
    → let newest = content (latest s.files) s.files in
      (run (turns 8) (reopening new s)).mirrored ≡ s.mirrored ++ newest ++ newest
unfolding run step turn_at end_of_round wait_for_file same_file_or_rotated mirror_messages
    mirror_available_messages
reopens new s e = rw e (again s.mirrored (content (latest s.files) s.files))

is_reopening :
    (new : ℕ) (s : Tail)
    → s.pc ≡ reopen new
    → s.cancelled ≡ false
    → s.linked ≡ true
    → reopening new s ≡ s
is_reopening new s at c l = ground arith

-- When the log is rotated again between the detection of a rotation and the opening of the path, the
-- lines of the newest file are mirrored twice, and those of the file in between never.
pub mirrored_twice :
    (new : ℕ) (s : Tail)
    → s.pc ≡ reopen new
    → s.cancelled ≡ false
    → s.linked ≡ true
    → new < latest s.files
    → let newest = content (latest s.files) s.files in
      (run (turns 8) s).mirrored ≡ s.mirrored ++ newest ++ newest
mirrored_twice new s at c l later =
    subst
      (λ (t : Tail).
        let newest = content (latest s.files) s.files in
        (run (turns 8) t).mirrored ≡ s.mirrored ++ newest ++ newest)
      (is_reopening new s at c l) (reopens new s (ground arith))
