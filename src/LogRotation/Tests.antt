-- ===== src/LogRotation/Tests.antt =====
-- Runs of the log rotation, and instances of its theorems.
use mq_container.Base.{
  ℕ, ◌≡◌, refl, true, false, not, ◌&&◌, [], ◌++◌, none, some, Text, codes, arith, ◌==◌,
  if◌then◌else◌, trim_space, eq_text, replace_char,
}
use mq_container.LogRotation.{
  RotatingLogger, Files, no_faults, content, byte_length, perform_log_rotation, terminated, append,
  check_if_log_file_size_exceeded, check_if_message_should_be_appended, get_log_last_line, cleaned,
  write_string,
}
use mq_container.LogRotation.Rotate.{perform_log_rotation_keeps}
use mq_container.LogRotation.Append.{
  is_duplicate, is_full, IsBounded, append-IsBounded, history, append-history,
}
use mq_container.LogRotation.LastLine.{ended, append_twice}

abbrev small : RotatingLogger
small = record { max_file_bytes = 10; log_files_count = 2 }

abbrev two_files : Files
two_files j =
    if j == 1 then some (codes "one\ntwo\n") else if j == 2 then some (codes "old\n") else none

abbrev hello : Text
hello = codes " hi! "

-- The line does not fit: the first file moves up.
append_rotates :
    (append small no_faults hello false two_files 1 ≡ some (codes "hi!\n"))
    × (append small no_faults hello false two_files 2 ≡ some (codes "one\ntwo\n"))
unfolding append perform_log_rotation check_if_log_file_size_exceeded byte_length terminated
    trim_space check_if_message_should_be_appended write_string
append_rotates = (refl, refl)

append_duplicate : append small no_faults (codes "two") true two_files 1 ≡ some (codes "one\ntwo\n")
unfolding append terminated trim_space check_if_message_should_be_appended cleaned get_log_last_line
    eq_text replace_char
append_duplicate = refl

perform_log_rotation_keeps_example :
    (k : ℕ) × ((perform_log_rotation small (record no_faults { rename_to = λ i. true }) two_files).0
        k
      ≡ some (codes "one\ntwo\n"))
perform_log_rotation_keeps_example =
    perform_log_rotation_keeps small (record no_faults { rename_to = λ i. true }) two_files 1
      (codes "one\ntwo\n") (omega arith) (omega arith) refl

two_files-IsBounded : IsBounded small two_files
unfolding byte_length
two_files-IsBounded j = ground arith

append-IsBounded_example : IsBounded small (append small no_faults hello true two_files)
unfolding byte_length terminated trim_space
append-IsBounded_example =
    append-IsBounded small two_files hello true (omega arith) (omega arith) two_files-IsBounded

append-history_example :
    (if not (is_duplicate two_files hello false) && is_full small two_files hello
        then content (two_files 2)
        else [])
      ++ history 2 (append small no_faults hello false two_files)
    ≡ history 2 two_files ++ (if is_duplicate two_files hello false then [] else terminated hello)
append-history_example = append-history 1 small two_files hello false refl

append_twice_example :
    append small no_faults hello true (append small no_faults hello true two_files) 1
    ≡ append small no_faults hello true two_files 1
unfolding trim_space
append_twice_example =
    append_twice small two_files hello 1 (omega arith) (λ e. cc) (ground arith)
      (ended (codes "one\ntwo") refl)
