-- ===== src/LogRotation.antt =====
-- pkg/logrotation/logrotation.go: `RotatingLogger`. A file is known by its instance number: the
-- format of `instanceFileName` gives each instance a name of its own. The mutex makes each call of
-- `Append` one step. What the operating system may refuse is a record of faults.
pub mod Rotate
pub mod Append
pub mod LastLine
mod Tests
use mq_container.Base.{
  ℕ, zero, suc, ◌+◌, Bool, true, false, not, ◌&&◌, ◌||◌, List, [], ◌∷◌, ◌++◌, reverse, Option, none,
  some, Text, eq_text, trim_space, replace_char, leb, ltb, ◌==◌, if◌then◌else◌,
}

-- `RotatingLogger`
pub record RotatingLogger : Type 0 where
  pub max_file_bytes : ℕ
  pub log_files_count : ℕ

-- What the log files hold, by instance; `none` where there is no file.
abbrev pub Files : Type 0
Files = ℕ → Option Text

abbrev pub update : Files → ℕ → Option Text → Files
update files i content j = if j == i then content else files j

-- Which calls of the operating system fail. A write that fails may leave a part of the line.
pub record Faults : Type 0 where
  pub create_instance : ℕ → Bool
  pub open_first : Bool
  pub read_last : Bool
  pub stat : Bool
  pub remove_last : Bool
  pub rename_to : ℕ → Bool
  pub create_first : Bool
  pub reopen : Bool
  pub arrives : Text → Text

abbrev pub no_faults : Faults
no_faults = record {
  create_instance = λ i. false;
  open_first = false;
  read_last = false;
  stat = false;
  remove_last = false;
  rename_to = λ i. false;
  create_first = false;
  reopen = false;
  arrives = λ line. line;
}

abbrev pub content : Option Text → Text
content none = []
content (some t) = t

-- `os.O_CREATE`: a file that is not there is created, and one that is there stays.
abbrev pub touch : Files → ℕ → Files
touch files i = update files i (some (content (files i)))

-- the number of bytes of a character, and of a text: `len` of a string, `Size` of a file
unfoldable pub rune_bytes : ℕ → ℕ
rune_bytes c = if ltb c 0x80 then 1 else if ltb c 0x800 then 2 else if ltb c 0x10000 then 3 else 4

unfoldable pub byte_length : Text → ℕ
unfolding rune_bytes
byte_length [] = 0
byte_length (c ∷ t) = rune_bytes c + byte_length t

-- the loop of `Init`, at instance `i` with `n` instances to go; the flag is that all were created
pub init_loop : Faults → ℕ → ℕ → Files → Files × Bool
init_loop faults i zero files = (files, true)
init_loop faults i (suc n) files =
    let rest = init_loop faults (i + 1) n (touch files i) in
    if faults.create_instance i then (files, false) else rest

-- `Init`
pub init : RotatingLogger → Faults → Files → Files × Bool
unfolding init_loop
init r faults files = init_loop faults 1 r.log_files_count files

-- `os.Rename` of instance `i` to the next: an instance that is not there is passed over.
abbrev pub rename_next : Files → ℕ → Files
rename_next files i = elim (files i) [
  | none ↦ files
  | some t ↦ update (update files (suc i) (some t)) i none
]

-- the loop of `performLogRotation`, at the instance that is renamed to; the flag is success
pub rename_loop : Faults → ℕ → Files → Files × Bool
rename_loop faults zero files = (files, true)
rename_loop faults (suc zero) files = (files, true)
rename_loop faults (suc (suc i)) files =
    let rest = rename_loop faults (suc i) (rename_next files (suc i)) in
    if faults.rename_to (suc (suc i)) then (files, false) else rest

-- the end of `performLogRotation`: `os.WriteFile` empties a first file that is still there
pub create_first_file : Faults → Files × Bool → Files × Bool
create_first_file faults (files, false) = (files, false)
create_first_file faults (files, true) =
    if faults.create_first then (files, false) else (update files 1 (some []), true)

-- `performLogRotation`
pub perform_log_rotation : RotatingLogger → Faults → Files → Files × Bool
unfolding create_first_file rename_loop
perform_log_rotation r faults files =
    if faults.remove_last
    then (files, false)
    else create_first_file faults
        (rename_loop faults r.log_files_count (update files r.log_files_count none))

-- `checkIfLogFileSizeExceeded`
pub check_if_log_file_size_exceeded : RotatingLogger → ℕ → Option Text → Bool
check_if_log_file_size_exceeded r message_line_length file =
    leb r.max_file_bytes (byte_length (content file) + message_line_length)

-- the loop of `getLogLastLine` over the characters from the end of the file on
pub last_line_loop : Text → Text → Text
last_line_loop line_chars_backwards [] = line_chars_backwards
last_line_loop [] (c ∷ before) =
    last_line_loop (if c == b'\n' || c == b'\r' then [] else c ∷ []) before
last_line_loop (l ∷ ls) (c ∷ before) =
    let rest = last_line_loop ((l ∷ ls) ++ c ∷ []) before in
    if c == b'\n' || c == b'\r' then l ∷ ls else rest

-- `getLogLastLine`
pub get_log_last_line : Option Text → Text
unfolding last_line_loop
get_log_last_line file = reverse (last_line_loop [] (reverse (content file)))

-- `strings.ReplaceAll(strings.TrimSpace(line), "\n", " ")`
pub cleaned : Text → Text
cleaned line = replace_char b'\n' (b' ' ∷ []) (trim_space line)

-- `checkIfMessageShouldBeAppended`; after an error it is false too
pub check_if_message_should_be_appended : Faults → Option Text → Text → Bool → Bool
check_if_message_should_be_appended faults file current_log_line deduplicate_line =
    if not deduplicate_line
    then true
    else if faults.read_last
    then false
    else not (eq_text (cleaned current_log_line) (cleaned (get_log_last_line file)))

-- `Append` puts one line feed behind the trimmed message.
unfoldable pub terminated : Text → Text
terminated message_line = trim_space message_line ++ b'\n' ∷ []

-- `logFile.WriteString`: the line goes to the end of the first file
pub write_string : Faults → Text → Files → Files
write_string faults line files = update files 1 (some (content (files 1) ++ faults.arrives line))

-- the rotation of `Append`, with the open of the new file; the flag is that it is open
pub rotate_and_reopen : RotatingLogger → Faults → Files → Files × Bool
rotate_and_reopen r faults files =
    let rotated = (perform_log_rotation r faults files).0 in
    if faults.reopen then (rotated, false) else (touch rotated 1, true)

pub append_line : RotatingLogger → Faults → Text → Bool → Files → Files
unfolding rotate_and_reopen
append_line r faults line deduplicate_line files =
    if not (check_if_message_should_be_appended faults (files 1) line deduplicate_line)
    then files
    else if faults.stat
    then files
    else if check_if_log_file_size_exceeded r (byte_length line) (files 1)
    then (if (rotate_and_reopen r faults files).1
        then write_string faults line (rotate_and_reopen r faults files).0
        else (rotate_and_reopen r faults files).0)
    else write_string faults line files

-- `Append`
pub append : RotatingLogger → Faults → Text → Bool → Files → Files
unfolding append_line
append r faults message_line deduplicate_line files =
    if faults.open_first
    then files
    else append_line r faults (terminated message_line) deduplicate_line (touch files 1)
