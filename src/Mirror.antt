-- ===== src/Mirror.antt =====
-- Tailing an error log of the queue manager: `mirrorLog`, with `waitForFile` and
-- `mirrorAvailableMessages`, of cmd/runmqserver/mirror.go.
-- Each system call of the goroutine is a turn of its own. Between two turns the queue manager may
-- write a line, move the file away or create the next one, and the container may be told to stop,
-- so an interleaving is a list of events. Positions in a file are counted in whole lines.
pub mod Files
pub mod Exact
pub mod Opening
pub mod Start
pub mod LastPass
pub mod Race
mod Tests
use mq_container.Base.{
  ℕ, suc, ◌+◌, ◌-◌, Bool, true, false, not, ◌&&◌, ◌||◌, List, [], ◌∷◌, ◌++◌, Text, length, ◌==◌,
  if◌then◌else◌,
}
use mq_container.Mirror.Files.{File, write_line, content, drop, latest}

-- Where the code stands: each constructor is the system call that comes next. `mirror_rest` and
-- `reopen` hold the file that `waitForFile` has found.
pub data Pc : Type 0 where
  stat_first open_first wait_first open_found stat_open seek mirror_first wait_next : Pc
  mirror_rest reopen : ℕ → Pc
  mirror_new poll : Pc
  -- The goroutine has ended: as told, or with an error on its channel.
  finished failed : Pc
  -- `mirrorLog` has returned an error, and no goroutine runs.
  refused : Pc

-- The files that have had the path, the newest first, and whether the path exists; then the
-- variables of `mirrorLog`, the open file with its position, and the lines given to the mirror
-- function.
pub record Tail : Type 0 where
  pub files : List File
  pub linked : Bool
  pub cancelled : Bool
  pub from_start : Bool
  pub offset : ℕ
  pub f : ℕ
  pub position : ℕ
  pub fi : ℕ
  pub closing : Bool
  pub pc : Pc
  pub mirrored : List Text

-- `mirrorAvailableMessages` where all can be read
unfoldable pub mirror_available_messages : Tail → Tail
mirror_available_messages s =
    let available = drop s.position (content s.f s.files) in
    record s { position = s.position + length available; mirrored = s.mirrored ++ available }

-- `mirrorAvailableMessages`: where the file cannot be read, nothing is mirrored, and the error is logged
-- only.
unfoldable pub mirror_messages : Bool → Pc → Tail → Tail
unfolding mirror_available_messages
mirror_messages fault next s =
    if fault then record s { pc = next } else record (mirror_available_messages s) { pc = next }

-- One round of `waitForFile`, where `next` says how its caller goes on with the file that was
-- found: without cancellation a missing file is waited for.
unfoldable pub wait_for_file : Bool → (ℕ → Pc) → Tail → Tail
wait_for_file fault next s =
    if fault
    then record s { pc = failed }
    else if s.linked
    then record s { pc = next (latest s.files) }
    else if s.cancelled
    then record s { pc = failed }
    else s

-- `os.OpenFile` on the path. `err` is where the code goes when it fails.
unfoldable pub open_file : Bool → Pc → Pc → Tail → Tail
open_file fault err next s =
    if fault || not s.linked
    then record s { pc = err }
    else record s { f = latest s.files; position = 0; pc = next }

-- What follows `waitForFile` in the loop: `os.SameFile`.
unfoldable pub same_file_or_rotated : ℕ → ℕ → Pc
same_file_or_rotated fi new = if fi == new then poll else mirror_rest new

-- The `select` at the end of a round of the loop.
unfoldable pub end_of_round : Tail → Tail
end_of_round s =
    if s.cancelled
    then (if s.closing
        then record s { pc = finished }
        else record s { closing = true; pc = mirror_first })
    else record s { pc = mirror_first }

-- One system call, and what the code does up to the next; `fault` says that the call fails for
-- another reason than a missing file.
unfoldable pub turn_at : Pc → Bool → Tail → Tail
unfolding mirror_messages wait_for_file open_file same_file_or_rotated end_of_round
turn_at stat_first fault s =
    if fault
    then record s { pc = refused }
    else if s.linked
    then record s { offset = length (content (latest s.files) s.files); pc = open_first }
    else record s { offset = 0; pc = wait_first }
turn_at open_first fault s = open_file fault refused stat_open s
turn_at wait_first fault s = wait_for_file fault (λ _. open_found) s
turn_at open_found fault s = open_file fault failed stat_open s
turn_at stat_open fault s =
    if fault then record s { pc = failed } else record s { fi = s.f; pc = seek }
turn_at seek fault s =
    if not (s.offset == 0) && not s.from_start && not fault
    then record s { position = s.offset; pc = mirror_first }
    else record s { pc = mirror_first }
turn_at mirror_first fault s = mirror_messages fault wait_next s
turn_at wait_next fault s = wait_for_file fault (same_file_or_rotated s.fi) s
turn_at (mirror_rest new) fault s = mirror_messages fault (reopen new) s
turn_at (reopen new) fault s =
    if fault || not s.linked
    then record s { pc = failed }
    else record s { f = latest s.files; position = 0; fi = new; pc = mirror_new }
turn_at mirror_new fault s = mirror_messages fault poll s
turn_at poll fault s = end_of_round s
turn_at finished fault s = s
turn_at failed fault s = s
turn_at refused fault s = s

-- What happens next: a turn of the code, or something around it.
pub data Event : Type 0 where
  turn : Bool → Event
  written : Text → Event
  moved created cancel : Event

unfoldable pub step : Event → Tail → Tail
unfolding turn_at
step (turn fault) s = turn_at s.pc fault s
step (written line) s = record s { files = write_line line s.files }
step moved s = record s { linked = false }
step created s = record s { files = [] ∷ s.files; linked = true }
step cancel s = record s { cancelled = true }

unfoldable pub run : List Event → Tail → Tail
unfolding step
run [] s = s
run (e ∷ events) s = run events (step e s)

-- `mirrorLog` at its call.
unfoldable pub mirror_log : List File → Bool → Bool → Tail
mirror_log files linked from_start = record {
  files = files;
  linked = linked;
  cancelled = false;
  from_start = from_start;
  offset = 0;
  f = 0;
  position = 0;
  fi = 0;
  closing = false;
  pc = stat_first;
  mirrored = [];
}
