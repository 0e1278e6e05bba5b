-- ===== src/Mirror/Start.antt =====
-- Where the mirror begins: at the end of a file that was there at the call, or at its start when
-- told so, and at the start of a file that was created later.
use mq_container.Base.{ℕ, ◌<◌, ◌≡◌, Bool, true, false, List, ◌∷◌, ◌++◌, length, arith}
use mq_container.Mirror.{open_first, Tail, turn_at, Event, turn, step, run, mirror_log}
use mq_container.Mirror.Files.{File, content, lines_from, latest}
use mq_container.Mirror.Exact.{IsExact}
use mq_container.Mirror.Opening.{
  start_of, CanOpen, IsBegun, opening, Quiet-IsBegun, open_first-IsOpened, opening-IsExact,
}

-- What has been mirrored, and then what is still to come, is what stands behind a place.
abbrev pub MirrorsFrom : ℕ → ℕ → Tail → Type 0
MirrorsFrom g k s = s.mirrored ++ lines_from s.f s.position s.files ≡ lines_from g k s.files

stat_first-IsBegun :
    (files : List File) (from_start : Bool)
    → 0 < length files
    → IsBegun
        (latest files)
        (start_of from_start (length (content (latest files) files)))
        open_first
        (step (turn false) (mirror_log files true from_start))
unfolding step turn_at mirror_log start_of
stat_first-IsBegun files true h = ground (arith)
stat_first-IsBegun files false h = ground (arith)

pub begun-IsExact :
    (files : List File) (from_start : Bool) (b1 b2 b3 : List Event)
    → 0 < length files
    → CanOpen b1 b2 b3
    → IsExact
        (latest files)
        (start_of from_start (length (content (latest files) files)))
        (run (turn false ∷ opening b1 b2 b3) (mirror_log files true from_start))
unfolding run
begun-IsExact files from_start b1 b2 b3 some_file (q, o2, o3) =
    let g = latest files in
    let k = start_of from_start (length (content g files)) in
    let s = step (turn false) (mirror_log files true from_start) in
    let b = stat_first-IsBegun files from_start some_file in
    let h = open_first-IsOpened g k (run b1 s) (Quiet-IsBegun g k open_first b1 s q b) in
    opening-IsExact g k b1 b2 b3 s o2 o3 h
