-- ===== src/Mirror/Opening.antt =====
-- From the call of `mirrorLog` to the first line that it reads: the file is found and opened, and the
-- place to begin at is sought.
use mq_container.Base.{
  ℕ, zero, suc, ◌+◌, ◌≡◌, refl, Bool, true, false, List, [], ◌∷◌, ◌++◌, length, arith, All,
  if◌then◌else◌,
}
use mq_container.Mirror.{
  Pc, open_first, wait_first, open_found, stat_open, seek, mirror_first, Tail, turn_at, open_file,
  wait_for_file, Event, turn, written, created, moved, cancel, step, run,
}
use mq_container.Mirror.Files.{IsPlace, write_line-IsPlace, created-IsPlace, length-write_line}
use mq_container.Mirror.Exact.{IsExact}

-- The place of the first line to mirror, in the file found.
unfoldable pub start_of : Bool → ℕ → ℕ
start_of from_start offset = if from_start then 0 else offset

-- What the code knows of the open file before it begins.
abbrev pub Opened : Pc → ℕ → ℕ → ℕ → ℕ → Type 0
Opened stat_open g f position fi = f ≡ g × position ≡ 0
Opened seek g f position fi = f ≡ g × position ≡ 0 × fi ≡ g
Opened _ g f position fi = Unit

-- Between two turns: what moves no file, and whatever is no turn of the code.
abbrev pub Quiet : Event → Type 0
Quiet (written line) = Unit
Quiet cancel = Unit
Quiet _ = ⊥

abbrev pub Outside : Event → Type 0
Outside (turn fault) = ⊥
Outside _ = Unit

-- The code stands at `pc`, the newest file is number `g`, and the mirror is to begin there behind
-- `k` lines.
pub record IsBegun (g k : ℕ) (pc : Pc) (s : Tail) : Type 0 where
  pub place : IsPlace g k s.files
  pub newest : g + 1 ≡ length s.files
  pub there : s.linked ≡ true
  pub start : k ≡ start_of s.from_start s.offset
  pub nothing_yet : s.mirrored ≡ []
  pub at : s.pc ≡ pc

-- The same, with the file open, so that there may be newer ones.
pub record IsOpened (g k : ℕ) (pc : Pc) (s : Tail) : Type 0 where
  pub place : IsPlace g k s.files
  pub start : k ≡ start_of s.from_start s.offset
  pub nothing_yet : s.mirrored ≡ []
  pub at : s.pc ≡ pc
  pub opened : Opened pc g s.f s.position s.fi

abbrev pub turns : ℕ → List Event
turns zero = []
turns (suc n) = turn false ∷ turns n

-- The system calls from the first `os.OpenFile` to `f.Seek`, which succeed, with what happens before
-- each.
abbrev pub opening : List Event → List Event → List Event → List Event
opening b1 b2 b3 = b1 ++ turn false ∷ (b2 ++ turn false ∷ (b3 ++ turn false ∷ []))

-- No file is moved or created until the file is open.
abbrev pub CanOpen : List Event → List Event → List Event → Type 0
CanOpen b1 b2 b3 = All Quiet b1 × All Outside b2 × All Outside b3

pub run-append :
    (events later : List Event) (s : Tail) → run (events ++ later) s ≡ run later (run events s)
unfolding run
run-append [] later s = refl
run-append (e ∷ events) later s = run-append events later (step e s)

module _ (g k : ℕ) where
  pub Quiet-IsBegun :
      (pc : Pc) (events : List Event) (s : Tail)
      → All Quiet events
      → IsBegun g k pc s
      → IsBegun g k pc (run events s)
  unfolding run step
  Quiet-IsBegun pc [] s q h = h
  Quiet-IsBegun pc (written w ∷ events) s q h =
      Quiet-IsBegun pc events (step (written w) s) q.1 record {
        place = write_line-IsPlace g k w s.files h.place;
        newest = omega (arith, h.newest, length-write_line w s.files);
        there = h.there;
        start = h.start;
        nothing_yet = h.nothing_yet;
        at = h.at;
      }
  Quiet-IsBegun pc (cancel ∷ events) s q h = Quiet-IsBegun pc events (step cancel s) q.1 record {
    place = h.place;
    newest = h.newest;
    there = h.there;
    start = h.start;
    nothing_yet = h.nothing_yet;
    at = h.at;
  }
  Quiet-IsBegun pc (turn fault ∷ events) s q h = absurd q.0
  Quiet-IsBegun pc (moved ∷ events) s q h = absurd q.0
  Quiet-IsBegun pc (created ∷ events) s q h = absurd q.0

  around-IsOpened :
      (pc : Pc) (e : Event) (s : Tail) → Outside e → IsOpened g k pc s → IsOpened g k pc (step e s)
  unfolding step
  around-IsOpened pc (turn fault) s o h = absurd o
  around-IsOpened pc (written w) s o h = record {
    place = write_line-IsPlace g k w s.files h.place;
    start = h.start;
    nothing_yet = h.nothing_yet;
    at = h.at;
    opened = h.opened;
  }
  around-IsOpened pc created s o h = record {
    place = created-IsPlace g k s.files h.place;
    start = h.start;
    nothing_yet = h.nothing_yet;
    at = h.at;
    opened = h.opened;
  }
  around-IsOpened pc moved s o h = record {
    place = h.place;
    start = h.start;
    nothing_yet = h.nothing_yet;
    at = h.at;
    opened = h.opened;
  }
  around-IsOpened pc cancel s o h = record {
    place = h.place;
    start = h.start;
    nothing_yet = h.nothing_yet;
    at = h.at;
    opened = h.opened;
  }

  Outside-IsOpened :
      (pc : Pc) (events : List Event) (s : Tail)
      → All Outside events
      → IsOpened g k pc s
      → IsOpened g k pc (run events s)
  unfolding run
  Outside-IsOpened pc [] s o h = h
  Outside-IsOpened pc (e ∷ events) s o h =
      Outside-IsOpened pc events (step e s) o.1 (around-IsOpened pc e s o.0 h)

  pub open_first-IsOpened :
      (s : Tail) → IsBegun g k open_first s → IsOpened g k stat_open (step (turn false) s)
  unfolding step turn_at open_file
  open_first-IsOpened s h = ground (arith, h.place, h.newest)

  pub open_found-IsOpened :
      (s : Tail) → IsBegun g k open_found s → IsOpened g k stat_open (step (turn false) s)
  unfolding step turn_at open_file
  open_found-IsOpened s h = ground (arith, h.place, h.newest)

  stat_open-IsOpened :
      (s : Tail) → IsOpened g k stat_open s → IsOpened g k seek (step (turn false) s)
  unfolding step turn_at
  stat_open-IsOpened s h = ground (arith, h.place)

  seek-IsExact :
      (s : Tail)
      → IsOpened g k seek s
      → IsExact g k (step (turn false) s) × (step (turn false) s).pc ≡ mirror_first
  unfolding step turn_at start_of
  seek-IsExact s h = ground (arith, h.place, h.opened)

  pub wait_first-IsBegun :
      (s : Tail) → IsBegun g k wait_first s → IsBegun g k open_found (step (turn false) s)
  unfolding step turn_at wait_for_file
  wait_first-IsBegun s h = ground (arith, h.place, h.newest)

  -- From the first file found to the first line.
  pub opening-IsExact :
      (b1 b2 b3 : List Event) (s : Tail)
      → All Outside b2
      → All Outside b3
      → IsOpened g k stat_open (step (turn false) (run b1 s))
      → IsExact g k (run (opening b1 b2 b3) s)
  unfolding run
  opening-IsExact b1 b2 b3 s o2 o3 h =
      let s2 = step (turn false) (run b1 s) in
      let h2 = stat_open-IsOpened (run b2 s2) (Outside-IsOpened stat_open b2 s2 o2 h) in
      let s3 = step (turn false) (run b2 s2) in
      let h3 = (seek-IsExact (run b3 s3) (Outside-IsOpened seek b3 s3 o3 h2)).0 in
      rw (run-append b1) (rw (run-append b2) (rw (run-append b3) h3))
