-- ===== src/Mirror/Tests.antt =====
-- Runs of the mirror, and its theorems at concrete inputs.
use mq_container.Base.{◌≡◌, refl, true, false, List, [], ◌∷◌, ◌++◌, Text, codes, arith}
use mq_container.Mirror.{
  Pc, reopen, failed, refused, Tail, turn_at, Event, turn, written, moved, created, cancel, step,
  run, mirror_log,
}
use mq_container.Mirror.Files.{content, write_line}
use mq_container.Mirror.Opening.{opening, turns}
use mq_container.Mirror.Race.{mirrored_twice}

abbrev one : Text
one = codes "AMQ5051I"

abbrev two : Text
two = codes "AMQ5024I"

abbrev three : Text
three = codes "AMQ5037I"

-- A line is written, then the log is rotated, before the goroutine reads for the first time.
abbrev rotation : List Event
rotation = written two ∷ moved ∷ created ∷ written three ∷ turns 6

rotated :
    (run
      (turn false ∷ (opening [] [] [] ++ rotation))
      (mirror_log ((one ∷ []) ∷ []) true false)).mirrored
    ≡ two ∷ three ∷ []
unfolding run step turn_at mirror_log content write_line
rotated = refl

missing_at_stop :
    (run (turn false ∷ cancel ∷ turn false ∷ []) (mirror_log [] false false)).pc ≡ failed
unfolding run step turn_at mirror_log
missing_at_stop = refl

not_openable : (run (turn false ∷ turn true ∷ []) (mirror_log ([] ∷ []) true false)).pc ≡ refused
unfolding run step turn_at mirror_log
not_openable = refl

-- Another rotation, in the first round.
abbrev slowly : List Event
slowly = turn true ∷ turns 5

-- One line of an old file is unread, and a newer file has another.
abbrev behind : Pc → Tail
behind pc = record {
  files = (two ∷ []) ∷ (one ∷ []) ∷ [];
  linked = true;
  cancelled = true;
  from_start = true;
  offset = 0;
  f = 0;
  position = 0;
  fi = 0;
  closing = false;
  pc = pc;
  mirrored = [];
}

-- The first round comes to its end, the log is rotated, and the container is told to stop.
abbrev to_stop : List Event
to_stop = turn true ∷ turn false ∷ written two ∷ moved ∷ created ∷ written three ∷ cancel ∷ []

abbrev at_poll : Tail
at_poll =
    run to_stop (run (turn false ∷ opening [] [] []) (mirror_log ((one ∷ []) ∷ []) true false))

-- The second file was found, and a third has been created since.
abbrev overtaken : Tail
overtaken = record (behind (reopen 1)) {
  files = (three ∷ []) ∷ (two ∷ []) ∷ (one ∷ []) ∷ [];
  cancelled = false;
  position = 1;
  mirrored = one ∷ [];
}

mirrored_twice_example :
    (run (turns 8) overtaken).mirrored ≡ (one ∷ []) ++ (three ∷ []) ++ (three ∷ [])
unfolding content
mirrored_twice_example = mirrored_twice 1 overtaken refl refl refl (omega arith)
