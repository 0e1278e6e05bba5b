-- ===== src/Mirror/LastPass.antt =====
-- The last pass of the mirror after cancellation.
use mq_container.Base.{true}
use mq_container.Mirror.{mirror_first, Tail}

-- The code in its last round.
abbrev last_round : Tail → Tail
last_round s = record s { pc = mirror_first; cancelled = true; closing = true; linked = true }
