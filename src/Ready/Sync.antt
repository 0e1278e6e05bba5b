-- ===== src/Ready/Sync.antt =====
-- What the signals promise: the start time is written once, and read back.
use mq_container.Base.{ℕ, ◌≤◌, ◌≡◌, ◌≢◌, refl, true, false, none, some, Text, arith}
use mq_container.Base.Decimal.{pos, max_int, itoa}
use mq_container.Base.Decimal.RoundTrip.{atoi-itoa}
use mq_container.Ready.{
  Outcome, ok, failed, Signals, FileFaults, Faults, clear, set, check, set_ready_to_sync,
  get_ready_to_sync_start_time, replica_qm, status,
}

abbrev pub no_file_faults : FileFaults
no_file_faults = record { stat = false; remove = false; write = false; read = false }

abbrev pub no_faults : Faults
no_faults = record { ready = no_file_faults; ready_to_sync = no_file_faults }

pub set_first :
    (s : Signals) (t : ℕ)
    → s.ready_to_sync_file ≡ none
    → (set_ready_to_sync no_faults t s).0 ≡ record s { ready_to_sync_file = some (itoa t) }
unfolding set_ready_to_sync
set_first s t e = ground (arith, e)

pub set_again :
    (s : Signals) (t : ℕ) {buf : Text}
    → s.ready_to_sync_file ≡ some buf
    → (set_ready_to_sync no_faults t s).0 ≡ s
unfolding set_ready_to_sync
set_again s t e = ground (arith, e)

-- With no fault, once `SetReadyToSync` was called at time `t`, later calls change nothing, and the
-- start time that is read is `t`, provided there was no start time before.
pub start_time_stays :
    (s : Signals) (t u : ℕ)
    → t ≤ max_int
    → s.ready_to_sync_file ≡ none
    → (get_ready_to_sync_start_time no_faults
          (set_ready_to_sync no_faults u (set_ready_to_sync no_faults t s).0).0
        ≡ ok (some (pos t)))
      × ((set_ready_to_sync no_faults u (set_ready_to_sync no_faults t s).0).0
          ≡ (set_ready_to_sync no_faults t s).0)
unfolding get_ready_to_sync_start_time
start_time_stays s t u le e =
    rw
      (
        set_first s t e,
        set_again (record s { ready_to_sync_file = some (itoa t) }) u refl,
        atoi-itoa t le,
      )
      (refl, refl)

-- Whatever calls fail: after a `Clear` that succeeds neither of the two files is there.
pub clear_then_check :
    (faults : Faults) (s : Signals) (u : Unit {0})
    → (clear faults s).1 ≡ ok u
    → ((clear faults s).0.ready_file ≡ none) × ((clear faults s).0.ready_to_sync_file ≡ none)
unfolding clear
clear_then_check faults s u h = ground arith

-- Whatever calls failed before: after a `Set` that succeeds, `Check` is true unless its own look at
-- the file fails.
pub check-set :
    (faults later : Faults) (s : Signals) (u : Unit {0})
    → (set faults s).1 ≡ ok u
    → later.ready.stat ≡ false
    → check later (set faults s).0 ≡ ok true
unfolding set check
check-set faults later s u h k = ground arith

-- `Status` never reports a replica: `ReplicaQM` is false of every status that it returns.
pub status-ne-replica : (out : Outcome Text) → status out ≢ ok replica_qm
unfolding status
status-ne-replica failed e = cc
status-ne-replica (ok out) e = ground arith
