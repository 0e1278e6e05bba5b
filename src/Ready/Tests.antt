-- ===== src/Ready/Tests.antt =====
-- Instances of the theorems on the signals.
use mq_container.Base.{◌≡◌, refl, some, none, arith}
use mq_container.Base.Decimal.{pos}
use mq_container.Ready.{ok, Signals, set_ready_to_sync, get_ready_to_sync_start_time}
use mq_container.Ready.Sync.{no_faults, start_time_stays}

abbrev fresh : Signals
fresh = record { ready_file = none; ready_to_sync_file = none }

start_time_stays_example :
    (get_ready_to_sync_start_time no_faults
        (set_ready_to_sync no_faults 90 (set_ready_to_sync no_faults 70 fresh).0).0
      ≡ ok (some (pos 70)))
    × ((set_ready_to_sync no_faults 90 (set_ready_to_sync no_faults 70 fresh).0).0
        ≡ (set_ready_to_sync no_faults 70 fresh).0)
start_time_stays_example = start_time_stays fresh 70 90 (omega arith) refl
