-- ===== src/Ready.antt =====
-- internal/ready/ready.go: the files by which the queue manager's start is signalled between
-- processes, and the status that `dspmq` prints. What the operating system may refuse is a record of
-- faults; a failed call leaves the files as they were.
pub mod Sync
mod Tests
use mq_container.Base.{
  ℕ, Bool, true, false, Option, none, some, Text, codes, contains, ◌==◌, if◌then◌else◌,
}
use mq_container.Base.Decimal.{ℤ, atoi, itoa}

-- a value, or an error
pub data Outcome {ℓ} (A : Type ℓ) : Type ℓ where
  ok : A → Outcome A
  failed : Outcome A

infixl 5 ◌>>=◌
abbrev pub ◌>>=◌ {ℓ κ} : {A : Type ℓ} {B : Type κ} → Outcome A → (A → Outcome B) → Outcome B
ok a >>= f = f a
failed >>= f = failed

-- What `readyFile` and `readyToSyncFile` hold; `none` where there is no file.
pub record Signals : Type 0 where
  pub ready_file : Option Text
  pub ready_to_sync_file : Option Text

-- Which calls of the operating system fail, for each of the two files.
pub record FileFaults : Type 0 where
  pub stat : Bool
  pub remove : Bool
  pub write : Bool
  pub read : Bool

pub record Faults : Type 0 where
  pub ready : FileFaults
  pub ready_to_sync : FileFaults

-- `fileExists`
unfoldable pub file_exists : FileFaults → Option Text → Outcome Bool
file_exists faults file =
    if faults.stat then failed else ok (elim file [ none ↦ false | some t ↦ true ])

-- `clearFile`: the file afterwards, and whether it went well
unfoldable pub clear_file : FileFaults → Option Text → Option Text × Outcome (Unit {0})
unfolding file_exists
clear_file faults file = elim (file_exists faults file) [
  | failed ↦ (file, failed)
  | ok false ↦ (file, ok tt)
  | ok true ↦ if faults.remove then (file, failed) else (none, ok tt)
]

-- `Clear`
unfoldable pub clear : Faults → Signals → Signals × Outcome (Unit {0})
unfolding clear_file
clear faults s =
    let (ready_file, cleared) = clear_file faults.ready s.ready_file in
    let s' : Signals = record s { ready_file = ready_file } in
    let (sync_file, sync_cleared) = clear_file faults.ready_to_sync s.ready_to_sync_file in
    elim cleared [
      | failed ↦ (s', failed)
      | ok u ↦ (record s' { ready_to_sync_file = sync_file }, sync_cleared)
    ]

-- `Set`
unfoldable pub set : Faults → Signals → Signals × Outcome (Unit {0})
set faults s =
    if faults.ready.write then (s, failed) else (record s { ready_file = some (codes "1") }, ok tt)

-- `Check`
unfoldable pub check : Faults → Signals → Outcome Bool
unfolding file_exists
check faults s = file_exists faults.ready s.ready_file

-- `SetReadyToSync` at the Unix time `now`
unfoldable pub set_ready_to_sync : Faults → ℕ → Signals → Signals × Outcome (Unit {0})
unfolding file_exists
set_ready_to_sync faults now s = elim (file_exists faults.ready_to_sync s.ready_to_sync_file) [
  | failed ↦ (s, failed)
  | ok true ↦ (s, ok tt)
  | ok false ↦
      if faults.ready_to_sync.write
      then (s, failed)
      else (record s { ready_to_sync_file = some (itoa now) }, ok tt)
]

abbrev parsed_time : Option ℤ → Outcome (Option ℤ)
parsed_time none = failed
parsed_time (some t) = ok (some t)

abbrev read_time : FileFaults → Option Text → Outcome (Option ℤ)
read_time faults none = ok none
read_time faults (some buf) = if faults.read then failed else parsed_time (atoi buf)

-- `GetReadyToSyncStartTime`: the Unix time, or `none` if the file does not exist
unfoldable pub get_ready_to_sync_start_time : Faults → Signals → Outcome (Option ℤ)
get_ready_to_sync_start_time faults s =
    if faults.ready_to_sync.stat
    then failed
    else read_time faults.ready_to_sync s.ready_to_sync_file

-- `QMStatus`
pub data QmStatus : Type 0 where
  unknown active_qm standby_qm replica_qm recovery_qm : QmStatus

-- the tests of `Status` on what `dspmq` prints
unfoldable pub status_of : Text → QmStatus
status_of out =
    if contains out (codes "(RUNNING)")
    then active_qm
    else if contains out (codes "(RUNNING AS STANDBY)")
    then standby_qm
    else if contains out (codes "(REPLICA)")
    then standby_qm
    else if contains out (codes "(RECOVERY GROUP LEADER)")
    then recovery_qm
    else unknown

-- `Status`, with the output of `dspmq`, or `failed` where the command fails
unfoldable pub status : Outcome Text → Outcome QmStatus
unfolding status_of
status failed = failed
status (ok out) = ok (status_of out)

-- `ActiveQM`, `StandbyQM`, `ReplicaQM`, `RecoveryQM`
abbrev pub is_active_qm : QmStatus → Bool
is_active_qm active_qm = true
is_active_qm _ = false

abbrev pub is_standby_qm : QmStatus → Bool
is_standby_qm standby_qm = true
is_standby_qm _ = false

abbrev pub is_replica_qm : QmStatus → Bool
is_replica_qm replica_qm = true
is_replica_qm _ = false

abbrev pub is_recovery_qm : QmStatus → Bool
is_recovery_qm recovery_qm = true
is_recovery_qm _ = false
