-- ===== src/ChkMq.antt =====
-- cmd/chkmqstarted/main.go, cmd/chkmqready/main.go and cmd/chkmqhealthy/main.go: the probes. What
-- `dspmq` prints, the queue manager's name, the clock and the listener's port are arguments.
pub mod Started
mod Tests
use mq_container.Base.{
  ℕ, Bool, true, false, not, ◌&&◌, ◌||◌, List, [], ◌∷◌, Option, none, some, Text, codes, contains,
  eq_text, Env, getenv, ◌==◌, if◌then◌else◌,
}
use mq_container.Base.Decimal.{ℤ, pos, negsuc, atoi}
use mq_container.Base.Int.{sub_int, le_int}
use mq_container.Ready.{
  Outcome, ok, failed, ◌>>=◌, Signals, Faults, check, set_ready_to_sync,
  get_ready_to_sync_start_time, QmStatus, unknown, active_qm, standby_qm, replica_qm, recovery_qm,
  status,
}

-- `readyStrings`
abbrev pub ready_strings : List Text
ready_strings =
    codes "(RUNNING)"
    ∷ codes "(RUNNING AS STANDBY)"
    ∷ codes "(RECOVERY GROUP LEADER)"
    ∷ codes "(STARTING)"
    ∷ codes "(REPLICA)"
    ∷ []

-- the loop over `readyStrings`
unfoldable pub contains_any : Text → List Text → Bool
contains_any out [] = false
contains_any out (check_string ∷ rest) = contains out check_string || contains_any out rest

-- `isInSyncWithReplicas`: whether the instance is ready to sync, and whether it is in sync
unfoldable pub is_in_sync_with_replicas : Outcome Text → Outcome (Bool × Bool)
is_in_sync_with_replicas failed = failed
is_in_sync_with_replicas (ok out) =
    if contains out (codes "INSYNC(YES)")
    then ok (true, true)
    else ok (contains_any out ready_strings, false)

abbrev parsed : Option ℤ → Outcome ℤ
parsed none = failed
parsed (some n) = ok n

-- the timeout of `hasInSyncTimePeriodExpired`: five seconds, unless another is set
unfoldable pub in_sync_timeout : Env → Outcome ℤ
in_sync_timeout env =
    let custom_timeout = getenv env (codes "MQ_NATIVE_HA_IN_SYNC_TIMEOUT") in
    if not (eq_text custom_timeout []) then parsed (atoi custom_timeout) else ok (pos 5)

abbrev has_expired : ℕ → ℤ → Option ℤ → Bool
has_expired now timeout none = false
has_expired now timeout (some start) = le_int timeout (sub_int (pos now) start)

-- `hasInSyncTimePeriodExpired` at the Unix time `now`
unfoldable pub has_in_sync_time_period_expired : Env → Faults → ℕ → Signals → Outcome Bool
unfolding in_sync_timeout
has_in_sync_time_period_expired env faults now s = do
  timeout ← in_sync_timeout env
  start ← get_ready_to_sync_start_time faults s
  ok (has_expired now timeout start)

abbrev after_set : Env → Faults → ℕ → Signals × Outcome (Unit {0}) → Signals × Outcome Bool
after_set env faults now (s, failed) = (s, failed)
after_set env faults now (s, ok u) = (s, has_in_sync_time_period_expired env faults now s)

-- the part of `queueManagerStarted` for Native HA
unfoldable pub native_ha_started :
    Env → Faults → ℕ → Outcome Text → Signals → Signals × Outcome Bool
native_ha_started env faults now dspmq s = elim (is_in_sync_with_replicas dspmq) [
  | failed ↦ (s, failed)
  | ok (is_ready_to_sync, true) ↦ (s, ok true)
  | ok (false, false) ↦ (s, ok false)
  | ok (true, false) ↦ after_set env faults now (set_ready_to_sync faults now s)
]

-- `queueManagerStarted`; `dspmq` is the output of the command that the branch runs.
unfoldable pub queue_manager_started :
    Env → Faults → ℕ → Outcome Text → Outcome Text → Signals → Signals × Outcome Bool
queue_manager_started env faults now name dspmq s = elim name [
  | failed ↦ (s, failed)
  | ok n ↦
      if eq_text (getenv env (codes "MQ_NATIVE_HA")) (codes "true")
      then native_ha_started env faults now dspmq s
      else (s, (do out ← dspmq; ok (contains_any out ready_strings)))
]

-- the exit status of chkmqstarted and of chkmqhealthy
abbrev pub exit_status : Outcome Bool → ℕ
exit_status failed = 2
exit_status (ok false) = 1
exit_status (ok true) = 0

-- `queueManagerHealthy`
unfoldable pub queue_manager_healthy : Outcome Text → Outcome Text → Outcome Bool
queue_manager_healthy name dspmq = do n ← name; out ← dspmq; ok (contains_any out ready_strings)

-- the `switch` of chkmqready
abbrev pub ready_exit : Bool → QmStatus → ℕ
ready_exit port_open active_qm = if not port_open then 1 else 0
ready_exit port_open recovery_qm = 0
ready_exit port_open standby_qm = 10
ready_exit port_open replica_qm = 20
ready_exit port_open unknown = 1

-- `doMain` of chkmqready; `port_open` is what `checkPort` finds.
unfoldable pub chkmqready : Faults → Outcome Text → Outcome Text → Bool → Signals → ℕ
chkmqready faults name dspmq port_open s = elim (check faults s) [
  | failed ↦ 1
  | ok false ↦ 1
  | ok true ↦ elim name [
    | failed ↦ 1
    | ok n ↦ elim (status dspmq) [ failed ↦ 1 | ok st ↦ ready_exit port_open st ]
  ]
]
