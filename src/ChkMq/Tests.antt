-- ===== src/ChkMq/Tests.antt =====
-- Instances of the theorems on the probes.
use mq_container.Base.{
  ◌≡◌, refl, true, some, none, Text, codes, arith, Env, getenv, contains, eq_text,
}
use mq_container.Ready.{ok, Signals}
use mq_container.Ready.Sync.{no_faults}
use mq_container.ChkMq.{native_ha_started, in_sync_timeout, contains_any}
use mq_container.ChkMq.Started.{IsWaiting, started_after_timeout}

abbrev waiting : Text
waiting = codes "QMNAME(QM1) STATUS(REPLICA)"

abbrev active : Text
active = codes "QMNAME(QM1) STATUS(RUNNING)"

abbrev no_env : Env
no_env = λ k. none

abbrev signals : Signals
signals = record { ready_file = some (codes "1"); ready_to_sync_file = none }

waiting-IsWaiting : IsWaiting waiting
unfolding contains contains_any
waiting-IsWaiting = (refl, refl)

started_after_timeout_example :
    (native_ha_started no_env no_faults 106
      (ok waiting)
      (native_ha_started no_env no_faults 100 (ok waiting) signals).0).1
    ≡ ok true
unfolding in_sync_timeout
started_after_timeout_example =
    started_after_timeout no_env 5 waiting waiting-IsWaiting (unfold getenv eq_text in refl) signals
      100 106 (omega arith) (omega arith) refl
