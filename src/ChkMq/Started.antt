-- ===== src/ChkMq/Started.antt =====
-- When the probes succeed.
use mq_container.Base.{
  ℕ, ◌-◌, ◌≤◌, ◌≡◌, ◌≢◌, refl, Bool, true, false, none, some, Text, codes, contains, eq_text, Env,
  getenv, arith, leb, [], ◌∷◌, ◌⊎◌,
}
use mq_container.Base.Decimal.{pos, max_int, itoa}
use mq_container.Base.Decimal.RoundTrip.{atoi-itoa, itoa-ne-nil}
use mq_container.Base.Int.{le_int, sub_int_pos}
use mq_container.Ready.{
  Outcome, ok, Signals, Faults, check, status, set_ready_to_sync, get_ready_to_sync_start_time,
  active_qm, recovery_qm,
}
use mq_container.Ready.Sync.{no_faults}
use mq_container.ChkMq.{
  is_in_sync_with_replicas, in_sync_timeout, has_in_sync_time_period_expired, native_ha_started,
  queue_manager_started, queue_manager_healthy, chkmqready, contains_any, ready_strings,
}

-- A Native HA instance that `dspmq` shows to be ready, but not in sync.
abbrev pub IsWaiting : Text → Type 0
IsWaiting out =
    (contains out (codes "INSYNC(YES)") ≡ false) × (contains_any out ready_strings ≡ true)

expired_at :
    (env : Env) (s : Signals) (start now timeout : ℕ)
    → in_sync_timeout env ≡ ok (pos timeout)
    → start ≤ now
    → now ≤ max_int
    → s.ready_to_sync_file ≡ some (itoa start)
    → has_in_sync_time_period_expired env no_faults now s ≡ ok (leb timeout (now - start))
unfolding has_in_sync_time_period_expired get_ready_to_sync_start_time le_int
expired_at env s start now timeout t le fits e =
    rw (t, e, atoi-itoa start (omega arith), sub_int_pos now start le fits)

IsWaiting-in_sync :
    (out : Text) → IsWaiting out → is_in_sync_with_replicas (ok out) ≡ ok (true, false)
unfolding is_in_sync_with_replicas
IsWaiting-in_sync out w = rw (w.0, w.1)

first_set :
    (s : Signals) (now : ℕ)
    → s.ready_to_sync_file ≡ none
    → set_ready_to_sync no_faults now s ≡ (record s { ready_to_sync_file = some (itoa now) }, ok tt)
unfolding set_ready_to_sync
first_set s now e = ground (arith, e)

later_set :
    (s : Signals) (now : ℕ) {buf : Text}
    → s.ready_to_sync_file ≡ some buf
    → set_ready_to_sync no_faults now s ≡ (s, ok tt)
unfolding set_ready_to_sync
later_set s now e = ground (arith, e)

module _ (env : Env) (timeout : ℕ) (out : Text) (w : IsWaiting out)
    (t : in_sync_timeout env ≡ ok (pos timeout)) where
  waiting_first :
      (s : Signals) (now : ℕ)
      → now ≤ max_int
      → s.ready_to_sync_file ≡ none
      → native_ha_started env no_faults now (ok out) s
        ≡ (record s { ready_to_sync_file = some (itoa now) }, ok (leb timeout (now - now)))
  unfolding native_ha_started
  waiting_first s now fits e = rw (
    IsWaiting-in_sync out w,
    native_ha_started,
    first_set s now e,
    expired_at env (record s { ready_to_sync_file = some (itoa now) }) now now timeout t
        (omega arith) fits refl,
  )

  waiting_later :
      (s : Signals) (start now : ℕ)
      → start ≤ now
      → now ≤ max_int
      → s.ready_to_sync_file ≡ some (itoa start)
      → native_ha_started env no_faults now (ok out) s ≡ (s, ok (leb timeout (now - start)))
  unfolding native_ha_started
  waiting_later s start now le fits e = rw (
    IsWaiting-in_sync out w,
    native_ha_started,
    later_set s now e,
    expired_at env s start now timeout t le fits e,
  )

  -- A Native HA instance that is ready but not in sync counts as started once the timeout has passed
  -- since the first probe that found it so, and not before: let probes find it so at `start`, when
  -- there was no start time yet, and at `now`, with no fault. Then the second probe's answer is
  -- whether `now - start` has reached the timeout.
  pub started_after_timeout :
      (s : Signals) (start now : ℕ)
      → start ≤ now
      → now ≤ max_int
      → s.ready_to_sync_file ≡ none
      → (native_ha_started env no_faults now
          (ok out)
          (native_ha_started env no_faults start (ok out) s).0).1
        ≡ ok (leb timeout (now - start))
  started_after_timeout s start now le fits e =
      rw
        (
          waiting_first s start (omega arith) e,
          waiting_later (record s { ready_to_sync_file = some (itoa start) }) start now le fits
              refl,
        )
        refl

-- Without another setting the timeout is five seconds; a decimal setting is taken as it is.
pub in_sync_timeout_lem :
    (env : Env) (timeout : ℕ)
    → timeout ≤ max_int
    → (getenv env (codes "MQ_NATIVE_HA_IN_SYNC_TIMEOUT") ≡ [] → in_sync_timeout env ≡ ok (pos 5))
      × (getenv env (codes "MQ_NATIVE_HA_IN_SYNC_TIMEOUT") ≡ itoa timeout
          → in_sync_timeout env ≡ ok (pos timeout))
unfolding in_sync_timeout
in_sync_timeout_lem env timeout fits = (
  λ e. rw e (unfold eq_text in refl),
  λ e. rw (e, atoi-itoa timeout fits, not_empty (itoa timeout) (itoa-ne-nil timeout)),
)
  where
    not_empty : (s : Text) → s ≢ [] → eq_text s [] ≡ false
    not_empty [] ne = absurd (ne refl)
    not_empty (c ∷ s) ne = unfold eq_text in refl

-- In Native HA, an instance that `dspmq` reports in sync is started at once, and the signals stay.
-- Outside Native HA the signals stay too, and the answer is that of chkmqhealthy.
pub started_at_once :
    (env : Env) (faults : Faults) (now : ℕ) (name : Text) (dspmq : Outcome Text) (s : Signals)
    → ((out : Text)
        → dspmq ≡ ok out
        → eq_text (getenv env (codes "MQ_NATIVE_HA")) (codes "true") ≡ true
        → contains out (codes "INSYNC(YES)") ≡ true
        → queue_manager_started env faults now (ok name) dspmq s ≡ (s, ok true))
      × (eq_text (getenv env (codes "MQ_NATIVE_HA")) (codes "true") ≡ false
          → queue_manager_started env faults now (ok name) dspmq s
            ≡ (s, queue_manager_healthy (ok name) dspmq))
unfolding queue_manager_started native_ha_started is_in_sync_with_replicas queue_manager_healthy
started_at_once env faults now name dspmq s =
    (λ out d native sync. ground arith, λ native. ground arith)

-- chkmqready exits with 0 only if configuration was finished, and the queue manager is a recovery
-- leader, or active with an open port.
pub chkmqready_zero :
    (faults : Faults) (name dspmq : Outcome Text) (port_open : Bool) (s : Signals)
    → chkmqready faults name dspmq port_open s ≡ 0
    → (check faults s ≡ ok true)
      × ((status dspmq ≡ ok recovery_qm) ⊎ ((status dspmq ≡ ok active_qm) × (port_open ≡ true)))
unfolding chkmqready
chkmqready_zero faults name dspmq port_open s h = ground arith
