-- ===== src/Signals/Tests.antt =====
-- The theorems about signals at a run in which the stop signal comes before the jobs are sent.
use mq_container.Base.{◌≡◌, refl, ap, true, false, inl}
use mq_container.Signals.{
  starting, is_up, complete, Process, reap_zombies, process_control_signal, receives_jobs,
  child_ends, send_start_reaping, send_reap_now, mark_startup_complete, receive_stop, startup_seen,
  stop_returns, shutdown_seen, Reach, here, next, begun,
}
use mq_container.Signals.Progress.{closed_last, jobs_received, Closes, always-Closes}

-- A child ends, and a stop signal comes, while doMain still starts the queue manager.
early_stop :
    (q : Process) × Reach (begun 1) q × (q.main_thread ≡ starting) × (q.control_closed ≡ false)
early_stop = (_, next (next here (child_ends _ refl)) (receive_stop _ refl refl refl), refl, refl)

-- That run goes on: doMain sends its jobs and marks the startup, and the queue manager is stopped.
whole_run :
    (q : Process) × Reach (begun 1) q
    × (q.control_closed ≡ true)
    × (q.stop_calls ≡ 1)
    × (q.reaped ≡ 2)
unfolding process_control_signal reap_zombies
whole_run =
    let r1 = next (next here (child_ends (begun 1) refl)) (receive_stop _ refl refl refl) in
    let r2 = next r1 (send_start_reaping _ refl refl) in
    let r3 = next r2 (send_reap_now _ refl refl) in
    let r4 = next r3 (mark_startup_complete _ refl) in
    let r5 = next r4 (startup_seen _ refl refl refl) in
    let r6 = next r5 (stop_returns _ refl refl) in
    (_, next r6 (shutdown_seen _ refl refl refl), refl, refl, refl)

closed_last_example :
    (whole_run.0.startup_done ≡ true)
    × (whole_run.0.stop_triggered ≡ true)
    × (whole_run.0.metrics_stopped ≡ true)
    × (whole_run.0.stop_routine ≡ complete)
    × (whole_run.0.stop_calls ≡ 1)
closed_last_example = closed_last 1 whole_run.1 whole_run.2

jobs_received_example :
    (early_stop.0.control_closed ≡ false) × (receives_jobs early_stop.0.handler ≡ true)
jobs_received_example = jobs_received 1 early_stop.1 (inl early_stop.2)

always-Closes_example : Closes early_stop.0
always-Closes_example = always-Closes 1 early_stop.1 (ap is_up early_stop.2) early_stop.3
