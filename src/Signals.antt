-- ===== src/Signals.antt =====
-- cmd/runmqserver/signals.go, with the part of doMain in cmd/runmqserver/main.go that uses the control
-- channel: two threads and the goroutine that stops the queue manager, as a step relation. A
-- channel without a buffer makes a send and its receipt one step.
pub mod Order
pub mod Progress
mod Tests
use mq_container.Base.{ℕ, suc, ◌+◌, ◌≡◌, Bool, true, false}

-- Where the main thread is: before `signalControl <- startReaping`, before `signalControl <-
-- reapNow`, before `markStartupComplete`, at `<-signalControl`, or returned.
pub data MainThread : Type 0 where
  starting reaping_started jobs_sent marked returned : MainThread

-- Where the handler's goroutine is: in the `select` of the outer loop, in that of the inner loop
-- which waits for the startup, or returned.
pub data HandlerLoop : Type 0 where
  selecting awaiting_startup ended : HandlerLoop

-- the goroutine that calls `stopQueueManager` and then `shutdownComplete`
pub data StopRoutine : Type 0 where
  not_begun stopping complete : StopRoutine

-- the jobs on the control channel
pub data Job : Type 0 where
  start_reaping reap_now : Job

-- The state of the process. `zombies` counts the ended children that nothing has waited for yet, and
-- `reaped` those that `reapZombies` has; `stop_calls` counts the calls of `stopQueueManager`.
pub record Process : Type 0 where
  pub main_thread : MainThread
  pub handler : HandlerLoop
  pub stop_routine : StopRoutine
  pub startup_done : Bool
  pub stop_triggered : Bool
  pub metrics_stopped : Bool
  pub control_closed : Bool
  pub notify_child : Bool
  pub stop_calls : ℕ
  pub zombies : ℕ
  pub reaped : ℕ

-- `reapZombies`: `Wait4` until it finds no ended child
unfoldable pub reap_zombies : Process → Process
reap_zombies p = record p { zombies = 0; reaped = p.reaped + p.zombies }

-- `processControlSignal`
unfoldable pub process_control_signal : Job → Process → Process
unfolding reap_zombies
process_control_signal start_reaping p = record p { notify_child = true }
process_control_signal reap_now p = reap_zombies p

-- Both loops of the handler receive from the control channel.
abbrev pub receives_jobs : HandlerLoop → Bool
receives_jobs selecting = true
receives_jobs awaiting_startup = true
receives_jobs ended = false

-- When doMain has returned, the process exits, and nothing else goes on.
abbrev pub is_up : MainThread → Bool
is_up returned = false
is_up l = true

pub data Step : Process → Process → Type 0 where
  -- a child of the process ends
  child_ends :
      (p : Process) → is_up p.main_thread ≡ true → Step p (record p { zombies = suc p.zombies })
  -- doMain, and the receipt of its jobs
  send_start_reaping :
      (p : Process)
      → p.main_thread ≡ starting
      → receives_jobs p.handler ≡ true
      → Step p (process_control_signal start_reaping (record p { main_thread = reaping_started }))
  send_reap_now :
      (p : Process)
      → p.main_thread ≡ reaping_started
      → receives_jobs p.handler ≡ true
      → Step p (process_control_signal reap_now (record p { main_thread = jobs_sent }))
  mark_startup_complete :
      (p : Process)
      → p.main_thread ≡ jobs_sent
      → Step p (record p { main_thread = marked; startup_done = true })
  -- an error before the jobs are sent: the deferred function marks the startup as complete
  startup_fails :
      (p : Process)
      → p.main_thread ≡ starting
      → Step p (record p { main_thread = returned; startup_done = true })
  -- `ready.Set` fails, or the control channel is closed
  set_fails : (p : Process) → p.main_thread ≡ marked → Step p (record p { main_thread = returned })
  main_returns :
      (p : Process)
      → p.main_thread ≡ marked
      → p.control_closed ≡ true
      → Step p (record p { main_thread = returned })
  -- the first stop signal, and a later one
  receive_stop :
      (p : Process)
      → is_up p.main_thread ≡ true
      → p.handler ≡ selecting
      → p.stop_triggered ≡ false
      → Step p (record p { handler = awaiting_startup; stop_triggered = true })
  ignore_stop :
      (p : Process)
      → is_up p.main_thread ≡ true
      → p.handler ≡ selecting
      → p.stop_triggered ≡ true
      → Step p p
  -- `<-startupCtx.Done()`: the metrics are stopped, and the goroutine begins
  startup_seen :
      (p : Process)
      → is_up p.main_thread ≡ true
      → p.handler ≡ awaiting_startup
      → p.startup_done ≡ true
      → Step p (record p {
        handler = selecting;
        metrics_stopped = true;
        stop_routine = stopping;
        stop_calls = suc p.stop_calls;
      })
  stop_returns :
      (p : Process)
      → is_up p.main_thread ≡ true
      → p.stop_routine ≡ stopping
      → Step p (record p { stop_routine = complete })
  -- `<-shutdownCtx.Done()`: the last reap, and the end of the handler
  shutdown_seen :
      (p : Process)
      → is_up p.main_thread ≡ true
      → p.handler ≡ selecting
      → p.stop_routine ≡ complete
      → Step p
          (record (reap_zombies p) { handler = ended; notify_child = false; control_closed = true })
  -- `<-reapSignals`
  receive_child :
      (p : Process)
      → is_up p.main_thread ≡ true
      → p.handler ≡ selecting
      → p.notify_child ≡ true
      → Step p (reap_zombies p)

pub data Reach (p : Process) : Process → Type 0 where
  here : Reach p p
  next : {q r : Process} → Reach p q → Step q r → Reach p r

-- where `signalHandler` is called
abbrev pub begun : ℕ → Process
begun zombies = record {
  main_thread = starting;
  handler = selecting;
  stop_routine = not_begun;
  startup_done = false;
  stop_triggered = false;
  metrics_stopped = false;
  control_closed = false;
  notify_child = false;
  stop_calls = 0;
  zombies = zombies;
  reaped = 0;
}
