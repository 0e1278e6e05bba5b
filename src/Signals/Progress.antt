-- ===== src/Signals/Progress.antt =====
-- What the order means: when the control channel is closed, and that it can always come to that.
use mq_container.Base.{ℕ, ◌≤◌, ◌≡◌, refl, ap, Bool, true, false, ◌⊎◌, inl, inr, arith}
use mq_container.Signals.{
  MainThread, starting, reaping_started, jobs_sent, marked, returned, is_up, send_start_reaping,
  main_returns, HandlerLoop, selecting, awaiting_startup, StopRoutine, stopping, complete, Process,
  reap_zombies, process_control_signal, receives_jobs, Step, send_reap_now, mark_startup_complete,
  receive_stop, startup_seen, stop_returns, shutdown_seen, Reach, here, next, begun,
}
use mq_container.Signals.Order.{
  Phase, running, signalled, stop_begun, stopped, closed, PhaseOf, StartUp, none_sent, one_sent,
  both_sent, after_mark, after_return, reached, Step-PhaseOf,
}

closed_phase :
    {h : HandlerLoop} {s : StopRoutine} {d t m c : Bool} {n : ℕ}
    → c ≡ true
    → Phase h s d t m c n
    → (d ≡ true) × (t ≡ true) × (m ≡ true) × (s ≡ complete) × (n ≡ 1)
closed_phase e closed = (refl, refl, refl, refl, refl)
closed_phase e running = cc
closed_phase e signalled = cc
closed_phase e stop_begun = cc
closed_phase e stopped = cc

-- The control channel is closed only after the startup was marked as complete, a stop signal came,
-- the metrics were stopped, and `stopQueueManager` was called once and returned.
pub closed_last :
    {p : Process} (zombies : ℕ)
    → Reach (begun zombies) p
    → p.control_closed ≡ true
    → (p.startup_done ≡ true)
      × (p.stop_triggered ≡ true)
      × (p.metrics_stopped ≡ true)
      × (p.stop_routine ≡ complete)
      × (p.stop_calls ≡ 1)
closed_last zombies r e = closed_phase e (reached zombies r).0

calls_at_most_one :
    {h : HandlerLoop} {s : StopRoutine} {d t m c : Bool} {n : ℕ} → Phase h s d t m c n → n ≤ 1
calls_at_most_one running = omega arith
calls_at_most_one signalled = omega arith
calls_at_most_one stop_begun = omega arith
calls_at_most_one stopped = omega arith
calls_at_most_one closed = omega arith

-- However many stop signals come, and whenever they do, the queue manager is stopped once at most.
pub stopped_once : {p : Process} (zombies : ℕ) → Reach (begun zombies) p → p.stop_calls ≤ 1
stopped_once zombies r = calls_at_most_one (reached zombies r).0

open_phase :
    {h : HandlerLoop} {s : StopRoutine} {d t m c : Bool} {n : ℕ}
    → d ≡ false
    → Phase h s d t m c n
    → (c ≡ false) × (receives_jobs h ≡ true)
open_phase e running = (refl, refl)
open_phase e signalled = (refl, refl)
open_phase e stop_begun = cc
open_phase e stopped = cc
open_phase e closed = cc

not_done :
    {l : MainThread} {d b : Bool} {k : ℕ}
    → (l ≡ starting) ⊎ (l ≡ reaping_started)
    → StartUp l d b k
    → d ≡ false
not_done e none_sent = refl
not_done e one_sent = refl
not_done e both_sent = refl
not_done (inl e) after_mark = cc
not_done (inr e) after_mark = cc
not_done (inl e) after_return = cc
not_done (inr e) after_return = cc

-- Where the main thread sends a job, the channel is not closed, so that the send does not panic,
-- and the handler is at a loop that receives it, so that the send does not block for good.
pub jobs_received :
    {p : Process} (zombies : ℕ)
    → Reach (begun zombies) p
    → (p.main_thread ≡ starting) ⊎ (p.main_thread ≡ reaping_started)
    → (p.control_closed ≡ false) × (receives_jobs p.handler ≡ true)
jobs_received zombies r e = let (x, y) = reached zombies r in open_phase (not_done e y) x

nothing_reaped : {l : MainThread} {d b : Bool} {k : ℕ} → l ≡ starting → StartUp l d b k → k ≡ 0
nothing_reaped e none_sent = refl
nothing_reaped e one_sent = cc
nothing_reaped e both_sent = cc
nothing_reaped e after_mark = cc
nothing_reaped e after_return = cc

-- Before the main thread has sent its first job, no child is reaped, so that the results of the
-- commands that doMain runs are not lost, whatever signals come.
pub not_reaped_early :
    {p : Process} (zombies : ℕ) → Reach (begun zombies) p → p.main_thread ≡ starting → p.reaped ≡ 0
not_reaped_early zombies r e = nothing_reaped e (reached zombies r).1

-- From here the channel can be closed, with no ended child left, and doMain return on that.
abbrev pub Closes : Process → Type 0
Closes p =
    (q : Process) × Reach p q
    × (q.control_closed ≡ true)
    × (q.zombies ≡ 0)
    × (q.startup_done ≡ true)
    × (q.main_thread ≡ returned)

prepend : {p q r : Process} → Step p q → Reach q r → Reach p r
prepend st here = next here st
prepend st (next x st') = next (prepend st x) st'

after-Step : {p q : Process} → Step p q → Closes q → Closes p
after-Step st (q, r, c, z, d, m) = (q, prepend st r, c, z, d, m)

-- The main thread waits for the channel to be closed, and the startup is complete.
abbrev Awaits : Process → Type 0
Awaits p = (p.main_thread ≡ marked) × (p.startup_done ≡ true)

up : (p : Process) → Awaits p → is_up p.main_thread ≡ true
up p w = ap is_up w.0

Closes-from_complete :
    (p : Process) → Awaits p → p.handler ≡ selecting → p.stop_routine ≡ complete → Closes p
unfolding reap_zombies
Closes-from_complete p w e f = (
  _,
  next (next here (shutdown_seen p (up p w) e f)) (main_returns _ w.0 refl),
  refl,
  refl,
  w.1,
  refl,
)

Closes-from_stopping :
    (p : Process) → Awaits p → p.handler ≡ selecting → p.stop_routine ≡ stopping → Closes p
Closes-from_stopping p w e f =
    after-Step (stop_returns p (up p w) f)
      (Closes-from_complete (record p { stop_routine = complete }) w e refl)

Closes-from_awaiting : (p : Process) → Awaits p → p.handler ≡ awaiting_startup → Closes p
Closes-from_awaiting p w e =
    after-Step (startup_seen p (up p w) e w.1) (Closes-from_stopping _ w refl refl)

Closes-from_selecting :
    (p : Process) → Awaits p → p.handler ≡ selecting → p.stop_triggered ≡ false → Closes p
Closes-from_selecting p w e f =
    after-Step (receive_stop p (up p w) e f) (Closes-from_awaiting _ w refl)

phase_cases :
    {h : HandlerLoop} {s : StopRoutine} {d t m c : Bool} {n : ℕ}
    → Phase h s d t m c n
    → c ≡ false
    → ((h ≡ selecting) × (t ≡ false))
      ⊎ (h ≡ awaiting_startup)
      ⊎ ((h ≡ selecting) × (s ≡ stopping))
      ⊎ ((h ≡ selecting) × (s ≡ complete))
phase_cases running e = inl (refl, refl)
phase_cases signalled e = inr (inl refl)
phase_cases stop_begun e = inr (inr (inl (refl, refl)))
phase_cases stopped e = inr (inr (inr (refl, refl)))
phase_cases closed e = cc

Closes-awaited : (p : Process) → PhaseOf p → p.control_closed ≡ false → Awaits p → Closes p
Closes-awaited p x e w = elim (phase_cases x e) [
  | inl (h, t) ↦ Closes-from_selecting p w h t
  | inr (inl h) ↦ Closes-from_awaiting p w h
  | inr (inr (inl (h, s))) ↦ Closes-from_stopping p w h s
  | inr (inr (inr (h, s))) ↦ Closes-from_complete p w h s
]

startup_cases :
    {l : MainThread} {d b : Bool} {k : ℕ}
    → is_up l ≡ true
    → StartUp l d b k
    → ((l ≡ starting) × (d ≡ false))
      ⊎ ((l ≡ reaping_started) × (d ≡ false))
      ⊎ ((l ≡ jobs_sent) × (d ≡ false))
      ⊎ ((l ≡ marked) × (d ≡ true))
startup_cases u none_sent = inl (refl, refl)
startup_cases u one_sent = inr (inl (refl, refl))
startup_cases u both_sent = inr (inr (inl (refl, refl)))
startup_cases u after_mark = inr (inr (inr (refl, refl)))
startup_cases u after_return = cc

Closes-from_sent :
    (p : Process) → PhaseOf p → p.control_closed ≡ false → p.main_thread ≡ jobs_sent → Closes p
Closes-from_sent p x e f =
    let st = mark_startup_complete p f in
    after-Step st (Closes-awaited _ (Step-PhaseOf st x) e (refl, refl))

Closes-from_reaping :
    (p : Process)
    → PhaseOf p
    → p.control_closed ≡ false
    → p.startup_done ≡ false
    → p.main_thread ≡ reaping_started
    → Closes p
unfolding process_control_signal reap_zombies
Closes-from_reaping p x e d l =
    let st = send_reap_now p l (open_phase d x).1 in
    after-Step st (Closes-from_sent _ (Step-PhaseOf st x) e refl)

-- Wherever the process comes to, with doMain not returned and the channel still open, there is no
-- deadlock: some further steps complete the startup, close the channel, leave no ended child behind,
-- and let doMain return on the closed channel.
pub always-Closes :
    {p : Process} (zombies : ℕ)
    → Reach (begun zombies) p
    → is_up p.main_thread ≡ true
    → p.control_closed ≡ false
    → Closes p
unfolding process_control_signal
always-Closes {p} zombies r u e =
    let (x, y) = reached zombies r in
    elim (startup_cases u y) [
      | inl (l, d) ↦
          let st = send_start_reaping p l (open_phase d x).1 in
          after-Step st (Closes-from_reaping _ (Step-PhaseOf st x) e d refl)
      | inr (inl (l, d)) ↦ Closes-from_reaping p x e d l
      | inr (inr (inl (l, d))) ↦ Closes-from_sent p x e l
      | inr (inr (inr w)) ↦ Closes-awaited p x e w
    ]
