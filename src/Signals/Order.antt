-- ===== src/Signals/Order.antt =====
-- The order in which the process ends: an invariant of the step relation.
use mq_container.Base.{ℕ, suc, ◌≡◌, refl, subst, sym, Bool, true, false}
use mq_container.Signals.{
  MainThread, starting, reaping_started, jobs_sent, marked, returned, HandlerLoop, selecting,
  awaiting_startup, ended, StopRoutine, not_begun, stopping, complete, Process, reap_zombies,
  process_control_signal, Step, child_ends, send_start_reaping, send_reap_now,
  mark_startup_complete, startup_fails, set_fails, main_returns, receive_stop, ignore_stop,
  startup_seen, stop_returns, shutdown_seen, receive_child, Reach, here, next, begun,
}

-- How far the end of the process has come, with what the flags say there.
pub data Phase : HandlerLoop → StopRoutine → Bool → Bool → Bool → Bool → ℕ → Type 0 where
  running : {d m : Bool} → Phase selecting not_begun d false m false 0
  signalled : {d m : Bool} → Phase awaiting_startup not_begun d true m false 0
  stop_begun : Phase selecting stopping true true true false 1
  stopped : Phase selecting complete true true true false 1
  closed : Phase ended complete true true true true 1

abbrev pub PhaseOf : Process → Type 0
PhaseOf p =
    Phase p.handler p.stop_routine p.startup_done p.stop_triggered p.metrics_stopped
      p.control_closed p.stop_calls

-- Until the main thread has sent its jobs, the startup is not marked; until it has sent the first,
-- no child is reaped.
pub data StartUp : MainThread → Bool → Bool → ℕ → Type 0 where
  none_sent : StartUp starting false false 0
  one_sent : {b : Bool} {k : ℕ} → StartUp reaping_started false b k
  both_sent : {b : Bool} {k : ℕ} → StartUp jobs_sent false b k
  after_mark : {b : Bool} {k : ℕ} → StartUp marked true b k
  after_return : {b : Bool} {k : ℕ} → StartUp returned true b k

abbrev pub StartUpOf : Process → Type 0
StartUpOf p = StartUp p.main_thread p.startup_done p.notify_child p.reaped

done_kept :
    {h : HandlerLoop} {s : StopRoutine} {d t m c : Bool} {n : ℕ}
    → Phase h s d t m c n
    → Phase h s true t m c n
done_kept running = running
done_kept signalled = signalled
done_kept stop_begun = stop_begun
done_kept stopped = stopped
done_kept closed = closed

stop_received :
    {h : HandlerLoop} {s : StopRoutine} {d t m c : Bool} {n : ℕ}
    → h ≡ selecting
    → t ≡ false
    → Phase h s d t m c n
    → Phase awaiting_startup s d true m c n
stop_received e f running = signalled
stop_received e f signalled = cc
stop_received e f stop_begun = cc
stop_received e f stopped = cc
stop_received e f closed = cc

routine_begun :
    {h : HandlerLoop} {s : StopRoutine} {d t m c : Bool} {n : ℕ}
    → h ≡ awaiting_startup
    → d ≡ true
    → Phase h s d t m c n
    → Phase selecting stopping d t true c (suc n)
routine_begun e f signalled =
    subst (λ b. Phase selecting stopping b true true false 1) (sym f) stop_begun
routine_begun e f running = cc
routine_begun e f stop_begun = cc
routine_begun e f stopped = cc
routine_begun e f closed = cc

routine_returned :
    {h : HandlerLoop} {s : StopRoutine} {d t m c : Bool} {n : ℕ}
    → s ≡ stopping
    → Phase h s d t m c n
    → Phase h complete d t m c n
routine_returned e stop_begun = stopped
routine_returned e running = cc
routine_returned e signalled = cc
routine_returned e stopped = stopped
routine_returned e closed = closed

handler_ended :
    {h : HandlerLoop} {s : StopRoutine} {d t m c : Bool} {n : ℕ}
    → h ≡ selecting
    → s ≡ complete
    → Phase h s d t m c n
    → Phase ended s d t m true n
handler_ended e f stopped = closed
handler_ended e f running = cc
handler_ended e f signalled = cc
handler_ended e f stop_begun = cc
handler_ended e f closed = cc

complete_done :
    {h : HandlerLoop} {s : StopRoutine} {d t m c : Bool} {n : ℕ}
    → s ≡ complete
    → Phase h s d t m c n
    → d ≡ true
complete_done e running = cc
complete_done e signalled = cc
complete_done e stop_begun = refl
complete_done e stopped = refl
complete_done e closed = refl

first_sent :
    {l : MainThread} {d b : Bool} {k : ℕ} (b' : Bool)
    → l ≡ starting
    → StartUp l d b k
    → StartUp reaping_started d b' k
first_sent b' e none_sent = one_sent
first_sent b' e one_sent = cc
first_sent b' e both_sent = cc
first_sent b' e after_mark = cc
first_sent b' e after_return = cc

second_sent :
    {l : MainThread} {d b : Bool} {k : ℕ} (k' : ℕ)
    → l ≡ reaping_started
    → StartUp l d b k
    → StartUp jobs_sent d b k'
second_sent k' e one_sent = both_sent
second_sent k' e none_sent = cc
second_sent k' e both_sent = cc
second_sent k' e after_mark = cc
second_sent k' e after_return = cc

left : {l : MainThread} {d b : Bool} {k : ℕ} → l ≡ marked → StartUp l d b k → StartUp returned d b k
left e after_mark = after_return
left e none_sent = cc
left e one_sent = cc
left e both_sent = cc
left e after_return = after_return

-- Once the handler listens for ended children, or the startup is done, reaping is right.
reaped_later :
    {l : MainThread} {d b : Bool} {k : ℕ} (k' : ℕ) → b ≡ true → StartUp l d b k → StartUp l d b k'
reaped_later k' e none_sent = cc
reaped_later k' e one_sent = one_sent
reaped_later k' e both_sent = both_sent
reaped_later k' e after_mark = after_mark
reaped_later k' e after_return = after_return

reaped_last :
    {l : MainThread} {d b : Bool} {k : ℕ} (b' : Bool) (k' : ℕ)
    → d ≡ true
    → StartUp l d b k
    → StartUp l d b' k'
reaped_last b' k' e none_sent = cc
reaped_last b' k' e one_sent = one_sent
reaped_last b' k' e both_sent = both_sent
reaped_last b' k' e after_mark = after_mark
reaped_last b' k' e after_return = after_return

pub Step-PhaseOf : {p q : Process} → Step p q → PhaseOf p → PhaseOf q
unfolding process_control_signal reap_zombies
Step-PhaseOf (child_ends p u) x = x
Step-PhaseOf (send_start_reaping p e f) x = x
Step-PhaseOf (send_reap_now p e f) x = x
Step-PhaseOf (mark_startup_complete p e) x = done_kept x
Step-PhaseOf (startup_fails p e) x = done_kept x
Step-PhaseOf (set_fails p e) x = x
Step-PhaseOf (main_returns p e f) x = x
Step-PhaseOf (receive_stop p u e f) x = stop_received e f x
Step-PhaseOf (ignore_stop p u e f) x = x
Step-PhaseOf (startup_seen p u e f) x = routine_begun e f x
Step-PhaseOf (stop_returns p u e) x = routine_returned e x
Step-PhaseOf (shutdown_seen p u e f) x = handler_ended e f x
Step-PhaseOf (receive_child p u e f) x = x

Step-StartUpOf : {p q : Process} → Step p q → PhaseOf p → StartUpOf p → StartUpOf q
unfolding process_control_signal reap_zombies
Step-StartUpOf (child_ends p u) x y = y
Step-StartUpOf (send_start_reaping p e f) x y = first_sent _ e y
Step-StartUpOf (send_reap_now p e f) x y = second_sent _ e y
Step-StartUpOf (mark_startup_complete p e) x y = after_mark
Step-StartUpOf (startup_fails p e) x y = after_return
Step-StartUpOf (set_fails p e) x y = left e y
Step-StartUpOf (main_returns p e f) x y = left e y
Step-StartUpOf (receive_stop p u e f) x y = y
Step-StartUpOf (ignore_stop p u e f) x y = y
Step-StartUpOf (startup_seen p u e f) x y = y
Step-StartUpOf (stop_returns p u e) x y = y
Step-StartUpOf (shutdown_seen p u e f) x y = reaped_last _ _ (complete_done f x) y
Step-StartUpOf (receive_child p u e f) x y = reaped_later _ f y

Reach-PhaseOf : {p q : Process} → Reach p q → PhaseOf p → StartUpOf p → PhaseOf q × StartUpOf q
Reach-PhaseOf here x y = (x, y)
Reach-PhaseOf (next r st) x y =
    let (x', y') = Reach-PhaseOf r x y in (Step-PhaseOf st x', Step-StartUpOf st x' y')

-- What holds wherever the process comes to.
pub reached : {q : Process} (zombies : ℕ) → Reach (begun zombies) q → PhaseOf q × StartUpOf q
reached zombies r = Reach-PhaseOf r running none_sent
