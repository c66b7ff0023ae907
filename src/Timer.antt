-- ===== src/Timer.antt =====
-- kernel/timer.hpp and kernel/timer.cpp: logical timers and the periodic task timer.
-- `std::priority_queue` is a list in order of timeout, least first, as `operator<` of timer.hpp makes
-- it: `top` is the head. Of equal timeouts the standard leaves the order open; here it is the order
-- of insertion.
pub mod Queue
pub mod Ticking
pub mod Interrupt
mod Tests
use uhyok_os.Base.{
  ℕ, suc, ◌+◌, ◌-◌, ◌^◌, Bool, true, false, List, [], ◌∷◌, ◌++◌, Option, none, some, add64, ltb,
  ◌==◌, if◌then◌else◌, length,
}
use uhyok_os.Base.Int.{ℤ, pos, negsuc}
use uhyok_os.Message.{Message, timer_timeout}
use uhyok_os.Task
use uhyok_os.Task.{TaskManager, Switch}
use Queue.{Timer, insert, task_timer_value, is_task_value}

pub record TimerManager : Type 0 where
  pub tick : ℕ
  pub timers : List Timer

-- `kTaskTimerPeriod` is 100 * 0.02.
abbrev pub task_timer_period : ℕ
task_timer_period = 2

-- The constructor's timer, which keeps `top` defined.
abbrev pub sentinel : Timer
sentinel = record { timeout = 2 ^ 64 - 1; value = negsuc 0 }

pub init : TimerManager
init = record { tick = 0; timers = insert sentinel [] }

pub add_timer : Timer → TimerManager → TimerManager
add_timer t m = record m { timers = insert t m.timers }

-- `Message m{kTimerTimeout}` with the timer's timeout and value.
abbrev pub timeout_message : Timer → Message
timeout_message t = record { body = timer_timeout t.timeout t.value; src_task = 0 }

-- The loop of `Tick`: what is left of the timers, the messages sent to task 1 in order, and
-- whether the task timer ran out. `none` is the top of an empty queue, or the end of the fuel.
pub tick_loop : ℕ → ℕ → List Timer → List Message → Bool → Option (List Timer × List Message × Bool)
tick_loop fuel now [] sent task_timeout = none
tick_loop ℕ.zero now (t ∷ ts) sent task_timeout = none
tick_loop (suc fuel) now (t ∷ ts) sent task_timeout =
    let again =
      tick_loop fuel now
        (insert (record { timeout = add64 now task_timer_period; value = task_timer_value }) ts)
        sent true in
    let rest = tick_loop fuel now ts (sent ++ timeout_message t ∷ []) task_timeout in
    if ltb now t.timeout
    then some (t ∷ ts, sent, task_timeout)
    else if is_task_value t.value
    then again
    else rest

abbrev loop_end :
    ℕ → Option (List Timer × List Message × Bool) → Option (TimerManager × List Message × Bool)
loop_end now none = none
loop_end now (some (ts, sent, b)) = some (record { tick = now; timers = ts }, sent, b)

-- `Tick`. No timer runs out twice, so the timers bound the rounds.
pub tick : TimerManager → Option (TimerManager × List Message × Bool)
tick m =
    let now = add64 m.tick 1 in
    loop_end now (tick_loop (suc (length m.timers)) now m.timers [] false)
