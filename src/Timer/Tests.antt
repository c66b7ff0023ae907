-- ===== src/Timer/Tests.antt =====
-- kernel/timer.cpp: ticks at concrete timers, and the theorems at inputs that they cover.
use uhyok_os.Base.{◌≡◌, refl, true, [], ◌∷◌, Option, some, arith, ltb}
use uhyok_os.Base.Int.{pos}
use uhyok_os.Task.{TaskManager, Switch, main_id}
use uhyok_os.Task
use uhyok_os.Task.Lifetime.{init-Safe, inbox-init}
use uhyok_os.Timer.Queue.{insert, task_timer_value}
use uhyok_os.Timer.{TimerManager, tick, tick_loop, sentinel}
use uhyok_os.Timer.Ticking.{IsValid, TickedTo, tick-TickedTo, due_messages, due_tasks}
use uhyok_os.Timer.Interrupt.{on_interrupt, Interrupted, on_interrupt-Interrupted}

-- At tick 9, with a timer and the task timer due at 10.
abbrev timers : TimerManager
timers = record {
  tick = 9;
  timers =
      record { timeout = 10; value = pos 7 }
      ∷ record { timeout = 10; value = task_timer_value }
      ∷ record { timeout = 12; value = pos 8 }
      ∷ sentinel
      ∷ [];
}

timers-IsValid : IsValid timers
timers-IsValid = record { sorted = omega arith; guarded = omega arith }

tick_runs :
    tick timers
    ≡ some (
      record {
        tick = 10;
        timers =
            record { timeout = 12; value = pos 8 }
            ∷ record { timeout = 12; value = task_timer_value }
            ∷ sentinel
            ∷ [];
      },
      due_messages 10 timers.timers,
      true,
    )
unfolding tick tick_loop insert
tick_runs = refl

tick-TickedTo_example :
    (m' : TimerManager) × (tick timers
      ≡ some (m', due_messages 10 timers.timers, ltb 0 (due_tasks 10 timers.timers)))
    × TickedTo timers m'
tick-TickedTo_example = tick-TickedTo timers-IsValid (omega arith)

on_interrupt-Interrupted_example :
    (timers' : TimerManager) × (tasks' : TaskManager) × (s : Option Switch) × (on_interrupt timers
        Task.init
      ≡ some (timers', tasks', s))
    × Interrupted timers Task.init [] timers' tasks' s
on_interrupt-Interrupted_example =
    on_interrupt-Interrupted timers-IsValid (omega arith) init-Safe inbox-init
