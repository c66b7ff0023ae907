-- ===== src/Task/Tests.antt =====
-- kernel/task.cpp: the scheduler at concrete states, and the theorems at inputs that they cover.
use uhyok_os.Base.{◌≡◌, ◌≢◌, ◌↔◌, refl, true, false, [], ◌∷◌, Option, none, some, arith}
use uhyok_os.Base.Int.{pos}
use uhyok_os.Errors.{success}
use uhyok_os.Message.{Message, layer_finish}
use uhyok_os.Task.Store.{Task, find, modify}
use uhyok_os.Task.Invariant.{Highest}
use uhyok_os.Task.Switching.{Switched, Rotated, switch_task-Switched}
use uhyok_os.Task.Sleeping.{run_level, Slept, sleep-Slept}
use uhyok_os.Task.Waking.{Woken, wakeup-Woken}
use uhyok_os.Task.Messages.{Delivered, send_message-Delivered}
use uhyok_os.Task.Lifetime.{Safe, init-Safe}
use uhyok_os.Task.History.{preempt, create, put_to_sleep, wake, send, receive, run, run-init-Safe}
use uhyok_os.Task.{
  TaskManager, Switch, init, switch_task, sleep, wakeup, send_message, current_task, idle_id,
  start_task, new_task, fresh_task, set_level, set_running, push_running,
}

abbrev main_task : Task
main_task = record { id = 1; level = 3; running = true; msgs = [] }

abbrev note : Message
note = record { body = layer_finish; src_task = 2 }

find-main : find 1 init.tasks ≡ some main_task
unfolding init start_task new_task fresh_task set_level set_running push_running find modify
find-main = refl

main-runs : run_level 1 init ≡ some 3
unfolding init start_task new_task fresh_task set_level set_running push_running find modify
main-runs = refl

idle-runs : run_level idle_id init ≡ some 0
unfolding init start_task new_task fresh_task set_level set_running push_running find modify
idle-runs = refl

switch_task-Switched_example :
    (m' : TaskManager) × (s : Switch) × (switch_task false init ≡ some (m', s))
    × (current_task init ≡ some s.current)
    × Switched init s m'
    × Highest m'.running m'.current_level
    × Rotated init s m'
switch_task-Switched_example = switch_task-Switched init-Safe.inv

sleep-Slept_example :
    (m' : TaskManager) × (s : Option Switch) × (sleep 1 init ≡ some (m', s))
    × Slept init-Safe.inv 1 3 main-runs m'
    × ((s ≡ none) ↔ (current_task init ≢ some 1))
sleep-Slept_example = sleep-Slept init-Safe.inv 1 3 main-runs idle_id 0 (omega arith) idle-runs

wakeup-Woken_example : (m' : TaskManager) × (wakeup 1 (pos 2) init ≡ some m') × Woken 1 2 init m'
wakeup-Woken_example = wakeup-Woken init-Safe.inv 1 main_task find-main (pos 2) (omega arith)

send_message-Delivered_example :
    (m' : TaskManager) × (send_message 1 note init ≡ some (m', success))
    × Delivered 1 main_task note init m'
send_message-Delivered_example =
    send_message-Delivered 1 main_task note init-Safe.inv find-main (omega arith)

run-init-Safe_example :
    (m : TaskManager) × (run
        (create ∷ wake 3 (pos 2) ∷ preempt ∷ put_to_sleep 1 ∷ send 1 note ∷ receive ∷ [])
        init
      ≡ some m)
    × Safe m
run-init-Safe_example =
    run-init-Safe (create ∷ wake 3 (pos 2) ∷ preempt ∷ put_to_sleep 1 ∷ send 1 note ∷ receive ∷ [])
      (tt, (omega arith, (tt, (omega arith, (tt, (tt, tt)))))) (omega arith)
