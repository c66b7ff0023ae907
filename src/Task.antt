-- ===== src/Task.antt =====
-- kernel/task.hpp and kernel/task.cpp: tasks, their message queues and the scheduler.
-- A `Task*` is the task's id: the manager gives each task its own. What is undefined in the source
-- (the front of an empty deque, a pointer to no task) is `none`.
pub mod Store
pub mod Invariant
pub mod Switching
pub mod Sleeping
pub mod Waking
pub mod Messages
pub mod Lifetime
pub mod History
mod Tests
use uhyok_os.Base.{
  ℕ, zero, suc, ◌+◌, ◌^◌, ◌%◌, ◌≡◌, Bool, true, false, not, ◌||◌, List, [], ◌∷◌, ◌++◌, Option, none,
  some, add64, ltb, ◌==◌, if◌then◌else◌,
}
use uhyok_os.Base.Int.{ℤ, pos, negsuc}
use uhyok_os.Errors.{Code, success, no_such_task}
use uhyok_os.Message.{Message}
use Store.{Task, find, modify, erase, update, is_empty, pop_front}

-- `kMaxLevel` and `kDefaultLevel`.
abbrev pub max_level : ℕ
max_level = 3

abbrev pub default_level : ℕ
default_level = 1

-- `running_` is read as a function of the level; the levels in use are 0 to `max_level`.
pub record TaskManager : Type 0 where
  pub tasks : List Task
  pub latest_id : ℕ
  pub running : ℕ → List ℕ
  pub current_level : ℕ
  pub level_changed : Bool

-- The arguments of `SwitchContext`.
pub record Switch : Type 0 where
  pub next : ℕ
  pub current : ℕ

-- `Task::Task`.
pub fresh_task : ℕ → Task
fresh_task id = record { id = id; level = default_level; running = false; msgs = [] }

-- `NewTask`; the id of the new task stands for the reference.
pub new_task : TaskManager → TaskManager × ℕ
unfolding fresh_task
new_task m =
    let id = add64 m.latest_id 1 in
    (record m { latest_id = id; tasks = m.tasks ++ fresh_task id ∷ [] }, id)

pub set_level : ℕ → ℕ → TaskManager → TaskManager
set_level id level m = record m { tasks = modify id (λ t. record t { level = level }) m.tasks }

pub set_running : ℕ → Bool → TaskManager → TaskManager
set_running id b m = record m { tasks = modify id (λ t. record t { running = b }) m.tasks }

pub push_running : ℕ → ℕ → TaskManager → TaskManager
push_running level id m = record m { running = update m.running level (m.running level ++ id ∷ []) }

-- `for (lv = kMaxLevel; lv >= 0; --lv)`, with `lv + 1` rounds left.
pub search_level : (ℕ → List ℕ) → ℕ → ℕ → ℕ
search_level running zero current = current
search_level running (suc lv) current =
    if is_empty (running lv) then search_level running lv current else lv

-- The part of `SwitchTask` under `if (level_changed_)`.
pub reselect : TaskManager → TaskManager
reselect m =
    if m.level_changed
    then record m {
      level_changed = false;
      current_level = search_level m.running (suc max_level) m.current_level;
    }
    else m

-- The end of `SwitchTask`: the next task is the front of the level selected.
dispatch : ℕ → TaskManager → List ℕ → Option (TaskManager × Switch)
dispatch current m [] = none
dispatch current m (next ∷ _) = some (m, record { next = next; current = current })

-- `SwitchTask` on the queue of the current level.
switch_from : Bool → TaskManager → List ℕ → Option (TaskManager × Switch)
unfolding dispatch
switch_from sleeps m [] = none
switch_from sleeps m (current ∷ rest) =
    let queue = if sleeps then rest else rest ++ current ∷ [] in
    let moved = reselect (record m {
      running = update m.running m.current_level queue;
      level_changed = m.level_changed || is_empty queue;
    }) in
    dispatch current moved (moved.running moved.current_level)

pub switch_task : Bool → TaskManager → Option (TaskManager × Switch)
unfolding switch_from
switch_task sleeps m = switch_from sleeps m (m.running m.current_level)

-- `running_[current_level_].front()`.
pub current_task : TaskManager → Option ℕ
current_task m = elim (m.running m.current_level) [ [] ↦ none | id ∷ _ ↦ some id ]

is_current : ℕ → TaskManager → Option Bool
unfolding current_task
is_current id m = elim (current_task m) [ none ↦ none | some front ↦ some (front == id) ]

abbrev pub with_switch : Option (TaskManager × Switch) → Option (TaskManager × Option Switch)
with_switch none = none
with_switch (some (m, s)) = some (m, some s)

-- `Sleep(Task*)` of a running task at this level.
sleep_running : ℕ → ℕ → TaskManager → Option Bool → Option (TaskManager × Option Switch)
sleep_running id level m none = none
sleep_running id level m (some true) = with_switch (switch_task true m)
sleep_running id level m (some false) =
    some (record m { running = update m.running level (erase id (m.running level)) }, none)

-- `Sleep(Task*)`: the new state, and the switch if one is made.
pub sleep : ℕ → TaskManager → Option (TaskManager × Option Switch)
unfolding sleep_running is_current
sleep id m = elim (find id m.tasks) [
  | none ↦ none
  | some t ↦
      if t.running
      then sleep_running id t.level (set_running id false m)
          (is_current id (set_running id false m))
      else some (m, none)
]

-- `if (level > current_level_) level_changed_ = true;`
abbrev pub note_level : ℕ → TaskManager → TaskManager
note_level level m = record m {
  level_changed = if ltb m.current_level level then true else m.level_changed;
}

-- `ChangeLevelRunning` once the level is known to be another one.
change_level : ℕ → ℕ → ℕ → TaskManager → Option Bool → Option TaskManager
change_level id old level m none = none
change_level id old level m (some false) = some (
    note_level level (
      set_level id level (
        push_running level id
          (record m { running = update m.running old (erase id (m.running old)) }))))
change_level id old level m (some true) =
    let popped = update m.running m.current_level (pop_front (m.running m.current_level)) in
    some (
      set_level id level (record m {
        running = update popped level (id ∷ popped level);
        current_level = level;
        level_changed = if ltb level m.current_level then true else m.level_changed;
      }))

-- `ChangeLevelRunning(task, level)`: a negative level, or the task's own, changes nothing.
change_level_running : Task → ℤ → TaskManager → Option TaskManager
unfolding change_level is_current
change_level_running t (negsuc _) m = some m
change_level_running t (pos level) m =
    if level == t.level then some m else change_level t.id t.level level m (is_current t.id m)

-- `Wakeup(Task*, level)` of a sleeping task: a negative level keeps the task's own.
abbrev pub wake_level : ℕ → ℤ → ℕ
wake_level own (negsuc _) = own
wake_level own (pos level) = level

wake_sleeping : Task → ℕ → TaskManager → TaskManager
wake_sleeping t level m =
    note_level level (push_running level t.id (set_running t.id true (set_level t.id level m)))

pub wakeup_task : Task → ℤ → TaskManager → Option TaskManager
unfolding change_level_running wake_sleeping
wakeup_task t level m =
    if t.running
    then change_level_running t level m
    else some (wake_sleeping t (wake_level t.level level) m)

-- `Wakeup(Task*, level)`.
pub wakeup : ℕ → ℤ → TaskManager → Option TaskManager
wakeup id level m = elim (find id m.tasks) [ none ↦ none | some t ↦ wakeup_task t level m ]

-- `Sleep(uint64_t)`.
pub sleep_by_id : ℕ → TaskManager → Option (TaskManager × Code × Option Switch)
sleep_by_id id m = elim (find id m.tasks) [
  | none ↦ some (m, no_such_task, none)
  | some _ ↦ elim (sleep id m) [ none ↦ none | some (m', s) ↦ some (m', success, s) ]
]

-- `Wakeup(uint64_t, level)`.
pub wakeup_by_id : ℕ → ℤ → TaskManager → Option (TaskManager × Code)
wakeup_by_id id level m = elim (find id m.tasks) [
  | none ↦ some (m, no_such_task)
  | some _ ↦ elim (wakeup id level m) [ none ↦ none | some m' ↦ some (m', success) ]
]

-- `msgs_.push_back(msg)`.
abbrev pub push_message : Message → Task → Task
push_message msg t = record t { msgs = t.msgs ++ msg ∷ [] }

-- `TaskManager::SendMessage`, which calls `Task::SendMessage`, which calls `Task::Wakeup`.
pub send_message : ℕ → Message → TaskManager → Option (TaskManager × Code)
send_message id msg m = elim (find id m.tasks) [
  | none ↦ some (m, no_such_task)
  | some _ ↦
      elim (wakeup id (negsuc 0) (record m { tasks = modify id (push_message msg) m.tasks })) [
        | none ↦ none
        | some m' ↦ some (m', success)
      ]
]

-- `Task::ReceiveMessage`: the oldest message, and the task without it.
take_message : ℕ → TaskManager → List Message → TaskManager × Option Message
take_message id m [] = (m, none)
take_message id m (msg ∷ rest) =
    (record m { tasks = modify id (λ t. record t { msgs = rest }) m.tasks }, some msg)

pub receive_message : ℕ → TaskManager → Option (TaskManager × Option Message)
unfolding take_message
receive_message id m = elim (find id m.tasks) [
  | none ↦ none
  | some t ↦ some (take_message id m t.msgs)
]

-- `NewTask().SetLevel(level).SetRunning(true); running_[level].push_back(&task);`
start_task : ℕ → TaskManager → TaskManager
unfolding new_task set_level set_running push_running
start_task level m =
    let (m', id) = new_task m in push_running level id (set_running id true (set_level id level m'))

-- The constructor: the task that runs now at the highest level, and the idle task at level 0.
pub init : TaskManager
unfolding start_task
init = start_task 0 (
    start_task max_level (record {
      tasks = [];
      latest_id = 0;
      running = λ _. [];
      current_level = max_level;
      level_changed = false;
    }))

-- The ids that the constructor gives.
abbrev pub main_id : ℕ
main_id = 1

abbrev pub idle_id : ℕ
idle_id = 2
