-- ===== src/Timer/Interrupt.antt =====
-- kernel/timer.cpp and kernel/task.cpp: the timer interrupt, where the timers drive the scheduler.
use mathlib.Core.List.{append-nil, append_assoc}
use uhyok_os.Base.{
  ℕ, suc, ◌+◌, ◌^◌, ◌<◌, ◌≡◌, ◌≢◌, refl, ap, sym, ◌∙◌, Bool, true, false, List, [], ◌∷◌, ◌++◌,
  Option, none, some, arith, add64, ltb, ◌↔◌,
}
use uhyok_os.Message.{Message}
use uhyok_os.Task.Store.{Task, find}
use uhyok_os.Task.{TaskManager, Switch, send_message, switch_task, current_task, main_id}
use uhyok_os.Task.Invariant.{Highest}
use uhyok_os.Task.Switching.{switch_task-Switched}
use uhyok_os.Task.Messages.{inbox, send_message-Delivered}
use uhyok_os.Task.Lifetime.{Safe, Delivered-Safe, Switched-Safe}
use uhyok_os.Timer.Queue.{task_timer_value}
use uhyok_os.Timer.{TimerManager, tick, task_timer_period, add_timer}
use uhyok_os.Timer.Ticking.{
  IsValid, TickedTo, tick-TickedTo, due_messages, due_tasks, add_timer-IsValid,
}

-- `task_manager->SendMessage(1, m)` for each message of a tick, in order. The loop of `Tick` reads
-- nothing that a delivery writes, so the deliveries may follow it.
pub deliver : List Message → TaskManager → Option TaskManager
deliver [] tasks = some tasks
deliver (msg ∷ msgs) tasks = elim (send_message main_id msg tasks) [
  | none ↦ none
  | some (tasks', _) ↦ deliver msgs tasks'
]

abbrev pub switch_if :
    Bool → TimerManager → TaskManager → Option (TimerManager × TaskManager × Option Switch)
switch_if false timers tasks = some (timers, tasks, none)
switch_if true timers tasks = elim (switch_task false tasks) [
  | none ↦ none
  | some (tasks', s) ↦ some (timers, tasks', some s)
]

-- `LAPICTimerOnInterrupt`; `NotifyEndOfInterrupt` writes to the device alone.
pub on_interrupt : TimerManager → TaskManager → Option (TimerManager × TaskManager × Option Switch)
on_interrupt timers tasks = elim (tick timers) [
  | none ↦ none
  | some (timers', msgs, task_timeout) ↦ elim (deliver msgs tasks) [
    | none ↦ none
    | some tasks' ↦ switch_if task_timeout timers' tasks'
  ]
]

-- `InitializeTask`: the first task timer.
pub start_task_timer : TimerManager → TimerManager
start_task_timer m =
    add_timer (record { timeout = add64 m.tick task_timer_period; value = task_timer_value }) m

pub start_task_timer-IsValid : {m : TimerManager} → IsValid m → IsValid (start_task_timer m)
unfolding start_task_timer
start_task_timer-IsValid v = add_timer-IsValid _ v

inbox_found :
    (id : ℕ) (m : TaskManager) {l : List Message}
    → inbox id m ≡ some l
    → (t : Task) × (find id m.tasks ≡ some t) × (t.msgs ≡ l)
inbox_found id m e = ground (arith, e)

deliver-Safe :
    (msgs : List Message) {m : TaskManager} {l : List Message}
    → Safe m
    → inbox main_id m ≡ some l
    → (m' : TaskManager) × (deliver msgs m ≡ some m')
      × Safe m'
      × (inbox main_id m' ≡ some (l ++ msgs))
      × (current_task m' ≡ current_task m)
unfolding deliver
deliver-Safe [] {m} {l} s e = (m, refl, s, e ∙ ap some (sym (append-nil l)), refl)
deliver-Safe (msg ∷ msgs) {m} {l} s e =
    let (t, found, had) = inbox_found main_id m e in
    let (m', sent, d) =
      send_message-Delivered main_id t msg s.inv found (s.levels main_id t found) in
    let (m'', rest, s'', got, same) =
      deliver-Safe msgs (Delivered-Safe main_id t msg found s d) d.received in
    (
      m'',
      ground (arith, sent, rest),
      s'',
      got ∙ ap some (append_assoc t.msgs (msg ∷ []) msgs ∙ ap (λ k. k ++ msg ∷ msgs) had),
      same ∙ d.same,
    )

-- What the interrupt leaves. A switch is from the task that ran to the front of the level selected.
pub record Interrupted (timers : TimerManager) (tasks : TaskManager) (l : List Message)
    (timers' : TimerManager) (tasks' : TaskManager) (s : Option Switch) : Type 0 where
  pub ticked : TickedTo timers timers'
  pub safe : Safe tasks'
  pub delivered : inbox main_id tasks' ≡ some (l ++ due_messages (timers.tick + 1) timers.timers)
  pub switched : (s ≡ none) ↔ (due_tasks (timers.tick + 1) timers.timers ≡ 0)
  pub highest : s ≢ none → Highest tasks'.running tasks'.current_level
  pub from : (w : Switch) → s ≡ some w → current_task tasks ≡ some w.current
  pub to : (w : Switch) → s ≡ some w → current_task tasks' ≡ some w.next
  pub stays : s ≡ none → current_task tasks' ≡ current_task tasks

Option-some : (w u : Switch) → some w ≡ some u → w ≡ u
Option-some w u e = ap (λ o. elim o [ none ↦ w | some x ↦ x ]) e

switch_if-Interrupted :
    (timers timers' : TimerManager) (before tasks : TaskManager) (l : List Message) (n : ℕ)
    → n ≡ due_tasks (timers.tick + 1) timers.timers
    → TickedTo timers timers'
    → Safe tasks
    → inbox main_id tasks ≡ some (l ++ due_messages (timers.tick + 1) timers.timers)
    → current_task tasks ≡ current_task before
    → (tasks' : TaskManager) × (s : Option Switch) × (switch_if (ltb 0 n) timers' tasks
        ≡ some (timers', tasks', s))
      × Interrupted timers before l timers' tasks' s
switch_if-Interrupted timers timers' before tasks l ℕ.zero en k s got same = (
  tasks,
  none,
  refl,
  record {
    ticked = k;
    safe = s;
    delivered = got;
    switched = (λ _. sym en, λ _. refl);
    highest = λ ne. absurd (ne refl);
    from = λ w e. absurd (ground (arith, e));
    to = λ w e. absurd (ground (arith, e));
    stays = λ _. same;
  },
)
switch_if-Interrupted timers timers' before tasks l (suc n) en k s got same =
    let (tasks', w, run, ran, sw, high, _) = switch_task-Switched s.inv in
    (
      tasks',
      some w,
      ground (arith, run),
      record {
        ticked = k;
        safe = Switched-Safe s sw;
        delivered = rw sw.tasks got;
        switched = (λ p. cc, λ p. absurd (omega (arith, en ∙ p)));
        highest = λ _. high;
        from = λ u e. sym same ∙ ran ∙ ap some (ap (λ x. x.current) (Option-some w u e));
        to = λ u e. sw.next ∙ ap some (ap (λ x. x.next) (Option-some w u e));
        stays = λ e. absurd (ground (arith, e));
      },
    )

on_interrupt-eq :
    (timers : TimerManager) (tasks : TaskManager) {timers' : TimerManager} {tasks' : TaskManager}
    {msgs : List Message} {b : Bool}
    → tick timers ≡ some (timers', msgs, b)
    → deliver msgs tasks ≡ some tasks'
    → on_interrupt timers tasks ≡ switch_if b timers' tasks'
unfolding on_interrupt
on_interrupt-eq timers tasks ticked sent = rw (ticked, on_interrupt) (rw (sent, on_interrupt) refl)

-- A timer interrupt never fails on valid timers and a safe scheduler. Every timeout message that is
-- due reaches task 1, in order and after what it had; the scheduler is safe afterwards; and a
-- switch is made exactly if a task timer has run out, from the task that ran to the front of the
-- highest level that holds a task. With no switch the current task stays.
pub on_interrupt-Interrupted :
    {timers : TimerManager} {tasks : TaskManager} {l : List Message}
    → IsValid timers
    → timers.tick + 3 < 2 ^ 64
    → Safe tasks
    → inbox main_id tasks ≡ some l
    → (timers' : TimerManager) × (tasks' : TaskManager) × (s : Option Switch) × (on_interrupt timers
          tasks
        ≡ some (timers', tasks', s))
      × Interrupted timers tasks l timers' tasks' s
on_interrupt-Interrupted {timers} {tasks} {l} v h safe e =
    let (timers', ticked, k) = tick-TickedTo v h in
    let (tasks', sent, safe', got, same) =
      deliver-Safe (due_messages (timers.tick + 1) timers.timers) safe e in
    let (tasks'', s, run, i) =
      switch_if-Interrupted timers timers' tasks tasks' l
        (due_tasks (timers.tick + 1) timers.timers) refl k safe' got same in
    (timers', tasks'', s, on_interrupt-eq timers tasks ticked sent ∙ run, i)
