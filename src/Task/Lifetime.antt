-- ===== src/Task/Lifetime.antt =====
-- kernel/task.cpp: what every operation keeps: the invariant, and the idle task running.
use uhyok_os.Base.{
  ℕ, ◌+◌, ◌^◌, ◌≤◌, ◌<◌, ◌≡◌, ◌≢◌, refl, false, List, [], none, some, arith, ◌==◌, if◌then◌else◌,
  Option-cases, inl, inr,
}
use uhyok_os.Message.{Message}
use uhyok_os.Task.Store.{messages, Task, find, modify, apply_to, find-modify, find-append}
use uhyok_os.Task.Invariant.{Inv}
use uhyok_os.Task.Switching.{Switched}
use uhyok_os.Task.Sleeping.{run_level, Slept, stopped, find-stopped}
use uhyok_os.Task.Waking.{Woken}
use uhyok_os.Task.Messages.{Delivered}
use uhyok_os.Task.{
  TaskManager, Switch, max_level, idle_id, init, new_task, start_task, fresh_task, push_running,
  set_level, set_running,
}

abbrev pub LevelsIn : List Task → Type 0
LevelsIn ts = (j : ℕ) (u : Task) → find j ts ≡ some u → u.level ≤ max_level

-- Ids above the latest are unused.
abbrev pub Fresh : ℕ → List Task → Type 0
Fresh latest ts = (j : ℕ) → latest < j → find j ts ≡ none

-- The invariant with the idle task running, every level in range and new ids unused.
pub record Safe (m : TaskManager) : Type 0 where
  pub inv : Inv m
  pub idle_level : ℕ
  pub idle : run_level idle_id m ≡ some idle_level
  pub levels : LevelsIn m.tasks
  pub fresh : Fresh m.latest_id m.tasks

-- The manager as constructed is safe.
pub init-Safe : Safe init
unfolding init start_task new_task fresh_task set_level set_running push_running find modify
init-Safe = record {
  inv = record {
    placed = λ j k. ground arith;
    bounded = λ k h. ground arith;
    level_in = omega arith;
    current = λ z. cc;
    highest = λ _ k h. ground arith;
  };
  idle_level = 0;
  idle = refl;
  levels = λ j u e. ground arith;
  fresh = λ j h. ground arith;
}

-- A task that is made does not run: the invariant stays, and its id is its own.
pub new_task-Safe : {m : TaskManager} → Safe m → m.latest_id + 1 < 2 ^ 64 → Safe (new_task m).0
unfolding new_task fresh_task
new_task-Safe {m} s h = record {
  inv = record {
    placed = λ j k. ground (
      arith,
      s.inv.placed j k,
      s.fresh (m.latest_id + 1),
      find-append j m.tasks (fresh_task (m.latest_id + 1)),
    );
    bounded = s.inv.bounded;
    level_in = s.inv.level_in;
    current = s.inv.current;
    highest = s.inv.highest;
  };
  idle_level = s.idle_level;
  idle = ground (arith, s.idle, find-append idle_id m.tasks (fresh_task (m.latest_id + 1)));
  levels = λ j u e.
      ground (arith, s.levels j u, find-append j m.tasks (fresh_task (m.latest_id + 1)), e);
  fresh = λ j k.
      ground (arith, s.fresh j (omega arith), find-append j m.tasks (fresh_task (m.latest_id + 1)));
}

pub latest_id-new_task : (m : TaskManager) → (new_task m).0.latest_id ≤ m.latest_id + 1
unfolding new_task
latest_id-new_task m = omega arith

pub latest_id-init : init.latest_id ≡ 2
unfolding init start_task new_task push_running set_running set_level
latest_id-init = refl

pub Switched-Safe : {m m' : TaskManager} {w : Switch} → Safe m → Switched m w m' → Safe m'
Switched-Safe {m} s sw = record {
  inv = sw.inv;
  idle_level = s.idle_level;
  idle = rw sw.tasks s.idle;
  levels = rw sw.tasks s.levels;
  fresh = rw (sw.tasks, sw.latest) s.fresh;
}

-- A task taken from the store of a wake-up is at the level asked for, or as it was.
pub Woken-Safe :
    {m m' : TaskManager} (id level : ℕ) (t : Task)
    → level ≤ max_level
    → find id m.tasks ≡ some t
    → Safe m
    → Woken id level m m'
    → Safe m'
Woken-Safe {m} {m'} id level t h found s w = record {
  inv = w.inv;
  idle_level = if id == idle_id then level else s.idle_level;
  idle = ground (arith, s.idle, w.runs, w.others idle_id);
  levels = λ j u e. ground (arith, w.runs, w.others j, s.levels j u, e);
  fresh = λ j k. ground (arith, w.latest, w.others j, s.fresh j, s.fresh id, found);
}

pub Slept-Safe :
    {m m' : TaskManager} (v : Inv m) (id level : ℕ) (runs : run_level id m ≡ some level)
    → id ≢ idle_id
    → Safe m
    → Slept v id level runs m'
    → Safe m'
Slept-Safe {m} {m'} v id level runs ne s sl = record {
  inv = sl.inv;
  idle_level = s.idle_level;
  idle = ground (arith, sl.tasks, s.idle, ne, find-stopped id idle_id m.tasks);
  levels = λ j u e. elim (Option-cases (find j m.tasks)) [
    | inl no_task ↦ ground (arith, sl.tasks, e, found j, no_task)
    | inr (t, had) ↦ ground (arith, sl.tasks, e, found j, had, s.levels j t had)
  ];
  fresh = λ j k. ground (arith, sl.tasks, sl.latest, found j, s.fresh j);
}
  where
    found :
        (j : ℕ)
        → find j (stopped id m.tasks) ≡ (
            if id == j
            then apply_to (λ t. record t { running = false }) (find j m.tasks)
            else find j m.tasks)
    found j = find-modify id j (λ t. record t { running = false }) m.tasks (λ t. refl)

pub Delivered-Safe :
    {m m' : TaskManager} (id : ℕ) (t : Task) (msg : Message)
    → find id m.tasks ≡ some t
    → Safe m
    → Delivered id t msg m m'
    → Safe m'
Delivered-Safe {m} {m'} id t msg found s d = record {
  inv = d.inv;
  idle_level = if id == idle_id then t.level else s.idle_level;
  idle = ground (arith, s.idle, d.runs, d.others idle_id);
  levels = λ j u e. ground (arith, d.runs, d.others j, s.levels j u, s.levels id t found, e);
  fresh = λ j k. ground (arith, d.latest, d.others j, s.fresh j, s.fresh id, found);
}

-- The first task starts with no messages.
pub inbox-init : messages (find 1 init.tasks) ≡ some []
unfolding init start_task new_task fresh_task set_level set_running push_running find modify
inbox-init = refl
