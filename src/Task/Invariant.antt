-- ===== src/Task/Invariant.antt =====
-- kernel/task.cpp: the invariant of the scheduler.
use uhyok_os.Base.{ℕ, ◌≤◌, ◌<◌, ◌≡◌, ◌≢◌, false, List, [], Option, none, some, ◌==◌, if◌then◌else◌}
use uhyok_os.Task.Store.{Task, find, count, level_if_running}
use uhyok_os.Task.{TaskManager, max_level}

-- How often a task stands in the queue of a level: once at its level if it runs, else never.
abbrev pub places : Option ℕ → ℕ → ℕ
places none level = 0
places (some k) level = if k == level then 1 else 0

-- The run queues hold exactly the running tasks, each once and at its own level.
abbrev pub Placed : List Task → (ℕ → List ℕ) → Type 0
Placed tasks running =
    (id level : ℕ) → count id (running level) ≡ places (level_if_running (find id tasks)) level

-- No queue lies beyond the array of levels.
abbrev pub Bounded : (ℕ → List ℕ) → Type 0
Bounded running = (level : ℕ) → max_level < level → running level ≡ []

-- Nothing waits above the level.
abbrev pub Highest : (ℕ → List ℕ) → ℕ → Type 0
Highest running current = (level : ℕ) → current < level → running level ≡ []

pub record Inv (m : TaskManager) : Type 0 where
  pub placed : Placed m.tasks m.running
  pub bounded : Bounded m.running
  pub level_in : m.current_level ≤ max_level
  pub current : m.running m.current_level ≢ []
  pub highest : m.level_changed ≡ false → Highest m.running m.current_level
