-- ===== src/Task/Sleeping.antt =====
-- kernel/task.cpp: `Sleep`.
use uhyok_os.Base.{
  ℕ, ◌≡◌, ◌≢◌, refl, ap, ◌∙◌, true, false, List, [], ◌∷◌, Option, none, some, arith, ◌==◌, ◌↔◌,
  ℕ_discrete, if◌then◌else◌, List-cases, inl, inr,
}
use uhyok_os.Task.Store.{
  Task, find, modify, erase, update, count, count-erase, level_if_running, find-modify,
}
use uhyok_os.Task.Invariant.{Inv, Placed}
use uhyok_os.Task.Switching.{Ready, requeued, switch_from-Switched, current_task-eq}
use uhyok_os.Task.{TaskManager, Switch, set_running, sleep, sleep_running, is_current, current_task}

abbrev pub run_level : ℕ → TaskManager → Option ℕ
run_level id m = level_if_running (find id m.tasks)

-- The store after `task->SetRunning(false)`.
abbrev pub stopped : ℕ → List Task → List Task
stopped id = modify id (λ t. record t { running = false })

pub find-stopped :
    (id j : ℕ) (ts : List Task)
    → level_if_running (find j (stopped id ts))
      ≡ (if id == j then none else level_if_running (find j ts))
find-stopped id j ts =
    ground (arith, find-modify id j (λ t. record t { running = false }) ts (λ t. refl))

-- The state after `Erase(running_[task->Level()], task)`.
abbrev erased : ℕ → ℕ → TaskManager → TaskManager
erased id level m = record m {
  tasks = stopped id m.tasks;
  running = update m.running level (erase id (m.running level));
}

-- With every copy of a task gone from the queues, they hold the tasks that still run.
stopped-Placed :
    (id : ℕ) (ts : List Task) (q q' : ℕ → List ℕ)
    → Placed ts q
    → ((j level : ℕ) → count j (q' level) ≡ (if id == j then 0 else count j (q level)))
    → Placed (stopped id ts) q'
stopped-Placed id ts q q' p gone j level =
    ground (arith, gone j level, p j level, find-stopped id j ts)

count-ne-nil : (j : ℕ) (xs : List ℕ) → count j xs ≡ 1 → xs ≢ []
count-ne-nil j [] h e = omega arith
count-ne-nil j (x ∷ xs) h e = cc

module _ {m : TaskManager} (v : Inv m) (id level : ℕ) (runs : run_level id m ≡ some level) where
  -- The front of the current level goes.
  front-gone :
      (rest : List ℕ)
      → m.running m.current_level ≡ id ∷ rest
      → (j k : ℕ)
      → count j (update m.running m.current_level rest k)
        ≡ (if id == j then 0 else count j (m.running k))
  front-gone rest e j k = ground (
    arith,
    e,
    ap (count id) e,
    ap (count j) e,
    runs,
    v.placed id m.current_level,
    v.placed id k,
    v.placed j m.current_level,
  )

  erased-gone :
      (j k : ℕ)
      → count j (update m.running level (erase id (m.running level)) k)
        ≡ (if id == j then 0 else count j (m.running k))
  erased-gone j k = ground (arith, runs, v.placed id k, count-erase id j (m.running level))

  -- The state of `SwitchTask(true)` once the front is gone.
  front-Ready :
      (rest : List ℕ) (j k : ℕ)
      → m.running m.current_level ≡ id ∷ rest
      → j ≢ id
      → run_level j m ≡ some k
      → Ready (requeued (set_running id false m) rest)
  unfolding set_running
  front-Ready rest j k e ne other = record {
    placed = stopped-Placed id m.tasks m.running _ v.placed (front-gone rest e);
    bounded = λ n h. ground (arith, v.bounded n h, v.level_in);
    level_in = v.level_in;
    level = k;
    someone = count-ne-nil j _ (ground (arith, front-gone rest e j k, v.placed j k, other));
    settled = λ p. (λ z. ground arith, λ n h. ground (arith, v.highest (ground arith) n h));
  }

  -- A task behind another one at its level, or at another level, leaves its queue.
  erased-Inv :
      (c : ℕ) (rest : List ℕ)
      → m.running m.current_level ≡ c ∷ rest
      → c ≢ id
      → Inv (erased id level m)
  unfolding erase
  erased-Inv c rest e ne = record {
    placed = stopped-Placed id m.tasks m.running _ v.placed erased-gone;
    bounded = λ n h. ground (arith, v.bounded n h);
    level_in = v.level_in;
    current = λ z. ground (arith, e, ap (erase id) e);
    highest = λ p n h. ground (arith, v.highest p n h);
  }

  running_task : (t : Task) × (find id m.tasks ≡ some t) × (t.running ≡ true) × (t.level ≡ level)
  running_task = ground (arith, runs)

  sleep-eq :
      (c : ℕ) (rest : List ℕ)
      → m.running m.current_level ≡ c ∷ rest
      → sleep id m ≡ sleep_running id level (set_running id false m) (some (c == id))
  unfolding sleep is_current set_running
  sleep-eq c rest e =
      let (t, found, on, at) = running_task in
      ground (arith, found, on, at, current_task-eq (set_running id false m) e)

  -- Where `Sleep` ends: the task no longer runs, and no other task was written.
  pub record Slept (m' : TaskManager) : Type 0 where
    pub inv : Inv m'
    pub tasks : m'.tasks ≡ stopped id m.tasks
    pub latest : m'.latest_id ≡ m.latest_id
    pub asleep : run_level id m' ≡ none

  asleep : (m' : TaskManager) → m'.tasks ≡ stopped id m.tasks → run_level id m' ≡ none
  asleep m' e = ground (arith, e, find-stopped id id m.tasks)

  -- A running task can be put to sleep while another one runs. The invariant holds afterwards, only
  -- the sleeper was written, and a switch was made exactly if the sleeper was the current task.
  pub sleep-Slept :
      (j k : ℕ)
      → j ≢ id
      → run_level j m ≡ some k
      → (m' : TaskManager) × (s : Option Switch) × (sleep id m ≡ some (m', s))
        × Slept m'
        × ((s ≡ none) ↔ (current_task m ≢ some id))
  unfolding sleep_running set_running
  sleep-Slept j k ne other = elim (List-cases (m.running m.current_level)) [
    | inl e ↦ absurd (v.current e)
    | inr (c, rest, e) ↦ elim (ℕ_discrete c id) [
      | yes same ↦
          let e' : m.running m.current_level ≡ id ∷ rest = e ∙ ap (λ n. n ∷ rest) same in
          let (m', s, run, cur, sw) =
            switch_from-Switched true (set_running id false m) id rest e'
              (front-Ready rest j k e' ne other) in
          (
            m',
            some s,
            ground (arith, sleep-eq c rest e, same, run),
            record {
              inv = sw.inv;
              tasks = sw.tasks;
              latest = sw.latest;
              asleep = asleep m' sw.tasks;
            },
            (λ z. cc, λ z. absurd (z (current_task-eq m e'))),
          )
      | no differs ↦
          let end = erased-Inv c rest e differs in
          (
            erased id level m,
            none,
            ground (arith, sleep-eq c rest e, differs),
            record {
              inv = end;
              tasks = refl;
              latest = refl;
              asleep = asleep (erased id level m) refl;
            },
            (λ z w. ground (arith, current_task-eq m e, w, differs), λ z. refl),
          )
    ]
  ]

-- `Sleep` of a task that does not run changes nothing.
pub sleep_asleep :
    (m : TaskManager) (id : ℕ) (t : Task)
    → find id m.tasks ≡ some t
    → t.running ≡ false
    → sleep id m ≡ some (m, none)
unfolding sleep
sleep_asleep m id t e off = ground (arith, e, off)
