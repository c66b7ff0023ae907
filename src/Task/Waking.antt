-- ===== src/Task/Waking.antt =====
-- kernel/task.cpp: `Wakeup` and `ChangeLevelRunning`.
use uhyok_os.Base.{
  ℕ, ◌≤◌, ◌≡◌, ◌≢◌, refl, ap, ◌∙◌, true, false, List, [], ◌∷◌, ◌++◌, some, arith, ◌==◌, ℕ_discrete,
  if◌then◌else◌, Bool-cases, List-cases, inl, inr,
}
use uhyok_os.Base.Int.{ℤ, pos, negsuc}
use uhyok_os.Task.Store.{
  Task, find, modify, erase, update, count, count-append, count-erase, level_if_running,
  find-modify, find-id, messages,
}
use uhyok_os.Task.Invariant.{Inv, Placed}
use uhyok_os.Task.Switching.{current_task-eq}
use uhyok_os.Task.Sleeping.{run_level}
use uhyok_os.Task.{
  TaskManager, max_level, set_running, set_level, push_running, wakeup, wakeup_task, wake_sleeping,
  wake_level, change_level, change_level_running, is_current, current_task,
}

is_current-eq :
    (id : ℕ) (m : TaskManager) {c : ℕ} {rest : List ℕ}
    → m.running m.current_level ≡ c ∷ rest
    → is_current id m ≡ some (c == id)
unfolding is_current
is_current-eq id m e = ground (arith, current_task-eq m e)

-- A task that is written runs at the level, and every other one is as it was.
record Raised (id level : ℕ) (ts ts' : List Task) : Type 0 where
  runs : level_if_running (find id ts') ≡ some level
  others : (j : ℕ) → j ≢ id → find j ts' ≡ find j ts
  inbox : messages (find id ts') ≡ messages (find id ts)

Raised-Placed :
    (id level : ℕ) (ts ts' : List Task) (q q' : ℕ → List ℕ)
    → Raised id level ts ts'
    → Placed ts q
    → ((j k : ℕ)
        → count j (q' k) ≡ (if id == j then (if level == k then 1 else 0) else count j (q k)))
    → Placed ts' q'
Raised-Placed id level ts ts' q q' r p moved j k =
    ground (arith, moved j k, p j k, r.runs, r.others j)

set_level-Raised :
    (id level : ℕ) (ts : List Task) (t : Task)
    → find id ts ≡ some t
    → t.running ≡ true
    → Raised id level ts (modify id (λ u. record u { level = level }) ts)
set_level-Raised id level ts t e on = record {
  runs = ground (arith, e, on, find-modify id id (λ u. record u { level = level }) ts (λ u. refl));
  others =
      λ j ne. ground (arith, ne, find-modify id j (λ u. record u { level = level }) ts (λ u. refl));
  inbox = ground (arith, e, find-modify id id (λ u. record u { level = level }) ts (λ u. refl));
}

wake-Raised :
    (id level : ℕ) (ts : List Task) (t : Task)
    → find id ts ≡ some t
    → Raised id level ts (
        modify id
          (λ u. record u { running = true })
          (modify id (λ u. record u { level = level }) ts))
wake-Raised id level ts t e =
    let level_set = λ (u : Task). record u { level = level } in
    let run_set = λ (u : Task). record u { running = true } in
    record {
      runs = ground (
        arith,
        e,
        find-modify id id run_set (modify id level_set ts) (λ u. refl),
        find-modify id id level_set ts (λ u. refl),
      );
      inbox = ground (
        arith,
        e,
        find-modify id id run_set (modify id level_set ts) (λ u. refl),
        find-modify id id level_set ts (λ u. refl),
      );
      others = λ j ne. ground (
        arith,
        ne,
        find-modify id j run_set (modify id level_set ts) (λ u. refl),
        find-modify id j level_set ts (λ u. refl),
      );
    }

-- What a wake-up leaves: the task runs at the level, no other task was written, and the current
-- task is still current.
pub record Woken (id level : ℕ) (m m' : TaskManager) : Type 0 where
  pub inv : Inv m'
  pub runs : run_level id m' ≡ some level
  pub others : (j : ℕ) → j ≢ id → find j m'.tasks ≡ find j m.tasks
  pub inbox : messages (find id m'.tasks) ≡ messages (find id m.tasks)
  pub same : current_task m' ≡ current_task m
  pub latest : m'.latest_id ≡ m.latest_id

module _ {m : TaskManager} (v : Inv m) (id : ℕ) (t : Task) (found : find id m.tasks ≡ some t)
    (level : ℕ) (in_range : level ≤ max_level) where
  -- A sleeping task joins the end of its queue.
  joins :
      t.running ≡ false
      → (j k : ℕ)
      → count j (update m.running level (m.running level ++ id ∷ []) k)
        ≡ (if id == j then (if level == k then 1 else 0) else count j (m.running k))
  joins off j k =
      ground (arith, off, found, v.placed id k, count-append j (m.running level) (id ∷ []))

  wake_sleeping-Woken : t.running ≡ false → Woken id level m (wake_sleeping t level m)
  unfolding wake_sleeping push_running set_running set_level current_task
  wake_sleeping-Woken off = elim (List-cases (m.running m.current_level)) [
    | inl e ↦ absurd (v.current e)
    | inr (c, rest, e) ↦
        let same_id : t.id ≡ id = find-id id m.tasks t found in
        let raised = wake-Raised id level m.tasks t found in
        rw same_id (record {
          inv = record {
            placed = Raised-Placed id level m.tasks _ m.running _ raised v.placed (joins off);
            bounded = λ k h. ground (arith, v.bounded k h);
            level_in = v.level_in;
            current = λ z. ground (arith, e);
            highest = λ p k h. ground (arith, v.highest (ground arith) k h);
          };
          runs = raised.runs;
          others = raised.others;
          inbox = raised.inbox;
          latest = refl;
          same = ground (arith, e);
        })
  ]

  -- A task that is not the front of its queue moves to the end of another one.
  moves :
      t.running ≡ true
      → level ≢ t.level
      → (j k : ℕ)
      → let q = update m.running t.level (erase id (m.running t.level)) in
        count j (update q level (q level ++ id ∷ []) k)
        ≡ (if id == j then (if level == k then 1 else 0) else count j (m.running k))
  moves on ne j k = ground (
    arith,
    on,
    found,
    v.placed id k,
    count-erase id j (m.running t.level),
    count-append j (m.running level) (id ∷ []),
  )

  -- The current task moves to the front of another queue.
  jumps :
      (rest : List ℕ)
      → m.running m.current_level ≡ id ∷ rest
      → t.running ≡ true
      → level ≢ t.level
      → (j k : ℕ)
      → let q = update m.running m.current_level rest in
        count j (update q level (id ∷ q level) k)
        ≡ (if id == j then (if level == k then 1 else 0) else count j (m.running k))
  jumps rest e on ne j k = ground (
    arith,
    on,
    e,
    ap (count id) e,
    ap (count j) e,
    found,
    v.placed id k,
    v.placed id m.current_level,
    v.placed id level,
  )

  -- The current task is at the current level.
  current_at :
      (rest : List ℕ)
      → m.running m.current_level ≡ id ∷ rest
      → t.running ≡ true
      → m.current_level ≡ t.level
  current_at rest e on = ground (arith, on, ap (count id) e, found, v.placed id m.current_level)

  moved-Woken :
      (c : ℕ) (rest : List ℕ)
      → m.running m.current_level ≡ c ∷ rest
      → c ≢ id
      → t.running ≡ true
      → level ≢ t.level
      → (m' : TaskManager) × (change_level id t.level level m (some false) ≡ some m')
        × Woken id level m m'
  unfolding change_level push_running set_level current_task erase
  moved-Woken c rest e differs on ne =
      let raised = set_level-Raised id level m.tasks t found on in
      (
        _,
        refl,
        record {
          inv = record {
            placed = Raised-Placed id level m.tasks _ m.running _ raised v.placed (moves on ne);
            bounded = λ k h. ground (arith, v.bounded k h, v.bounded t.level);
            level_in = v.level_in;
            current = λ z. ground (arith, e, ap (erase id) e);
            highest = λ p k h. ground (arith, v.highest (ground arith) k h);
          };
          runs = raised.runs;
          others = raised.others;
          inbox = raised.inbox;
          latest = refl;
          same = ground (arith, e, ap (erase id) e);
        },
      )

  jumped-Woken :
      (rest : List ℕ)
      → m.running m.current_level ≡ id ∷ rest
      → t.running ≡ true
      → level ≢ t.level
      → (m' : TaskManager) × (change_level id t.level level m (some true) ≡ some m')
        × Woken id level m m'
  unfolding change_level set_level current_task
  jumped-Woken rest e on ne =
      let raised = set_level-Raised id level m.tasks t found on in
      let at : m.current_level ≡ t.level = current_at rest e on in
      (
        _,
        refl,
        record {
          inv = record {
            placed =
                Raised-Placed id level m.tasks _ m.running _ raised v.placed
                  (λ j k. ground (arith, jumps rest e on ne j k, e));
            bounded = λ k h. ground (arith, v.bounded k h, v.level_in);
            level_in = in_range;
            current = λ z. ground (arith);
            highest = λ p k h. ground (arith, at, v.highest (ground arith) k (ground arith));
          };
          runs = raised.runs;
          others = raised.others;
          inbox = raised.inbox;
          latest = refl;
          same = ground (arith, e);
        },
      )

  -- `ChangeLevelRunning` to another level.
  changed-Woken :
      t.running ≡ true
      → level ≢ t.level
      → (m' : TaskManager) × (change_level t.id t.level level m (is_current t.id m) ≡ some m')
        × Woken id level m m'
  changed-Woken on ne = elim (List-cases (m.running m.current_level)) [
    | inl e ↦ absurd (v.current e)
    | inr (c, rest, e) ↦
        rw (find-id id m.tasks t found, is_current-eq id m e)
          (elim (ℕ_discrete c id) [
            | yes same ↦
                let (m', run, w) = jumped-Woken rest (e ∙ ap (λ n. n ∷ rest) same) on ne in
                (m', ground (arith, run, same), w)
            | no differs ↦
                let (m', run, w) = moved-Woken c rest e differs on ne in
                (m', ground (arith, run, differs), w)
          ])
  ]

  -- A running task whose level stays.
  kept-Woken : t.running ≡ true → level ≡ t.level → Woken id level m m
  kept-Woken on e = record {
    inv = v;
    runs = ground (arith, on, e, found);
    others = λ j ne. refl;
    inbox = refl;
    same = refl;
    latest = refl;
  }

module _ {m : TaskManager} (v : Inv m) (id : ℕ) (t : Task) (found : find id m.tasks ≡ some t) where
  running-Woken :
      (l : ℤ)
      → wake_level t.level l ≤ max_level
      → t.running ≡ true
      → (m' : TaskManager) × (change_level_running t l m ≡ some m')
        × Woken id (wake_level t.level l) m m'
  unfolding change_level_running
  running-Woken (negsuc n) h on = (m, refl, kept-Woken v id t found t.level h on refl)
  running-Woken (pos level) h on = elim (ℕ_discrete level t.level) [
    | yes e ↦ (m, ground (arith, e), kept-Woken v id t found level h on e)
    | no ne ↦
        let (m', run, w) = changed-Woken v id t found level h on ne in
        (m', ground (arith, ne, run), w)
  ]

  -- Waking a task up, whether it sleeps or runs: afterwards it runs at the level that was asked
  -- for (its own, if the level is negative), no other task was written, the current task is the
  -- same, and the invariant holds.
  pub wakeup-Woken :
      (l : ℤ)
      → wake_level t.level l ≤ max_level
      → (m' : TaskManager) × (wakeup id l m ≡ some m') × Woken id (wake_level t.level l) m m'
  unfolding wakeup wakeup_task
  wakeup-Woken l h = elim (Bool-cases t.running) [
    | inl on ↦ let (m', run, w) = running-Woken l h on in (m', ground (arith, found, on, run), w)
    | inr off ↦ (
      wake_sleeping t (wake_level t.level l) m,
      ground (arith, found, off),
      wake_sleeping-Woken v id t found (wake_level t.level l) h off,
    )
  ]
