-- ===== src/Task/Switching.antt =====
-- kernel/task.cpp: `SwitchTask`.
use uhyok_os.Base.{
  ℕ, zero, suc, ◌≤◌, ◌<◌, ◌≡◌, ◌≢◌, refl, ap, sym, ◌∙◌, Bool, false, List, [], ◌∷◌, ◌++◌, some,
  arith, ◌||◌, if◌then◌else◌, Bool-cases, List-cases, dec_lt, ℕ_discrete, inl, inr,
}
use uhyok_os.Task.Store.{update, is_empty, count, count-append, pop_front}
use uhyok_os.Task.Invariant.{Inv, Placed, Bounded, Highest}
use uhyok_os.Task.{
  TaskManager, Switch, max_level, search_level, reselect, dispatch, switch_from, switch_task,
  current_task,
}

-- The highest level below the bound that holds a task.
lt_of_ne : (a b : ℕ) → a < suc b → a ≢ b → a < b
lt_of_ne a b h ne = omega arith

record Found (q : ℕ → List ℕ) (n level : ℕ) : Type 0 where
  filled : q level ≢ []
  below : level < n
  above : (k : ℕ) → level < k → k < n → q k ≡ []

-- The loop from the top finds it.
search_level-Found :
    (q : ℕ → List ℕ) (n c lv : ℕ) → lv < n → q lv ≢ [] → Found q n (search_level q n c)
unfolding search_level
search_level-Found q zero c lv h ne = absurd (omega arith)
search_level-Found q (suc n) c lv h ne = elim (List-cases (q n)) [
  | inl e ↦
      let lower : Found q n (search_level q n c) =
        search_level-Found q n c lv (lt_of_ne lv n h λ p. ne (ap q p ∙ e)) ne in
      rw e (record {
        filled = lower.filled;
        below = omega (arith, lower.below);
        above = λ k hk hn. elim (ℕ_discrete k n) [
          | yes p ↦ ap q p ∙ e
          | no p ↦ lower.above k hk (lt_of_ne k n hn p)
        ];
      })
  | inr (x, l, e) ↦
      rw e
        (record { filled = λ p. cc; below = omega arith; above = λ k hk hn. absurd (omega arith) })
]

-- What holds when `SwitchTask` comes to choose a level.
pub record Ready (m : TaskManager) : Type 0 where
  pub placed : Placed m.tasks m.running
  pub bounded : Bounded m.running
  pub level_in : m.current_level ≤ max_level
  pub level : ℕ
  pub someone : m.running level ≢ []
  pub settled :
      m.level_changed ≡ false → (m.running m.current_level ≢ []) × Highest m.running m.current_level

in_range : {m : TaskManager} (r : Ready m) → r.level < suc max_level
in_range r = elim (dec_lt max_level r.level) [
  | yes p ↦ absurd (r.someone (r.bounded r.level p))
  | no p ↦ omega arith
]

reselect-Inv : (m : TaskManager) → Ready m → Inv (reselect m) × ((reselect m).level_changed ≡ false)
unfolding reselect
reselect-Inv m r = elim (Bool-cases m.level_changed) [
  | inl e ↦
      let found =
        search_level-Found m.running (suc max_level) m.current_level r.level (in_range r)
          r.someone in
      rw e (
        record {
          placed = r.placed;
          bounded = r.bounded;
          level_in = omega (arith, found.below);
          current = found.filled;
          highest = λ _ k hk. elim (dec_lt max_level k) [
            | yes p ↦ r.bounded k p
            | no p ↦ found.above k hk (omega arith)
          ];
        },
        refl,
      )
  | inr e ↦ rw e (
    record {
      placed = r.placed;
      bounded = r.bounded;
      level_in = r.level_in;
      current = (r.settled e).0;
      highest = λ _. (r.settled e).1;
    },
    refl,
  )
]

-- What a switch away from a task leaves: the next task is the front of the current level, no
-- task waits above it, and the tasks themselves are as they were.
pub record Switched (m : TaskManager) (s : Switch) (m' : TaskManager) : Type 0 where
  pub inv : Inv m'
  pub settled : m'.level_changed ≡ false
  pub next : current_task m' ≡ some s.next
  pub tasks : m'.tasks ≡ m.tasks
  pub latest : m'.latest_id ≡ m.latest_id

tasks-reselect : (m : TaskManager) → (reselect m).tasks ≡ m.tasks
unfolding reselect
tasks-reselect m = ground arith

latest-reselect : (m : TaskManager) → (reselect m).latest_id ≡ m.latest_id
unfolding reselect
latest-reselect m = ground arith

pub current_task-eq :
    (m : TaskManager) {c : ℕ} {rest : List ℕ}
    → m.running m.current_level ≡ c ∷ rest
    → current_task m ≡ some c
unfolding current_task
current_task-eq m e = rw (e, current_task)

dispatch-Switched :
    (c : ℕ) (m : TaskManager)
    → Ready m
    → (m' : TaskManager) × (s : Switch) × (dispatch c
          (reselect m)
          ((reselect m).running (reselect m).current_level)
        ≡ some (m', s))
      × (s.current ≡ c)
      × Switched m s m'
unfolding dispatch
dispatch-Switched c m r =
    let (inv, settled) = reselect-Inv m r in
    elim (List-cases ((reselect m).running (reselect m).current_level)) [
      | inl e ↦ absurd (inv.current e)
      | inr (n, l, e) ↦ (
        reselect m,
        record { next = n; current = c },
        rw (e, dispatch),
        refl,
        record {
          inv = inv;
          settled = settled;
          next = current_task-eq (reselect m) e;
          tasks = tasks-reselect m;
          latest = latest-reselect m;
        },
      )
    ]

-- The state in which `SwitchTask` chooses a level.
abbrev pub requeued : TaskManager → List ℕ → TaskManager
requeued m queue = record m {
  running = update m.running m.current_level queue;
  level_changed = m.level_changed || is_empty queue;
}

pub switch_from-Switched :
    (sleeps : Bool) (m : TaskManager) (c : ℕ) (rest : List ℕ)
    → m.running m.current_level ≡ c ∷ rest
    → Ready (requeued m (if sleeps then rest else rest ++ c ∷ []))
    → (m' : TaskManager) × (s : Switch) × (switch_task sleeps m ≡ some (m', s))
      × (s.current ≡ c)
      × Switched m s m'
unfolding switch_task
switch_from-Switched sleeps m c rest e r =
    let (m', s, run, cur, sw) =
      dispatch-Switched c (requeued m (if sleeps then rest else rest ++ c ∷ [])) r in
    (
      m',
      s,
      rw (e, switch_from) run,
      cur,
      record {
        inv = sw.inv;
        settled = sw.settled;
        next = sw.next;
        tasks = sw.tasks;
        latest = sw.latest;
      },
    )

rotate-Placed :
    (m : TaskManager) (c : ℕ) (rest : List ℕ)
    → m.running m.current_level ≡ c ∷ rest
    → Placed m.tasks m.running
    → Placed m.tasks (update m.running m.current_level (rest ++ c ∷ []))
rotate-Placed m c rest e p id level =
    ground (arith, p id level, count-append id rest (c ∷ []), ap (count id) e)

append-ne-nil : (xs : List ℕ) (x : ℕ) → xs ++ x ∷ [] ≢ []
append-ne-nil [] x h = cc
append-ne-nil (y ∷ xs) x h = cc

rotate-Ready :
    {m : TaskManager} (c : ℕ) (rest : List ℕ)
    → m.running m.current_level ≡ c ∷ rest
    → Inv m
    → Ready (requeued m (rest ++ c ∷ []))
rotate-Ready {m} c rest e v = record {
  placed = rotate-Placed m c rest e v.placed;
  bounded = λ k h. ground (arith, v.bounded k h, v.level_in);
  level_in = v.level_in;
  level = m.current_level;
  someone = λ p. append-ne-nil rest c (ground arith);
  settled = λ p. (
    λ z. append-ne-nil rest c (ground arith),
    λ k h. ground (arith, v.highest, v.highest (ground arith) k h),
  );
}

-- The queues after a preemptive switch: the task that ran is behind the others of its level, and the
-- other levels are as they were.
pub record Rotated (m : TaskManager) (s : Switch) (m' : TaskManager) : Type 0 where
  pub back : m'.running m.current_level ≡ pop_front (m.running m.current_level) ++ s.current ∷ []
  pub others : (k : ℕ) → k ≢ m.current_level → m'.running k ≡ m.running k

running-reselect : (m : TaskManager) → (reselect m).running ≡ m.running
unfolding reselect
running-reselect m = ground arith

dispatch-same :
    (c : ℕ) (m : TaskManager) (queue : List ℕ) {m' : TaskManager} {s : Switch}
    → dispatch c m queue ≡ some (m', s)
    → m ≡ m'
unfolding dispatch
dispatch-same c m [] e = absurd (ground (arith, e))
dispatch-same c m (n ∷ rest) e = ground (arith, e)

switch_task-running :
    (m : TaskManager) (c : ℕ) (rest : List ℕ) {m' : TaskManager} {s : Switch}
    → m.running m.current_level ≡ c ∷ rest
    → switch_task false m ≡ some (m', s)
    → m'.running ≡ update m.running m.current_level (rest ++ c ∷ [])
unfolding switch_task
switch_task-running m c rest e run =
    let moved = reselect (requeued m (rest ++ c ∷ [])) in
    let to = sym (rw (e, switch_from) refl) ∙ run in
    sym (ap (λ n. n.running) (dispatch-same c moved (moved.running moved.current_level) to))
    ∙ running-reselect (requeued m (rest ++ c ∷ []))

-- A preemptive switch is always possible. The task that ran goes to the back of the queue of its
-- level, the other queues stay, and the task that runs next is the front of the highest level that
-- holds a task.
pub switch_task-Switched :
    {m : TaskManager}
    → Inv m
    → (m' : TaskManager) × (s : Switch) × (switch_task false m ≡ some (m', s))
      × (current_task m ≡ some s.current)
      × Switched m s m'
      × Highest m'.running m'.current_level
      × Rotated m s m'
unfolding current_task
switch_task-Switched {m} v = elim (List-cases (m.running m.current_level)) [
  | inl e ↦ absurd (v.current e)
  | inr (c, rest, e) ↦
      let (m', s, run, cur, sw) = switch_from-Switched false m c rest e (rotate-Ready c rest e v) in
      let queues = switch_task-running m c rest e run in
      (
        m',
        s,
        run,
        current_task-eq m e ∙ ap some (sym cur),
        sw,
        sw.inv.highest sw.settled,
        record {
          back = ground (arith, ap (λ q. q m.current_level) queues, e, cur);
          others = λ k ne. ground (arith, ap (λ q. q k) queues, ne);
        },
      )
]
