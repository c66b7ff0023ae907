-- ===== src/Task/Messages.antt =====
-- kernel/task.cpp: `SendMessage` and `ReceiveMessage`.
use uhyok_os.Base.{
  ℕ, ◌≤◌, ◌≡◌, ◌≢◌, refl, ap, sym, ◌∙◌, subst, List, [], ◌∷◌, ◌++◌, Option, none, some, arith, ltb,
  ◌||◌, if◌then◌else◌, Bool-cases, inl, inr,
}
use uhyok_os.Base.Int.{negsuc}
use uhyok_os.Errors.{success, no_such_task}
use uhyok_os.Message.{Message}
use uhyok_os.Task.Store.{
  Task, find, modify, level_if_running, apply_to, find-modify, find-id, messages,
}
use uhyok_os.Task.Invariant.{Inv, places}
use uhyok_os.Task.Sleeping.{run_level}
use uhyok_os.Task.Waking.{wakeup-Woken}
use uhyok_os.Task.{
  TaskManager, max_level, send_message, receive_message, take_message, current_task, push_message,
  wakeup, wakeup_task, change_level_running, wake_sleeping, push_running, set_running, set_level,
}

abbrev pub inbox : ℕ → TaskManager → Option (List Message)
inbox id m = messages (find id m.tasks)

-- A write that keeps a task's id, level and state keeps the invariant.
pub rewritten-Inv :
    {m : TaskManager} (id : ℕ) (f : Task → Task)
    → ((t : Task) → (f t).id ≡ t.id)
    → ((t : Task) → (f t).running ≡ t.running)
    → ((t : Task) → (f t).level ≡ t.level)
    → Inv m
    → Inv (record m { tasks = modify id f m.tasks })
rewritten-Inv {m} id f ids on at v = record {
  placed = λ j k. v.placed j k ∙ ap (λ o. places o k) (same j);
  bounded = v.bounded;
  level_in = v.level_in;
  current = v.current;
  highest = v.highest;
}
  where
    kept : (o : Option Task) → level_if_running o ≡ level_if_running (apply_to f o)
    kept none = refl
    kept (some t) = ground (arith, on t, at t)

    same :
        (j : ℕ)
        → level_if_running (find j m.tasks) ≡ level_if_running (find j (modify id f m.tasks))
    same j = ground (arith, find-modify id j f m.tasks ids, kept (find j m.tasks))

-- What a delivery leaves: the message is the last of the receiver's, who runs; every other task is
-- as it was, and so is the current task. Nothing moves in the queues when the receiver ran; when it
-- slept it joins the end of its level, and a level above the current one asks for a selection.
pub record Delivered (id : ℕ) (t : Task) (msg : Message) (m m' : TaskManager) : Type 0 where
  pub inv : Inv m'
  pub received : inbox id m' ≡ some (t.msgs ++ msg ∷ [])
  pub runs : run_level id m' ≡ some t.level
  pub others : (j : ℕ) → j ≢ id → find j m'.tasks ≡ find j m.tasks
  pub same : current_task m' ≡ current_task m
  pub latest : m'.latest_id ≡ m.latest_id
  pub queue :
      m'.running t.level ≡ (if t.running then m.running t.level else m.running t.level ++ id ∷ [])
  pub queues : (k : ℕ) → k ≢ t.level → m'.running k ≡ m.running k
  pub level : m'.current_level ≡ m.current_level
  pub selects :
      m'.level_changed
      ≡ (if t.running then m.level_changed else ltb m.current_level t.level || m.level_changed)

-- Waking a task up at its own level.
wakeup-own :
    (id : ℕ) (t : Task) (m : TaskManager)
    → find id m.tasks ≡ some t
    → wakeup id (negsuc 0) m ≡ some (if t.running then m else wake_sleeping t t.level m)
unfolding wakeup wakeup_task change_level_running
wakeup-own id t m found = elim (Bool-cases t.running) [
  | inl on ↦ ground (arith, found, on)
  | inr off ↦ ground (arith, found, off)
]

record Queued (id : ℕ) (t : Task) (m m' : TaskManager) : Type 0 where
  queue :
      m'.running t.level ≡ (if t.running then m.running t.level else m.running t.level ++ id ∷ [])
  queues : (k : ℕ) → k ≢ t.level → m'.running k ≡ m.running k
  level : m'.current_level ≡ m.current_level
  selects :
      m'.level_changed
      ≡ (if t.running then m.level_changed else ltb m.current_level t.level || m.level_changed)

own-Queued :
    (id : ℕ) (t : Task) (m : TaskManager)
    → t.id ≡ id
    → Queued id t m (if t.running then m else wake_sleeping t t.level m)
unfolding wake_sleeping push_running set_running set_level
own-Queued id t m same = elim (Bool-cases t.running) [
  | inl on ↦ rw on (record {
    queue = ground (arith, on);
    queues = λ k ne. refl;
    level = refl;
    selects = ground (arith, on);
  })
  | inr off ↦ rw off (record {
    queue = ground (arith, off, same);
    queues = λ k ne. ground (arith, ne);
    level = refl;
    selects = ground (arith, off);
  })
]

wakeup-Queued :
    (id : ℕ) (t : Task) (m : TaskManager) {m' : TaskManager}
    → find id m.tasks ≡ some t
    → wakeup id (negsuc 0) m ≡ some m'
    → Queued id t m m'
wakeup-Queued id t m found run =
    subst (Queued id t m)
      (ap (λ o. elim o [ none ↦ m | some n ↦ n ]) (sym (wakeup-own id t m found) ∙ run))
      (own-Queued id t m (find-id id m.tasks t found))

-- A message to a task of the manager is appended to its queue and wakes the task at its own level.
-- A task that runs stays where it is in the queues, and no new selection is asked for; one that
-- sleeps joins the end of the queue of its level. Other tasks, other queues, the current task and
-- the current level do not change.
pub send_message-Delivered :
    {m : TaskManager} (id : ℕ) (t : Task) (msg : Message)
    → Inv m
    → find id m.tasks ≡ some t
    → t.level ≤ max_level
    → (m' : TaskManager) × (send_message id msg m ≡ some (m', success)) × Delivered id t msg m m'
unfolding send_message current_task
send_message-Delivered {m} id t msg v found h =
    let m1 : TaskManager = record m { tasks = modify id (push_message msg) m.tasks } in
    let v1 : Inv m1 = rewritten-Inv id (push_message msg) (λ u. refl) (λ u. refl) (λ u. refl) v in
    let found1 : find id m1.tasks ≡ some (push_message msg t) =
      ground (arith, found, find-modify id id (push_message msg) m.tasks (λ u. refl)) in
    let own = wakeup-Queued id (push_message msg t) m1 found1 in
    let (m', run, w) = wakeup-Woken v1 id (push_message msg t) found1 (negsuc 0) h in
    (
      m',
      ground (arith, found, run),
      record {
        inv = w.inv;
        received = w.inbox ∙ ap messages found1;
        runs = w.runs;
        others = λ j ne.
            ground
              (arith, w.others j ne, ne, find-modify id j (push_message msg) m.tasks (λ u. refl));
        same = w.same;
        latest = w.latest;
        queue = (own run).queue;
        queues = (own run).queues;
        level = (own run).level;
        selects = (own run).selects;
      },
    )

-- A message to no task of the manager changes nothing and is reported.
pub send_message_unknown :
    (m : TaskManager) (id : ℕ) (msg : Message)
    → find id m.tasks ≡ none
    → send_message id msg m ≡ some (m, no_such_task)
unfolding send_message
send_message_unknown m id msg e = ground (arith, e)

-- Receiving takes the oldest message and keeps the rest in order; no task starts or stops running.
pub receive_message_oldest :
    {m : TaskManager} (id : ℕ) (t : Task) (msg : Message) (rest : List Message)
    → Inv m
    → find id m.tasks ≡ some t
    → t.msgs ≡ msg ∷ rest
    → (m' : TaskManager) × (receive_message id m ≡ some (m', some msg))
      × Inv m'
      × (inbox id m' ≡ some rest)
      × ((j : ℕ) → run_level j m' ≡ run_level j m)
unfolding receive_message take_message
receive_message_oldest {m} id t msg rest v found e =
    let f = λ (u : Task). record u { msgs = rest } in
    let seen = λ (j : ℕ). find-modify id j f m.tasks (λ u. refl) in
    (
      record m { tasks = modify id f m.tasks },
      ground (arith, found, e),
      rewritten-Inv id f (λ u. refl) (λ u. refl) (λ u. refl) v,
      ground (arith, found, seen id),
      λ j. ground (arith, seen j),
    )

-- With nothing to receive the state stays.
pub receive_message_empty :
    (m : TaskManager) (id : ℕ) (t : Task)
    → find id m.tasks ≡ some t
    → t.msgs ≡ []
    → receive_message id m ≡ some (m, none)
unfolding receive_message take_message
receive_message_empty m id t found e = ground (arith, found, e)
