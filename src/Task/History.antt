-- ===== src/Task/History.antt =====
-- kernel/task.cpp: the manager from its constructor on, under any sequence of requests.
use uhyok_os.Base.{
  ℕ, ◌+◌, ◌^◌, ◌≤◌, ◌<◌, ◌≡◌, ◌≢◌, refl, ap, sym, false, List, [], ◌∷◌, Option, none, some, arith,
  ◌==◌, if◌then◌else◌, All, length, Option-cases, List-cases, inl, inr, Bool-cases,
}
use uhyok_os.Base.Int.{ℤ, pos, negsuc}
use uhyok_os.Message.{Message}
use uhyok_os.Task.Store.{Task, find, modify, count, apply_to, find-modify}
use uhyok_os.Task.Invariant.{Inv}
use uhyok_os.Task.Switching.{switch_task-Switched, current_task-eq}
use uhyok_os.Task.Sleeping.{run_level, sleep-Slept, sleep_asleep}
use uhyok_os.Task.Waking.{wakeup-Woken}
use uhyok_os.Task.Messages.{send_message-Delivered, send_message_unknown, rewritten-Inv}
use uhyok_os.Task.{
  TaskManager, max_level, idle_id, init, new_task, switch_task, sleep_by_id, wakeup_by_id,
  wake_level, send_message, receive_message, take_message, current_task,
}
use uhyok_os.Task.Lifetime.{
  Safe, init-Safe, new_task-Safe, Switched-Safe, Woken-Safe, Slept-Safe, Delivered-Safe,
  latest_id-new_task, latest_id-init,
}

-- What a client, an interrupt or the running task asks of the manager. Messages are received by the
-- current task.
pub data Request : Type 0 where
  preempt receive create : Request
  put_to_sleep : ℕ → Request
  wake : ℕ → ℤ → Request
  send : ℕ → Message → Request

pub perform : Request → TaskManager → Option TaskManager
perform preempt m = elim (switch_task false m) [ none ↦ none | some (m', _) ↦ some m' ]
perform receive m = elim (current_task m) [
  | none ↦ none
  | some id ↦ elim (receive_message id m) [ none ↦ none | some (m', _) ↦ some m' ]
]
perform create m = some (new_task m).0
perform (put_to_sleep id) m = elim (sleep_by_id id m) [ none ↦ none | some (m', _, _) ↦ some m' ]
perform (wake id level) m = elim (wakeup_by_id id level m) [ none ↦ none | some (m', _) ↦ some m' ]
perform (send id msg) m = elim (send_message id msg m) [ none ↦ none | some (m', _) ↦ some m' ]

-- The requests that the kernel may make: the idle task is never put to sleep, and no level lies
-- outside the array.
abbrev pub Allowed : Request → Type 0
Allowed preempt = Unit {0}
Allowed receive = Unit {0}
Allowed create = Unit {0}
Allowed (put_to_sleep id) = id ≢ idle_id
Allowed (wake id (pos level)) = level ≤ max_level
Allowed (wake id (negsuc _)) = Unit {0}
Allowed (send id msg) = Unit {0}

abbrev Stays : TaskManager → Option TaskManager → Type 0
Stays m r = (m' : TaskManager) × (r ≡ some m') × Safe m' × (m'.latest_id ≤ m.latest_id + 1)

put_to_sleep-Stays :
    {m : TaskManager} (id : ℕ) → id ≢ idle_id → Safe m → Stays m (perform (put_to_sleep id) m)
unfolding perform sleep_by_id
put_to_sleep-Stays {m} id ne s = elim (Option-cases (find id m.tasks)) [
  | inl e ↦ (m, ground (arith, e), s, omega arith)
  | inr (t, e) ↦ elim (Bool-cases t.running) [
    | inl on ↦
        let runs : run_level id m ≡ some t.level = ground (arith, e, on) in
        let (m', w, run, sl, _) =
          sleep-Slept s.inv id t.level runs idle_id s.idle_level (λ p. ne (sym p)) s.idle in
        (
          m',
          ground (arith, e, run),
          Slept-Safe s.inv id t.level runs ne s sl,
          omega (arith, sl.latest),
        )
    | inr off ↦ (m, ground (arith, e, sleep_asleep m id t e off), s, omega arith)
  ]
]

wake-Stays :
    {m : TaskManager} (id : ℕ) (level : ℤ)
    → Allowed (wake id level)
    → Safe m
    → Stays m (perform (wake id level) m)
unfolding perform wakeup_by_id
wake-Stays {m} id level a s = elim (Option-cases (find id m.tasks)) [
  | inl e ↦ (m, ground (arith, e), s, omega arith)
  | inr (t, e) ↦
      let h : wake_level t.level level ≤ max_level = ground (arith, a, s.levels id t e) in
      let (m', run, w) = wakeup-Woken s.inv id t e level h in
      (
        m',
        ground (arith, e, run),
        Woken-Safe id (wake_level t.level level) t h e s w,
        omega (arith, w.latest),
      )
]

send-Stays : {m : TaskManager} (id : ℕ) (msg : Message) → Safe m → Stays m (perform (send id msg) m)
unfolding perform
send-Stays {m} id msg s = elim (Option-cases (find id m.tasks)) [
  | inl e ↦ (m, ground (arith, send_message_unknown m id msg e), s, omega arith)
  | inr (t, e) ↦
      let (m', run, d) = send_message-Delivered id t msg s.inv e (s.levels id t e) in
      (m', ground (arith, run), Delivered-Safe id t msg e s d, omega (arith, d.latest))
]

preempt-Stays : {m : TaskManager} → Safe m → Stays m (perform preempt m)
unfolding perform
preempt-Stays {m} s =
    let (m', w, run, _, sw, _, _) = switch_task-Switched s.inv in
    (m', ground (arith, run), Switched-Safe s sw, omega (arith, sw.latest))

-- A write of a task's messages keeps the manager safe.
rewritten-Safe :
    {m : TaskManager} (id : ℕ) (l : List Message)
    → Safe m
    → Safe (record m { tasks = modify id (λ t. record t { msgs = l }) m.tasks })
rewritten-Safe {m} id l s = record {
  inv = rewritten-Inv id (λ t. record t { msgs = l }) (λ t. refl) (λ t. refl) (λ t. refl) s.inv;
  idle_level = s.idle_level;
  idle = ground (arith, s.idle, seen idle_id);
  levels = λ j u e. elim (Option-cases (find j m.tasks)) [
    | inl no_task ↦ ground (arith, e, seen j, no_task)
    | inr (t, had) ↦ ground (arith, e, seen j, had, s.levels j t had)
  ];
  fresh = λ j k. ground (arith, seen j, s.fresh j);
}
  where
    seen :
        (j : ℕ)
        → find j (modify id (λ t. record t { msgs = l }) m.tasks) ≡ (
            if id == j
            then apply_to (λ t. record t { msgs = l }) (find j m.tasks)
            else find j m.tasks)
    seen j = find-modify id j (λ t. record t { msgs = l }) m.tasks (λ t. refl)

-- The current task is one of the manager's.
current_found :
    {m : TaskManager} (c : ℕ) (rest : List ℕ)
    → Inv m
    → m.running m.current_level ≡ c ∷ rest
    → (t : Task) × (find c m.tasks ≡ some t)
current_found {m} c rest v e = elim (Option-cases (find c m.tasks)) [
  | inl no_task ↦ ground (arith, ap (count c) e, no_task, v.placed c m.current_level)
  | inr had ↦ had
]

receive-Stays : {m : TaskManager} → Safe m → Stays m (perform receive m)
unfolding perform receive_message take_message
receive-Stays {m} s = elim (List-cases (m.running m.current_level)) [
  | inl e ↦ absurd (s.inv.current e)
  | inr (c, rest, e) ↦
      let (t, found) = current_found c rest s.inv e in
      elim (List-cases t.msgs) [
        | inl none_left ↦ (m, ground (arith, current_task-eq m e, found, none_left), s, omega arith)
        | inr (msg, later, some_left) ↦ (
          record m { tasks = modify c (λ u. record u { msgs = later }) m.tasks },
          ground (arith, current_task-eq m e, found, some_left),
          rewritten-Safe c later s,
          omega arith,
        )
      ]
]

perform-Stays :
    (r : Request) {m : TaskManager}
    → Allowed r
    → Safe m
    → m.latest_id + 1 < 2 ^ 64
    → Stays m (perform r m)
unfolding perform
perform-Stays preempt a s h = preempt-Stays s
perform-Stays receive a s h = receive-Stays s
perform-Stays create {m} a s h = ((new_task m).0, refl, new_task-Safe s h, latest_id-new_task m)
perform-Stays (put_to_sleep id) a s h = put_to_sleep-Stays id a s
perform-Stays (wake id level) a s h = wake-Stays id level a s
perform-Stays (send id msg) a s h = send-Stays id msg s

pub run : List Request → TaskManager → Option TaskManager
run [] m = some m
run (r ∷ rs) m = elim (perform r m) [ none ↦ none | some m' ↦ run rs m' ]

run-Safe :
    (rs : List Request) {m : TaskManager}
    → All Allowed rs
    → Safe m
    → m.latest_id + length rs < 2 ^ 64
    → (m' : TaskManager) × (run rs m ≡ some m') × Safe m'
unfolding run
run-Safe [] {m} a s h = (m, refl, s)
run-Safe (r ∷ rs) {m} a s h =
    let (m', step, s', small) = perform-Stays r a.0 s (omega arith) in
    let (m'', rest, s'') = run-Safe rs a.1 s' (omega arith) in
    (m'', ground (arith, step, rest), s'')

-- No history of allowed requests, from the constructor on, reaches anything undefined: every
-- request succeeds, the run queues hold exactly the running tasks at their levels, a task is always
-- current, and the idle task always runs.
pub run-init-Safe :
    (rs : List Request)
    → All Allowed rs
    → length rs < 2 ^ 63
    → (m : TaskManager) × (run rs init ≡ some m) × Safe m
run-init-Safe rs a h = run-Safe rs a init-Safe (omega (arith, latest_id-init))
