-- ===== src/Timer/Ticking.antt =====
-- kernel/timer.cpp: what `TimerManager::Tick` does to the timers, and what it sends.
use mathlib.Core.List.{append-nil, append_assoc}
use uhyok_os.Base.{
  ℕ, zero, suc, ◌+◌, ◌-◌, ◌^◌, ◌≤◌, ◌<◌, ◌≡◌, refl, ap, ◌∙◌, Bool, true, false, ◌&&◌, ◌||◌, not,
  List, [], ◌∷◌, ◌++◌, Option, some, arith, add64, ltb, leb, if◌then◌else◌, length, Bool-cases, inl,
  inr, dec_lt,
}
use uhyok_os.Message.{Message}
use uhyok_os.Timer.Queue.{
  Timer, insert, task_timer_value, is_task_value, IsSorted, Later, same_timer, copies,
  insert-IsSorted, copies-insert, Later-of-head,
}
use uhyok_os.Timer.{
  TimerManager, tick, tick_loop, sentinel, task_timer_period, timeout_message, init, add_timer,
  loop_end,
}

abbrev pub is_due : ℕ → Timer → Bool
is_due now t = leb t.timeout now

-- The messages that are due: one for each timer that has run out, but for the task timers.
abbrev pub due_messages : ℕ → List Timer → List Message
due_messages now [] = []
due_messages now (t ∷ ts) =
    if is_due now t && not (is_task_value t.value)
    then timeout_message t ∷ due_messages now ts
    else due_messages now ts

-- How many task timers have run out.
abbrev pub due_tasks : ℕ → List Timer → ℕ
due_tasks now [] = 0
due_tasks now (t ∷ ts) =
    if is_due now t && is_task_value t.value then suc (due_tasks now ts) else due_tasks now ts

abbrev pub due_count : ℕ → List Timer → ℕ
due_count now [] = 0
due_count now (t ∷ ts) = if is_due now t then suc (due_count now ts) else due_count now ts

-- A timer of the list has not run out.
abbrev pub some_later : ℕ → List Timer → Bool
some_later now [] = false
some_later now (t ∷ ts) = not (is_due now t) || some_later now ts

abbrev pub next_task_timer : ℕ → Timer
next_task_timer now = record { timeout = now + task_timer_period; value = task_timer_value }

due_count-le-length : (now : ℕ) (ts : List Timer) → due_count now ts ≤ length ts
due_count-le-length now [] = omega arith
due_count-le-length now (t ∷ ts) = ground (arith, due_count-le-length now ts)

-- Nothing is due among later timers.
Later-due :
    (now : ℕ) (ts : List Timer)
    → Later now ts
    → (due_messages now ts ≡ []) × (due_tasks now ts ≡ 0) × (due_count now ts ≡ 0)
Later-due now [] l = (refl, refl, refl)
Later-due now (t ∷ ts) l = ground (arith, Later-due now ts l.1)

-- A timer that is not due changes nothing of what is due.
insert-due :
    (now : ℕ) (x : Timer) (ts : List Timer)
    → now < x.timeout
    → (due_messages now (insert x ts) ≡ due_messages now ts)
      × (due_tasks now (insert x ts) ≡ due_tasks now ts)
      × (due_count now (insert x ts) ≡ due_count now ts)
      × (some_later now (insert x ts) ≡ true)
unfolding insert
insert-due now x [] h = ground arith
insert-due now x (t ∷ ts) h = ground (arith, insert-due now x ts h)

-- The timers that stay: those that have not run out.
abbrev pub kept_copies : ℕ → Timer → List Timer → ℕ
kept_copies now x ts = if is_due now x then 0 else copies x ts

-- What the loop has done when it stops.
pub record Ticked (now : ℕ) (ts : List Timer) (ts' : List Timer) : Type 0 where
  pub sorted : IsSorted ts'
  pub later : Later now ts'
  pub timers :
      (x : Timer)
      → copies x ts'
        ≡ kept_copies now x ts
          + (if same_timer (next_task_timer now) x then due_tasks now ts else 0)

abbrev LoopEnds :
    ℕ → List Timer → List Message → Bool → Option (List Timer × List Message × Bool) → Type 0
LoopEnds now ts sent b r =
    (ts' : List Timer) × (r
      ≡ some (ts', sent ++ due_messages now ts, b || ltb 0 (due_tasks now ts)))
    × Ticked now ts ts'

stops-Ticked :
    (now : ℕ) (t : Timer) (ts : List Timer)
    → IsSorted (t ∷ ts)
    → now < t.timeout
    → Ticked now (t ∷ ts) (t ∷ ts)
stops-Ticked now t ts s h =
    let later = Later-of-head now t ts s h in
    record {
      sorted = s;
      later = later;
      timers = λ x. ground (arith, Later-due now (t ∷ ts) later, not_due x (t ∷ ts) later);
    }
  where
    not_due : (x : Timer) (us : List Timer) → Later now us → kept_copies now x us ≡ copies x us
    not_due x [] l = ground arith
    not_due x (u ∷ us) l = ground (arith, not_due x us l.1)

again-Ticked :
    (now : ℕ) (t : Timer) (ts ts' : List Timer)
    → t.timeout ≤ now
    → is_task_value t.value ≡ true
    → Ticked now (insert (next_task_timer now) ts) ts'
    → Ticked now (t ∷ ts) ts'
again-Ticked now t ts ts' h task k = record {
  sorted = k.sorted;
  later = k.later;
  timers = λ x. ground (
    arith,
    k.timers x,
    copies-insert x (next_task_timer now) ts,
    insert-due now (next_task_timer now) ts,
  );
}

sends-Ticked :
    (now : ℕ) (t : Timer) (ts ts' : List Timer)
    → t.timeout ≤ now
    → is_task_value t.value ≡ false
    → Ticked now ts ts'
    → Ticked now (t ∷ ts) ts'
sends-Ticked now t ts ts' h task k = record {
  sorted = k.sorted;
  later = k.later;
  timers = λ x. ground (arith, k.timers x);
}

-- A round at a task timer that has run out, and one at any other.
task_round :
    (fuel now : ℕ) (t : Timer) (ts : List Timer) (sent : List Message) (b : Bool)
    → now + task_timer_period < 2 ^ 64
    → t.timeout ≤ now
    → is_task_value t.value ≡ true
    → tick_loop (suc fuel) now (t ∷ ts) sent b
      ≡ tick_loop fuel now (insert (next_task_timer now) ts) sent true
unfolding tick_loop
task_round fuel now t ts sent b small h task =
    let e : add64 now task_timer_period ≡ now + task_timer_period = omega arith in
    ground (arith, h, task, e)

plain_round :
    (fuel now : ℕ) (t : Timer) (ts : List Timer) (sent : List Message) (b : Bool)
    → t.timeout ≤ now
    → is_task_value t.value ≡ false
    → tick_loop (suc fuel) now (t ∷ ts) sent b
      ≡ tick_loop fuel now ts (sent ++ timeout_message t ∷ []) b
unfolding tick_loop
plain_round fuel now t ts sent b h plain = ground (arith, h, plain)

flag_up : (b : Bool) (n : ℕ) → (b || ltb 0 (suc n)) ≡ true
flag_up true n = refl
flag_up false n = ground arith

task_due :
    (now : ℕ) (t : Timer) (ts : List Timer)
    → t.timeout ≤ now
    → is_task_value t.value ≡ true
    → (due_messages now (t ∷ ts) ≡ due_messages now ts)
      × (due_tasks now (t ∷ ts) ≡ suc (due_tasks now ts))
task_due now t ts h task = ground (arith, h, task)

plain_due :
    (now : ℕ) (t : Timer) (ts : List Timer)
    → t.timeout ≤ now
    → is_task_value t.value ≡ false
    → (due_messages now (t ∷ ts) ≡ timeout_message t ∷ due_messages now ts)
      × (due_tasks now (t ∷ ts) ≡ due_tasks now ts)
plain_due now t ts h plain = ground (arith, h, plain)

tick_loop-ends :
    (fuel now : ℕ) (ts : List Timer) (sent : List Message) (b : Bool)
    → now + task_timer_period < 2 ^ 64
    → IsSorted ts
    → some_later now ts ≡ true
    → due_count now ts < fuel
    → LoopEnds now ts sent b (tick_loop fuel now ts sent b)
unfolding tick_loop
tick_loop-ends zero now ts sent b small s l h = absurd (omega arith)
tick_loop-ends (suc fuel) now [] sent b small s l h = cc
tick_loop-ends (suc fuel) now (t ∷ ts) sent b small s l h = elim (dec_lt now t.timeout) [
  | yes later ↦ (
    t ∷ ts,
    ground (arith, later, Later-due now (t ∷ ts) (Later-of-head now t ts s later), append-nil sent),
    stops-Ticked now t ts s later,
  )
  | no due ↦ elim (Bool-cases (is_task_value t.value)) [
    | inl task ↦
        let x = next_task_timer now in
        let same = insert-due now x ts (omega arith) in
        let (ts', e, k) =
          tick_loop-ends fuel now (insert x ts) sent true small (insert-IsSorted x ts s.1) same.3
            (ground (arith, same.2)) in
        (
          ts',
          task_round fuel now t ts sent b small (omega arith) task
              ∙ e
              ∙ rw
                  (
                    same.0,
                    (task_due now t ts (omega arith) task).0,
                    (task_due now t ts (omega arith) task).1,
                    flag_up b (due_tasks now ts),
                  )
                  refl,
          again-Ticked now t ts ts' (omega arith) task k,
        )
    | inr plain ↦
        let sent' = sent ++ timeout_message t ∷ [] in
        let (ts', e, k) =
          tick_loop-ends fuel now ts sent' b small s.1 (ground arith) (ground arith) in
        (
          ts',
          plain_round fuel now t ts sent b (omega arith) plain
              ∙ e
              ∙ rw
                  (
                    append_assoc,
                    (plain_due now t ts (omega arith) plain).0,
                    (plain_due now t ts (omega arith) plain).1,
                  )
                  refl,
          sends-Ticked now t ts ts' (omega arith) plain k,
        )
  ]
]

pub record IsValid (m : TimerManager) : Type 0 where
  pub sorted : IsSorted m.timers
  pub guarded : 0 < copies sentinel m.timers

-- What a tick leaves: the time is one later, and of the timers those that have not run out, with a
-- task timer registered anew for each that has.
pub record TickedTo (m m' : TimerManager) : Type 0 where
  pub now : m'.tick ≡ m.tick + 1
  pub timers : Ticked (m.tick + 1) m.timers m'.timers
  pub valid : IsValid m'

sentinel-some_later :
    (now : ℕ) (ts : List Timer)
    → now < 2 ^ 64 - 1
    → 0 < copies sentinel ts
    → some_later now ts ≡ true
sentinel-some_later now [] h c = absurd (omega arith)
sentinel-some_later now (t ∷ ts) h c = ground (arith, sentinel-some_later now ts h)

tick_at :
    (m : TimerManager) (now : ℕ)
    → add64 m.tick 1 ≡ now
    → tick m ≡ loop_end now (tick_loop (suc (length m.timers)) now m.timers [] false)
unfolding tick
tick_at m now e = ap (λ n. loop_end n (tick_loop (suc (length m.timers)) n m.timers [] false)) e

-- A tick sends one message for every timer that has run out, but for the task timers, in the order
-- of the timers; it reports whether a task timer has run out; and it leaves exactly the timers
-- that have not, with one task timer two ticks ahead for each that has.
pub tick-TickedTo :
    {m : TimerManager}
    → IsValid m
    → m.tick + 3 < 2 ^ 64
    → (m' : TimerManager) × (tick m
        ≡ some (m', due_messages (m.tick + 1) m.timers, ltb 0 (due_tasks (m.tick + 1) m.timers)))
      × TickedTo m m'
tick-TickedTo {m} v h =
    let now = m.tick + 1 in
    let e : add64 m.tick 1 ≡ now = omega arith in
    let enough : due_count now m.timers < suc (length m.timers) =
      omega (arith, due_count-le-length now m.timers) in
    let (ts', run, k) =
      tick_loop-ends (suc (length m.timers)) now m.timers [] false (omega arith) v.sorted
        (sentinel-some_later now m.timers (omega arith) v.guarded) enough in
    (
      record { tick = now; timers = ts' },
      tick_at m now e ∙ ap (loop_end now) run,
      record {
        now = refl;
        timers = k;
        valid = record {
          sorted = k.sorted;
          guarded = ground (arith, k.timers sentinel, v.guarded);
        };
      },
    )

-- The constructor's queue is valid, and adding a timer keeps it so.
pub init-IsValid : IsValid init
unfolding init insert
init-IsValid = record { sorted = (tt, tt); guarded = omega arith }

pub add_timer-IsValid : {m : TimerManager} (t : Timer) → IsValid m → IsValid (add_timer t m)
unfolding add_timer
add_timer-IsValid {m} t v = record {
  sorted = insert-IsSorted t m.timers v.sorted;
  guarded = omega (arith, copies-insert sentinel t m.timers, v.guarded);
}
