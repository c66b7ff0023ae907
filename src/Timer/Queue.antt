-- ===== src/Timer/Queue.antt =====
-- kernel/timer.hpp: timers, and `std::priority_queue<Timer>` as a list sorted by timeout.
use uhyok_os.Base.{
  ℕ, suc, ◌+◌, ◌-◌, ◌^◌, ◌≤◌, ◌<◌, ◌≡◌, Bool, false, ◌&&◌, List, [], ◌∷◌, arith, ltb, ◌==◌,
  if◌then◌else◌, All,
}
use uhyok_os.Base.Int.{ℤ, pos, negsuc}

pub record Timer : Type 0 where
  pub timeout : ℕ
  pub value : ℤ

-- `kTaskTimerValue`: the least `int`.
abbrev pub task_timer_value : ℤ
task_timer_value = negsuc (2 ^ 31 - 1)

abbrev pub is_task_value : ℤ → Bool
is_task_value (pos _) = false
is_task_value (negsuc n) = n == 2 ^ 31 - 1

-- `timers_.push(t)`.
unfoldable pub insert : Timer → List Timer → List Timer
insert t [] = t ∷ []
insert t (u ∷ us) = if ltb t.timeout u.timeout then t ∷ u ∷ us else u ∷ insert t us

abbrev pub IsSorted : List Timer → Type 0
IsSorted [] = Unit {0}
IsSorted (t ∷ ts) = All (λ u. t.timeout ≤ u.timeout) ts × IsSorted ts

-- Timers that have not run out.
abbrev pub Later : ℕ → List Timer → Type 0
Later now ts = All (λ u. now < u.timeout) ts

abbrev pub eq_ℤ : ℤ → ℤ → Bool
eq_ℤ (pos a) (pos b) = a == b
eq_ℤ (negsuc a) (negsuc b) = a == b
eq_ℤ _ _ = false

abbrev pub same_timer : Timer → Timer → Bool
same_timer t u = t.timeout == u.timeout && eq_ℤ t.value u.value

abbrev pub copies : Timer → List Timer → ℕ
copies x [] = 0
copies x (t ∷ ts) = if same_timer t x then suc (copies x ts) else copies x ts

pub insert-All-le :
    (n : ℕ) (t : Timer) (ts : List Timer)
    → n ≤ t.timeout
    → All (λ u. n ≤ u.timeout) ts
    → All (λ u. n ≤ u.timeout) (insert t ts)
unfolding insert
insert-All-le n t [] h a = (h, tt)
insert-All-le n t (u ∷ us) h a = ground (arith, insert-All-le n t us h a.1)

All-mono :
    {a b : ℕ} (ts : List Timer) → a ≤ b → All (λ u. b ≤ u.timeout) ts → All (λ u. a ≤ u.timeout) ts
All-mono [] h p = tt
All-mono (t ∷ ts) h p = (omega arith, All-mono ts h p.1)

pub insert-IsSorted : (t : Timer) (ts : List Timer) → IsSorted ts → IsSorted (insert t ts)
unfolding insert
insert-IsSorted t [] s = (tt, tt)
insert-IsSorted t (u ∷ us) s = ground (
  arith,
  insert-IsSorted t us s.1,
  insert-All-le u.timeout t us,
  All-mono {a = t.timeout} {b = u.timeout} us,
)

pub copies-insert :
    (x t : Timer) (ts : List Timer)
    → copies x (insert t ts) ≡ (if same_timer t x then 1 else 0) + copies x ts
unfolding insert
copies-insert x t [] = ground arith
copies-insert x t (u ∷ us) = ground (arith, copies-insert x t us)

-- Where the first of sorted timers has not run out, none has.
pub Later-of-head :
    (now : ℕ) (t : Timer) (ts : List Timer)
    → IsSorted (t ∷ ts)
    → now < t.timeout
    → Later now (t ∷ ts)
Later-of-head now t ts s h = (h, All-mono ts h s.0)
