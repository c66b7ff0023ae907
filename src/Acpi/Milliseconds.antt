-- ===== src/Acpi/Milliseconds.antt =====
-- kernel/acpi.cpp: how long `WaitMilliseconds` waits.
use uhyok_os.Base.{
  ℕ, suc, ◌+◌, ◌-◌, ◌%◌, ◌≤◌, ◌<◌, ◌≡◌, ◌∙◌, subst, true, false, ltb, leb, max, some, arith, dec_lt,
  lt→ltb,
}
use uhyok_os.Acpi.{wait_while, wait_milliseconds, end_of, pm_timer_32}
use uhyok_os.Acpi.Waiting.{
  period, Ticks, grows, Reaches-ahead, reading, reading-again, start-period, ticks_of,
  end_of-period, end-period, wait_while-returns,
}

-- The time that has gone by at the last reading, in ticks.
pub record Waited (fuel flags msec : ℕ) (port clock : ℕ → ℕ) : Type 0 where
  pub last : ℕ
  pub returns : wait_milliseconds fuel flags port msec ≡ some last
  pub long_enough : clock 0 + ticks_of msec ≤ clock last
  pub no_longer : clock last ≤ clock 0 + ticks_of msec + 1

from_start : (j : ℕ) → 0 + (1 + j) ≡ 1 + j
from_start j = omega arith

le→ltb : (a b : ℕ) → b ≤ a → ltb a b ≡ false
le→ltb a b h = ground (arith, h)

le→leb : (a b : ℕ) → a ≤ b → leb a b ≡ true
le→leb a b h = ground (arith, h)

lt→leb : (a b : ℕ) → b < a → leb a b ≡ false
lt→leb a b h = ground (arith, h)

one_more : (m j : ℕ) → m + (1 + j) ≡ m + 1 + j
one_more m j = omega arith

-- The two ways through the code.
waits_once :
    (fuel flags msec last : ℕ) (port : ℕ → ℕ)
    → port 0 ≤ end_of (pm_timer_32 flags) (port 0) msec
    → wait_while fuel (λ t. ltb t (end_of (pm_timer_32 flags) (port 0) msec)) port 1 ≡ some last
    → wait_milliseconds fuel flags port msec ≡ some last
unfolding wait_milliseconds
waits_once fuel flags msec last port h e = ground (arith, h, e)

waits_twice :
    (fuel flags msec middle last : ℕ) (port : ℕ → ℕ)
    → end_of (pm_timer_32 flags) (port 0) msec < port 0
    → wait_while fuel (λ t. leb (port 0) t) port 1 ≡ some middle
    → wait_while fuel (λ t. ltb t (end_of (pm_timer_32 flags) (port 0) msec)) port (middle + 1)
      ≡ some last
    → wait_milliseconds fuel flags port msec ≡ some last
unfolding wait_milliseconds
waits_twice fuel flags msec middle last port h e f = ground (arith, h, e, f)

module _ (clock : ℕ → ℕ) (ticks : Ticks clock) (flags msec : ℕ) where
  port : ℕ → ℕ
  port n = clock n % period (pm_timer_32 flags)

  since : (j : ℕ) → clock 0 ≤ clock (1 + j)
  since j = subst (λ i. clock 0 ≤ clock i) (from_start j) (grows clock ticks 0 (1 + j))

  once :
      1 ≤ ticks_of msec
      → clock 0 % period (pm_timer_32 flags) + ticks_of msec < period (pm_timer_32 flags)
      → (fuel : ℕ) × Waited fuel flags msec port clock
  unfolding port
  once some_time h =
      let c = clock 0 in
      let w = pm_timer_32 flags in
      let (inside, below) = start-period w c in
      let end : end_of w (c % period w) msec ≡ c % period w + ticks_of msec =
        end_of-period w (c % period w) msec inside (omega (arith, h))
        ∙ end-period w (c % period w) (ticks_of msec) inside (omega (arith, h))
        ∙ ground (arith, h) in
      let r = Reaches-ahead clock ticks (c + ticks_of msec) 1 (omega (arith, ticks.slow 0)) in
      let first = ticks.slow 0 in
      let exact : clock (1 + r.steps) ≡ c + ticks_of msec =
        omega (arith, r.arrived, r.near, first, some_time) in
      let on : (j : ℕ)
          → j < r.steps
          → ltb (clock (1 + j) % period w) (end_of w (c % period w) msec) ≡ true =
        λ j z. lt→ltb (clock (1 + j) % period w) (end_of w (c % period w) msec) (
          omega (
            arith,
            end,
            r.before j z,
            since j,
            below,
            h,
            reading w c (clock (1 + j)) (omega (arith, since j))
                (omega (arith, r.before j z, below, h)),
          )) in
      let at_end =
        reading w c (clock (1 + r.steps)) (omega (arith, exact)) (omega (arith, exact, below, h)) in
      let off =
        le→ltb (clock (1 + r.steps) % period w) (end_of w (c % period w) msec)
          (omega (arith, at_end, exact, end, below)) in
      (
        suc r.steps,
        record {
          last = 1 + r.steps;
          returns = waits_once (suc r.steps) flags msec (1 + r.steps) port (omega (arith, end)) (
              wait_while-returns (λ t. ltb t (end_of w (port 0) msec)) port r.steps (suc r.steps) 1
                (omega arith) on off);
          long_enough = omega (arith, exact);
          no_longer = omega (arith, exact);
        },
      )

  twice :
      1 ≤ ticks_of msec
      → ticks_of msec < period (pm_timer_32 flags)
      → period (pm_timer_32 flags) ≤ clock 0 % period (pm_timer_32 flags) + ticks_of msec
      → (fuel : ℕ) × Waited fuel flags msec port clock
  unfolding port
  twice some_time short h =
      let c = clock 0 in
      let w = pm_timer_32 flags in
      let (inside, below) = start-period w c in
      let end : end_of w (c % period w) msec ≡ c % period w + ticks_of msec - period w =
        end_of-period w (c % period w) msec inside short
        ∙ end-period w (c % period w) (ticks_of msec) inside short
        ∙ ground (arith, h) in
      let again = c - c % period w + period w in
      let r = Reaches-ahead clock ticks again 1 (omega (arith, ticks.slow 0, inside, below)) in
      let first = ticks.slow 0 in
      let exact : clock (1 + r.steps) ≡ again =
        omega (arith, r.arrived, r.near, first, inside, below) in
      let q =
        Reaches-ahead clock ticks (c + ticks_of msec) (1 + r.steps + 1)
          (omega (arith, ticks.slow (1 + r.steps), exact, h, below)) in
      let goal = end_of w (c % period w) msec in
      let middle = 1 + r.steps in
      let on : (j : ℕ) → j < r.steps → leb (c % period w) (clock (1 + j) % period w) ≡ true = λ j z.
        le→leb (c % period w) (clock (1 + j) % period w) (
          omega (
            arith,
            since j,
            below,
            reading w c (clock (1 + j)) (omega (arith, since j)) (omega (arith, r.before j z)),
          )) in
      let at_start =
        reading-again w c (clock middle) (omega (arith, exact)) (omega (arith, exact, inside)) in
      let off =
        lt→leb (c % period w) (clock middle % period w)
          (omega (arith, at_start, exact, h, short, below)) in
      let later : (j : ℕ) → again ≤ clock (middle + 1 + j) = λ j.
        subst (λ i. again ≤ clock i) (one_more middle j)
          (omega (arith, exact, grows clock ticks middle (1 + j))) in
      let on' : (j : ℕ) → j < q.steps → ltb (clock (middle + 1 + j) % period w) goal ≡ true = λ j z.
        lt→ltb (clock (middle + 1 + j) % period w) goal (
          omega (
            arith,
            end,
            later j,
            q.before j z,
            below,
            h,
            inside,
            short,
            reading-again w c (clock (middle + 1 + j)) (later j)
                (omega (arith, q.before j z, inside, short, below)),
          )) in
      let last = middle + 1 + q.steps in
      let near : clock last ≤ c + ticks_of msec + 1 =
        omega (arith, q.near, ticks.slow middle, exact, h, below) in
      let at_end =
        reading-again w c (clock last) (later q.steps)
          (omega (arith, near, inside, short, below)) in
      let off' =
        le→ltb (clock last % period w) goal (omega (arith, at_end, end, q.arrived, below, h)) in
      let fuel = suc (max r.steps q.steps) in
      (
        fuel,
        record {
          last = last;
          returns =
              waits_twice fuel flags msec middle last port (omega (arith, end, h, short))
                (wait_while-returns (λ t. leb (port 0) t) port r.steps fuel 1 (omega arith) on off)
                (wait_while-returns (λ t. ltb t (end_of w (port 0) msec)) port q.steps fuel
                  (middle + 1) (omega arith) on' off');
          long_enough = q.arrived;
          no_longer = near;
        },
      )

  -- A wait of some ticks, fewer than the timer counts before it starts again, comes to an end: at
  -- least that many ticks have then gone by, and at most one more. The timer has 24 bits or 32, by
  -- the flags of the table; it goes on, and is read at least once in each tick.
  pub wait_milliseconds-Waited :
      1 ≤ ticks_of msec
      → ticks_of msec < period (pm_timer_32 flags)
      → (fuel : ℕ) × Waited fuel flags msec (λ n. clock n % period (pm_timer_32 flags)) clock
  unfolding port
  wait_milliseconds-Waited some_time short =
      elim (dec_lt (clock 0 % period (pm_timer_32 flags) + ticks_of msec)
        (period (pm_timer_32 flags))) [
          | yes l ↦ once some_time l
          | no m ↦ twice some_time short (omega arith)
        ]
