-- ===== src/Acpi/Waiting.antt =====
-- kernel/acpi.cpp: `WaitMilliseconds` comes to an end, at the right time.
use uhyok_os.Base.{
  ℕ, zero, suc, ◌+◌, ◌-◌, ◌*◌, ◌/◌, ◌%◌, ◌^◌, ◌≤◌, ◌<◌, ◌≡◌, sym, ap, ◌∙◌, subst, Bool, true, false,
  ltb, if◌then◌else◌, some, arith, dec_le, max,
}
use uhyok_os.Acpi.{wait_while, end_of, pm_timer_freq}

-- How far the timer counts before it starts again.
abbrev pub period : Bool → ℕ
period wide = if wide then 2 ^ 32 else 2 ^ 24

-- The count of the timer at each reading: it goes on, by no more than one between two readings.
pub record Ticks (clock : ℕ → ℕ) : Type 0 where
  pub forward : (n : ℕ) → clock n ≤ clock (n + 1)
  pub slow : (n : ℕ) → clock (n + 1) ≤ clock n + 1
  pub goes_on : (k : ℕ) → (n : ℕ) × (k ≤ clock n)

stay : (n : ℕ) → n + 0 ≡ n
stay n = omega arith

move : (n k : ℕ) → n + 1 + k ≡ n + suc k
move n k = omega arith

only : (j : ℕ) → j < 1 → j ≡ 0
only j z = omega arith

-- A loop that goes on for `k` readings returns with the one after them.
pub wait_while-returns :
    (test : ℕ → Bool) (port : ℕ → ℕ) (k fuel n : ℕ)
    → k < fuel
    → ((j : ℕ) → j < k → test (port (n + j)) ≡ true)
    → test (port (n + k)) ≡ false
    → wait_while fuel test port n ≡ some (n + k)
unfolding wait_while
wait_while-returns test port k zero n h on off = absurd (omega (arith, h))
wait_while-returns test port zero (suc fuel) n h on off =
    ground (arith, ap (λ i. test (port i)) (sym (stay n)) ∙ off)
wait_while-returns test port (suc k) (suc fuel) n h on off =
    let rest =
      wait_while-returns test port k fuel (n + 1) (omega arith)
        (λ j l. ap (λ i. test (port i)) (move n j) ∙ on (suc j) (omega arith))
        (ap (λ i. test (port i)) (move n k) ∙ off) in
    let here = ap (λ i. test (port i)) (sym (stay n)) ∙ on 0 (omega arith) in
    ground (arith, here, rest ∙ ap some (move n k))

module _ (clock : ℕ → ℕ) (ticks : Ticks clock) where
  -- The first reading from `n` on at which the clock has come to a target.
  pub record Reaches (target n : ℕ) : Type 0 where
    pub steps : ℕ
    pub before : (j : ℕ) → j < steps → clock (n + j) < target
    pub arrived : target ≤ clock (n + steps)
    pub near : clock (n + steps) ≤ max (clock n) target

  before_all :
      {target : ℕ} (n steps : ℕ)
      → clock n < target
      → ((j : ℕ) → j < steps → clock (n + 1 + j) < target)
      → (j : ℕ) → j < suc steps
      → clock (n + j) < target
  before_all {target = target} n steps l rest zero z =
      subst (λ i. clock i < target) (sym (stay n)) l
  before_all {target = target} n steps l rest (suc j) z =
      subst (λ i. clock i < target) (move n j) (rest j (omega arith))

  reaches : (target d n : ℕ) → target ≤ clock (n + d) → Reaches target n
  reaches target d n h = elim (dec_le target (clock n)) [
    | yes l ↦ record {
      steps = 0;
      before = λ j z. absurd (omega (arith, z));
      arrived = subst (λ i. target ≤ clock i) (sym (stay n)) l;
      near = subst (λ i. clock i ≤ max (clock n) target) (sym (stay n)) (omega arith);
    }
    | no m ↦ go d n h (omega arith)
  ]
    where
      go : (d n : ℕ) → target ≤ clock (n + d) → clock n < target → Reaches target n
      go zero n h l = absurd (omega (arith, subst (λ i. target ≤ clock i) (stay n) h, l))
      go (suc d) n h l = elim (dec_le target (clock (n + 1))) [
        | yes arrives ↦ record {
          steps = 1;
          before = λ j z.
              subst (λ i. clock (n + i) < target) (sym (only j z))
                (subst (λ i. clock i < target) (sym (stay n)) l);
          arrived = arrives;
          near = omega (arith, ticks.slow n, l);
        }
        | no later ↦
            let rest =
              go d (n + 1) (subst (λ i. target ≤ clock i) (sym (move n d)) h) (omega arith) in
            record {
              steps = suc rest.steps;
              before = before_all n rest.steps l rest.before;
              arrived = subst (λ i. target ≤ clock i) (move n rest.steps) rest.arrived;
              near =
                  subst (λ i. clock i ≤ max (clock n) target) (move n rest.steps)
                    (omega (arith, rest.near, ticks.slow n, l));
            }
      ]

  pub grows : (n j : ℕ) → clock n ≤ clock (n + j)
  grows n zero = subst (λ i. clock n ≤ clock i) (sym (stay n)) (omega arith)
  grows n (suc j) =
      subst (λ i. clock n ≤ clock i) (move n j) (omega (arith, ticks.forward n, grows (n + 1) j))

  -- A target ahead is reached from the reading `n` on.
  pub Reaches-ahead : (target n : ℕ) → clock n ≤ target + 1 → Reaches target n
  Reaches-ahead target n h =
      let (m, far) = ticks.goes_on target in
      elim (dec_le n m) [
        | yes l ↦ reaches target (m - n) n (subst (λ i. target ≤ clock i) (back n m l) far)
        | no later ↦ reaches target 0 n (
            subst (λ i. target ≤ clock i) (sym (stay n))
              (omega (
                arith,
                far,
                subst (λ i. clock m ≤ clock i) (ahead n m (omega arith)) (grows m (n - m)),
              )))
      ]
    where
      back : (n m : ℕ) → n ≤ m → m ≡ n + (m - n)
      back n m l = omega arith

      ahead : (n m : ℕ) → m ≤ n → m + (n - m) ≡ n
      ahead n m l = omega arith

-- The readings of a timer that has started again `k` times since the count `c` was its last start.
pub reading :
    (wide : Bool) (c x : ℕ)
    → c - c % period wide ≤ x
    → x < c - c % period wide + period wide
    → x % period wide ≡ x - (c - c % period wide)
reading true c x low high = omega arith
reading false c x low high = omega arith

pub reading-again :
    (wide : Bool) (c x : ℕ)
    → c - c % period wide + period wide ≤ x
    → x < c - c % period wide + period wide + period wide
    → x % period wide ≡ x - (c - c % period wide) - period wide
reading-again true c x low high = omega arith
reading-again false c x low high = omega arith

pub start-period : (wide : Bool) (c : ℕ) → (c % period wide < period wide) × (c % period wide ≤ c)
start-period true c = (omega arith, omega arith)
start-period false c = (omega arith, omega arith)

-- The ticks of a time.
abbrev pub ticks_of : ℕ → ℕ
ticks_of msec = pm_timer_freq * msec / 1000

pub end_of-period :
    (wide : Bool) (start msec : ℕ)
    → start < period wide
    → ticks_of msec < period wide
    → end_of wide start msec ≡ (start + ticks_of msec) % period wide
end_of-period true start msec h t = omega (arith, h, t)
end_of-period false start msec h t = omega (arith, h, t)

pub end-period :
    (wide : Bool) (start t : ℕ)
    → start < period wide
    → t < period wide
    → (start + t) % period wide
      ≡ (if ltb (start + t) (period wide) then start + t else start + t - period wide)
end-period true start t h k = ground (arith, h, k)
end-period false start t h k = ground (arith, h, k)
