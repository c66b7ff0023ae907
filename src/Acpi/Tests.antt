-- ===== src/Acpi/Tests.antt =====
-- kernel/acpi.cpp: the timer and the tables at concrete values.
use uhyok_os.Base.{ℕ, zero, ◌+◌, ◌%◌, ◌≡◌, refl, arith, [], ◌∷◌, get_or}
use uhyok_os.Acpi.{pm_timer_32, sum_bytes}
use uhyok_os.Acpi.Waiting.{period, Ticks}
use uhyok_os.Acpi.Milliseconds.{Waited, wait_milliseconds-Waited}

-- A clock that is one tick short of the start of a timer of 24 bits at the first reading.
abbrev clock : ℕ → ℕ
clock n = 0xffffff + n

clock-Ticks : Ticks clock
clock-Ticks = record {
  forward = λ n. omega arith;
  slow = λ n. omega arith;
  goes_on = λ k. (k, omega arith);
}

wait_milliseconds-Waited_example :
    (fuel : ℕ) × Waited fuel 0 1 (λ n. clock n % period (pm_timer_32 0)) clock
wait_milliseconds-Waited_example =
    wait_milliseconds-Waited clock clock-Ticks 0 1 (omega arith) (omega arith)

-- The sum of bytes is kept in a byte.
summed : sum_bytes (λ p. get_or (200 ∷ 50 ∷ 6 ∷ []) p 0) 0 3 ≡ zero
summed = refl
