-- ===== src/Bits.antt =====
-- Bits of unsigned machine words: single bits read, set and cleared by masks, as the kernel's
-- bitmaps and register fields do with `&`, `|`, `~` and `<<`.
use Prim.Native.Nat.{bit_and, bit_or, digits, bit_and-bitwise, bit_or-bitwise}
use native.Mathlib.Nat.{pow-suc, one-le-pow}
use uhyok_os.Base.{
  ℕ, zero, suc, ◌+◌, ◌-◌, ◌*◌, ◌/◌, ◌%◌, ◌^◌, ◌≤◌, ◌<◌, ◌≡◌, ◌≢◌, refl, ap, sym, ◌∙◌, Bool, true,
  false, not, min, max, arith, ◌==◌, if◌then◌else◌, ℕ_discrete,
}

-- Bit `i` of a word, 0 or 1.
abbrev pub digit : ℕ → ℕ → ℕ
digit x zero = x % 2
digit x (suc i) = digit (x / 2) i

pub digit-lt-two : (x i : ℕ) → digit x i < 2
digit-lt-two x zero = omega arith
digit-lt-two x (suc i) = digit-lt-two (x / 2) i

pub digit-zero : (i : ℕ) → digit 0 i ≡ 0
digit-zero zero = refl
digit-zero (suc i) = digit-zero i

-- An operation by digits acts on each bit.
digit-digits :
    (z : ℕ → ℕ) (f : ℕ → ℕ → ℕ)
    → ((b i : ℕ) → digit (z b) i ≡ f 0 (digit b i))
    → ((x y : ℕ) → x < 2 → y < 2 → f x y < 2)
    → (n a b i : ℕ) → a ≤ n
    → digit (digits z f n a b) i ≡ f (digit a i) (digit b i)
digit-digits z f hz hf zero zero b i h = hz b i ∙ ap (λ k. f k (digit b i)) (sym (digit-zero i))
digit-digits z f hz hf zero (suc a) b i h = absurd (omega arith)
digit-digits z f hz hf (suc n) zero b i h = hz b i ∙ ap (λ k. f k (digit b i)) (sym (digit-zero i))
digit-digits z f hz hf (suc n) (suc a) b zero h =
    let small = hf (suc a % 2) (b % 2) (omega arith) (omega arith) in omega arith
digit-digits z f hz hf (suc n) (suc a) b (suc i) h =
    let small = hf (suc a % 2) (b % 2) (omega arith) (omega arith) in
    let rest = digits z f n (suc a / 2) (b / 2) in
    let halved : (rest * 2 + f (suc a % 2) (b % 2)) / 2 ≡ rest = omega arith in
    ap (λ k. digit k i) halved ∙ digit-digits z f hz hf n (suc a / 2) (b / 2) i (omega arith)

pub digit-bit_and : (a b i : ℕ) → digit (bit_and a b) i ≡ min (digit a i) (digit b i)
digit-bit_and a b i =
    ap (λ k. digit k i) (bit_and-bitwise a b)
    ∙ digit-digits (λ _. 0) min (λ c j. digit-zero j ∙ omega arith) (λ x y h k. omega arith) a a b i
        (omega arith)

pub digit-bit_or : (a b i : ℕ) → digit (bit_or a b) i ≡ max (digit a i) (digit b i)
digit-bit_or a b i =
    ap (λ k. digit k i) (bit_or-bitwise a b)
    ∙ digit-digits (λ c. c) max (λ c j. omega arith) (λ x y h k. omega arith) a a b i (omega arith)

pub digit-pow : (i j : ℕ) → digit (2 ^ i) j ≡ (if i == j then 1 else 0)
digit-pow zero zero = refl
digit-pow zero (suc j) = digit-zero j ∙ ground arith
digit-pow (suc i) zero = ground (arith, pow-suc 2 i)
digit-pow (suc i) (suc j) =
    let halved : 2 ^ suc i / 2 ≡ 2 ^ i = omega (arith, pow-suc 2 i) in
    ap (λ k. digit k j) halved ∙ digit-pow i j ∙ ground arith

pub pow-le-pow : (i k : ℕ) → i ≤ k → 2 ^ i ≤ 2 ^ k
pow-le-pow zero k h = one-le-pow k 2 (omega arith)
pow-le-pow (suc i) zero h = absurd (omega arith)
pow-le-pow (suc i) (suc k) h = omega (arith, pow-le-pow i k (omega arith), pow-suc 2 i, pow-suc 2 k)

pow-lt-pow : (i k : ℕ) → i < k → 2 ^ i < 2 ^ k
pow-lt-pow i k h = omega (arith, pow-le-pow (suc i) k h, pow-suc 2 i, one-le-pow i 2)

-- A word of ones.
digit-ones : (k j : ℕ) → j < k → digit (2 ^ k - 1) j ≡ 1
digit-ones zero j h = absurd (omega arith)
digit-ones (suc k) zero h = omega (arith, pow-suc 2 k, one-le-pow k 2)
digit-ones (suc k) (suc j) h =
    let halved : (2 ^ suc k - 1) / 2 ≡ 2 ^ k - 1 = omega (arith, pow-suc 2 k) in
    ap (λ x. digit x j) halved ∙ digit-ones k j (omega arith)

-- `~(1 << i)` in a word of `k` bits.
pub digit-mask :
    (k i j : ℕ) → i < k → j < k → digit (2 ^ k - 1 - 2 ^ i) j ≡ (if i == j then 0 else 1)
digit-mask zero i j hi hj = absurd (omega arith)
digit-mask (suc k) zero zero hi hj = omega (arith, pow-suc 2 k)
digit-mask (suc k) (suc i) zero hi hj =
    let odd : (2 ^ suc k - 1 - 2 ^ suc i) % 2 ≡ 1 =
      omega (arith, pow-suc 2 k, pow-suc 2 i, pow-lt-pow i k (omega arith)) in
    ground (arith, odd)
digit-mask (suc k) zero (suc j) hi hj =
    let halved : (2 ^ suc k - 1 - 2 ^ 0) / 2 ≡ 2 ^ k - 1 =
      omega (arith, pow-suc 2 k, one-le-pow k 2) in
    ap (λ x. digit x j) halved ∙ digit-ones k j (omega arith) ∙ ground arith
digit-mask (suc k) (suc i) (suc j) hi hj =
    let halved : (2 ^ suc k - 1 - 2 ^ suc i) / 2 ≡ 2 ^ k - 1 - 2 ^ i =
      omega (arith, pow-suc 2 k, pow-suc 2 i, pow-lt-pow i k (omega arith)) in
    ap (λ x. digit x j) halved ∙ digit-mask k i j (omega arith) (omega arith) ∙ ground arith

-- A word with no bit set is 0.
digits-zero : (n x : ℕ) → x ≤ n → ((j : ℕ) → digit x j ≡ 0) → x ≡ 0
digits-zero zero x h z = omega arith
digits-zero (suc n) x h z =
    let half : x / 2 ≡ 0 = digits-zero n (x / 2) (omega arith) (λ j. z (suc j)) in
    omega (arith, half, z 0)

-- `(x & (1 << i)) != 0`.
abbrev pub test_bit : ℕ → ℕ → Bool
test_bit x i = not (bit_and x (2 ^ i) == 0)

pub test_bit-digit : (x i : ℕ) → test_bit x i ≡ (digit x i == 1)
test_bit-digit x i = elim (ℕ_discrete (digit x i) 1) [
  | yes e ↦
      let at : digit (bit_and x (2 ^ i)) i ≡ 1 =
        digit-bit_and x (2 ^ i) i ∙ ground (arith, e, digit-pow i i) in
      let ne : bit_and x (2 ^ i) ≢ 0 =
        λ z. absurd (omega (arith, at, ap (λ k. digit k i) z, digit-zero i)) in
      ground (arith, e, ne)
  | no e ↦
      let clear : (j : ℕ) → digit (bit_and x (2 ^ i)) j ≡ 0 =
        λ j. digit-bit_and x (2 ^ i) j ∙ ground (arith, e, digit-pow i j, digit-lt-two x i) in
      let z : bit_and x (2 ^ i) ≡ 0 =
        digits-zero (bit_and x (2 ^ i)) (bit_and x (2 ^ i)) (omega arith) clear in
      ground (arith, e, z)
]

-- `x | (1 << i)` and `x & ~(1 << i)` in a word of `k` bits.
abbrev pub raise_bit : ℕ → ℕ → ℕ
raise_bit x i = bit_or x (2 ^ i)

abbrev pub lower_bit : ℕ → ℕ → ℕ → ℕ
lower_bit k x i = bit_and x (2 ^ k - 1 - 2 ^ i)

-- Setting a bit is seen at that bit only.
pub test_bit-raise :
    (x i j : ℕ) → test_bit (raise_bit x i) j ≡ (if i == j then true else test_bit x j)
test_bit-raise x i j =
    rw (test_bit-digit, test_bit-digit, digit-bit_or, digit-pow) (ground (arith, digit-lt-two x j))

-- So is clearing one.
pub test_bit-lower :
    (k x i j : ℕ)
    → i < k
    → j < k
    → test_bit (lower_bit k x i) j ≡ (if i == j then false else test_bit x j)
test_bit-lower k x i j hi hj =
    rw (test_bit-digit, test_bit-digit, digit-bit_and, digit-mask k i j hi hj)
      (ground (arith, digit-lt-two x j))

pub test_bit-zero : (i : ℕ) → test_bit 0 i ≡ false
test_bit-zero i = test_bit-digit 0 i ∙ ground (arith, digit-zero i)
