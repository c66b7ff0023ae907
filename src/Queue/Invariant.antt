-- ===== src/Queue/Invariant.antt =====
-- kernel/queue.hpp: the representation invariant of `ArrayQueue` and its preservation.
use uhyok_os.Base.{ℕ, ◌+◌, ◌^◌, ◌≤◌, ◌<◌, ◌≡◌, ◌⊎◌, List, length, length-set, arith}
use uhyok_os.Queue.{ArrayQueue, init, push, pop}

-- The write position is `count` places after the read position, going round at the capacity.
abbrev pub Apart : ℕ → ℕ → ℕ → ℕ → Type 0
Apart r w n size = (w ≡ r + n) ⊎ (w + size ≡ r + n)

pub record IsValid {ℓ} {A : Type ℓ} (q : ArrayQueue A) : Type 0 where
  pub storage : q.capacity ≤ length q.buf
  pub addressable : q.capacity < 2 ^ 64
  pub read_in : q.read_pos < q.capacity
  pub write_in : q.write_pos < q.capacity
  pub count_in : q.count ≤ q.capacity
  pub apart : Apart q.read_pos q.write_pos q.count q.capacity

module _ {ℓ} {A : Type ℓ} where
  pub init-IsValid :
      (storage : List A) (size : ℕ)
      → 0 < size
      → size ≤ length storage
      → size < 2 ^ 64
      → IsValid (init storage size)
  unfolding init
  init-IsValid storage size pos fits small = omega arith

  -- A push keeps the queue well formed: no position leaves the storage, the count stays within
  -- the capacity, and the write position stays `count` places after the read position.
  pub push-IsValid : {q : ArrayQueue A} (x : A) → IsValid q → IsValid (push q x).1
  unfolding push
  push-IsValid {q} x v = ground (arith, length-set q.buf q.write_pos x)

  pub pop-IsValid : {q : ArrayQueue A} → IsValid q → IsValid (pop q).1
  unfolding pop
  pop-IsValid v = ground arith

  pub capacity-push : (q : ArrayQueue A) (x : A) → (push q x).1.capacity ≡ q.capacity
  unfolding push
  capacity-push q x = ground arith

  pub capacity-pop : (q : ArrayQueue A) → (pop q).1.capacity ≡ q.capacity
  unfolding pop
  capacity-pop q = ground arith
