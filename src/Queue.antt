-- ===== src/Queue.antt =====
-- kernel/queue.hpp: `ArrayQueue<T>`, a ring buffer over caller-provided storage.
pub mod Bounded
pub mod Invariant
pub mod Refinement
mod Tests
use uhyok_os.Base.{ℕ, ◌+◌, ◌-◌, ◌≡◌, List, Option, add64, get_elem?, set, ◌==◌, if◌then◌else◌}
use uhyok_os.Errors.{Code, success, full, empty}

-- `data_` and its positions. A read or a write outside `buf` is undefined in the source; here it
-- reads `none` and changes nothing, and the invariant rules it out.
pub record ArrayQueue {ℓ} (A : Type ℓ) : Type ℓ where
  pub buf : List A
  pub read_pos : ℕ
  pub write_pos : ℕ
  pub count : ℕ
  pub capacity : ℕ

-- `++pos; if (pos == capacity_) pos = 0;`
abbrev pub advance : ℕ → ℕ → ℕ
advance size pos = let p = add64 pos 1 in if p == size then 0 else p

module _ {ℓ} {A : Type ℓ} where
  -- The constructor.
  pub init : List A → ℕ → ArrayQueue A
  init storage size = record {
    buf = storage;
    read_pos = 0;
    write_pos = 0;
    count = 0;
    capacity = size;
  }

  pub push : ArrayQueue A → A → Code × ArrayQueue A
  push q value = if q.count == q.capacity then (full, q) else (
    success,
    record q {
      buf = set q.buf q.write_pos value;
      count = add64 q.count 1;
      write_pos = advance q.capacity q.write_pos;
    },
  )

  -- `--count_` runs only at a count that is not 0.
  pub pop : ArrayQueue A → Code × ArrayQueue A
  pop q =
      if q.count == 0
      then (empty, q)
      else (success, record q { count = q.count - 1; read_pos = advance q.capacity q.read_pos })

  pub front : ArrayQueue A → Option A
  front q = get_elem? q.buf q.read_pos
