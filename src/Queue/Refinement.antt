-- ===== src/Queue/Refinement.antt =====
-- kernel/queue.hpp: a valid `ArrayQueue` behaves as the bounded first-in-first-out list that it
-- holds.
use uhyok_os.Base.{
  ℕ, ◌^◌, ◌≤◌, ◌<◌, ◌≡◌, refl, ◌∙◌, List, [], ◌∷◌, ◌++◌, some, length, length-append, get_elem?,
  set, get_elem?-set_self, get_elem?-set_ne, arith,
}
use uhyok_os.Errors.{Code}
use uhyok_os.Queue.{ArrayQueue, push, pop, front, advance}
use uhyok_os.Queue.Bounded
use uhyok_os.Queue.Bounded.{Request, put, drop}
use uhyok_os.Queue.Invariant.{
  IsValid, Apart, push-IsValid, pop-IsValid, capacity-push, capacity-pop,
}

module _ {ℓ} {A : Type ℓ} where
  -- From position `r` on, going round at `size`, the storage holds the elements of the list.
  abbrev pub Window : List A → ℕ → ℕ → List A → Type ℓ
  Window buf size r [] = Unit
  Window buf size r (x ∷ l) = (get_elem? buf r ≡ some x) × Window buf size (advance size r) l

  pub record Holds (q : ArrayQueue A) (l : List A) : Type ℓ where
    pub window : Window q.buf q.capacity q.read_pos l
    pub counted : q.count ≡ length l

  -- Writing just past a window extends it.
  Window-set :
      (buf : List A) (size r w : ℕ) (x : A) (l : List A)
      → size ≤ length buf
      → size < 2 ^ 64
      → r < size
      → w < size
      → length l < size
      → Apart r w (length l) size
      → Window buf size r l
      → Window (set buf w x) size r (l ++ x ∷ [])
  Window-set buf size r w x [] fits small hr hw hl at h =
      let same : r ≡ w = omega arith in rw same (get_elem?-set_self buf w x (omega arith), tt)
  Window-set buf size r w x (y ∷ l) fits small hr hw hl at h = (
    get_elem?-set_ne buf x (omega arith) ∙ h.0,
    Window-set buf size (advance size r) w x l fits small (ground arith) hw (omega arith)
        (ground arith) h.1,
  )

  -- A push returns the code of the specification and leaves the queue holding its list.
  pub push_refines :
      {q : ArrayQueue A} {l : List A} (x : A)
      → IsValid q
      → Holds q l
      → ((push q x).0 ≡ (Bounded.push q.capacity l x).0)
        × Holds (push q x).1 (Bounded.push q.capacity l x).1
  unfolding push Bounded.push
  push_refines {q} {l} x v h =
      ground
        (arith, length-append l (x ∷ []), Window-set q.buf q.capacity q.read_pos q.write_pos x l)

  pub pop_refines :
      {q : ArrayQueue A} {l : List A}
      → IsValid q
      → Holds q l
      → ((pop q).0 ≡ (Bounded.pop l).0) × Holds (pop q).1 (Bounded.pop l).1
  unfolding pop Bounded.pop
  pop_refines {q} {l = []} v h = ground arith
  pop_refines {q} {l = x ∷ l} v h = ground arith

  -- A client's requests, in order.
  unfoldable pub run : ArrayQueue A → List (Request A) → List Code × ArrayQueue A
  run q [] = ([], q)
  run q (put x ∷ rs) = let (c, q') = push q x in let (cs, end) = run q' rs in (c ∷ cs, end)
  run q (drop ∷ rs) = let (c, q') = pop q in let (cs, end) = run q' rs in (c ∷ cs, end)

  -- No sequence of pushes and pops tells a valid queue from the bounded list that it holds: the
  -- codes agree one by one, and the queue ends valid and holding the list's end.
  pub run_refines :
      (rs : List (Request A)) {q : ArrayQueue A} {l : List A}
      → IsValid q
      → Holds q l
      → ((run q rs).0 ≡ (Bounded.run q.capacity l rs).0)
        × Holds (run q rs).1 (Bounded.run q.capacity l rs).1
        × IsValid (run q rs).1
  unfolding run Bounded.run
  run_refines [] v h = (refl, h, v)
  run_refines (put x ∷ rs) {q} {l} v h =
      let (same, held) = push_refines x v h in
      let (codes, end, ok) = run_refines rs (push-IsValid x v) held in
      ground (arith, capacity-push q x, same, codes, end, ok)
  run_refines (drop ∷ rs) {q} {l} v h =
      let (same, held) = pop_refines v h in
      let (codes, end, ok) = run_refines rs (pop-IsValid v) held in
      ground (arith, capacity-pop q, same, codes, end, ok)

  -- The front of a queue that holds something is its oldest element.
  pub front_lem : {q : ArrayQueue A} {x : A} {l : List A} → Holds q (x ∷ l) → front q ≡ some x
  unfolding front
  front_lem h = h.window.0
