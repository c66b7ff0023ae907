-- ===== src/Task/Store.antt =====
-- kernel/task.hpp: tasks, the manager's vector of them and its run queues.
use uhyok_os.Base.{
  ℕ, suc, ◌+◌, ◌≡◌, refl, Bool, true, false, List, [], ◌∷◌, ◌++◌, Option, none, some, arith, ◌==◌,
  if◌then◌else◌,
}
use uhyok_os.Message.{Message}

-- `Task` without its stack and context.
pub record Task : Type 0 where
  pub id : ℕ
  pub level : ℕ
  pub running : Bool
  pub msgs : List Message

-- `std::find_if` over `tasks_` by id.
unfoldable pub find : ℕ → List Task → Option Task
find id [] = none
find id (t ∷ ts) = if t.id == id then some t else find id ts

-- A write through a `Task*`.
unfoldable pub modify : ℕ → (Task → Task) → List Task → List Task
modify id f [] = []
modify id f (t ∷ ts) = if t.id == id then f t ∷ ts else t ∷ modify id f ts

-- `Erase`: every copy goes.
unfoldable pub erase : ℕ → List ℕ → List ℕ
erase id [] = []
erase id (x ∷ xs) = if x == id then erase id xs else x ∷ erase id xs

abbrev pub update : (ℕ → List ℕ) → ℕ → List ℕ → ℕ → List ℕ
update f k v n = if n == k then v else f n

abbrev pub is_empty : List ℕ → Bool
is_empty [] = true
is_empty (_ ∷ _) = false

-- `pop_front`; undefined in the source on an empty deque.
abbrev pub pop_front : List ℕ → List ℕ
pop_front [] = []
pop_front (_ ∷ xs) = xs

abbrev pub count : ℕ → List ℕ → ℕ
count id [] = 0
count id (x ∷ xs) = if x == id then suc (count id xs) else count id xs

pub count-append : (id : ℕ) (xs ys : List ℕ) → count id (xs ++ ys) ≡ count id xs + count id ys
count-append id [] ys = omega arith
count-append id (x ∷ xs) ys = ground (arith, count-append id xs ys)

pub count-erase :
    (id j : ℕ) (xs : List ℕ) → count j (erase id xs) ≡ (if id == j then 0 else count j xs)
unfolding erase
count-erase id j [] = ground arith
count-erase id j (x ∷ xs) = ground (arith, count-erase id j xs)

-- The level of a running task.
abbrev pub level_if_running : Option Task → Option ℕ
level_if_running none = none
level_if_running (some t) = if t.running then some t.level else none

abbrev pub messages : Option Task → Option (List Message)
messages none = none
messages (some t) = some t.msgs

abbrev pub apply_to : (Task → Task) → Option Task → Option Task
apply_to f none = none
apply_to f (some t) = some (f t)

-- A write that keeps the id is seen at that id only.
pub find-modify :
    (id j : ℕ) (f : Task → Task) (ts : List Task)
    → ((t : Task) → (f t).id ≡ t.id)
    → find j (modify id f ts) ≡ (if id == j then apply_to f (find j ts) else find j ts)
unfolding find modify
find-modify id j f [] keeps = ground arith
find-modify id j f (t ∷ ts) keeps = ground (arith, keeps t, find-modify id j f ts keeps)

pub find-append :
    (j : ℕ) (ts : List Task) (t : Task)
    → find j (ts ++ t ∷ [])
      ≡ elim (find j ts) [ none ↦ if t.id == j then some t else none | some u ↦ some u ]
unfolding find
find-append j [] t = refl
find-append j (u ∷ ts) t = ground (arith, find-append j ts t)

-- A task found by its id has that id.
pub find-id : (id : ℕ) (ts : List Task) (t : Task) → find id ts ≡ some t → t.id ≡ id
unfolding find
find-id id [] t e = cc
find-id id (u ∷ ts) t e = ground (arith, find-id id ts t)
