-- ===== src/Layer/Stack.antt =====
-- kernel/layer.cpp: the vector operations that `LayerManager` uses on its stack of pointers.
use uhyok_os.Base.{
  ℕ, zero, suc, ◌≤◌, ◌<◌, ◌≡◌, ◌≢◌, refl, ap, List, [], ◌∷◌, ◌==◌, arith, if◌then◌else◌, length,
}

-- `std::find`: the position of the first match, or the end.
unfoldable pub find_pos : ℕ → List ℕ → ℕ
find_pos p [] = 0
find_pos p (x ∷ xs) = if x == p then 0 else suc (find_pos p xs)

-- `vector::erase` and `vector::insert`.
unfoldable pub erase_at : ℕ → List ℕ → List ℕ
erase_at i [] = []
erase_at zero (x ∷ xs) = xs
erase_at (suc i) (x ∷ xs) = x ∷ erase_at i xs

unfoldable pub insert_at : ℕ → ℕ → List ℕ → List ℕ
insert_at i p [] = p ∷ []
insert_at zero p (x ∷ xs) = p ∷ x ∷ xs
insert_at (suc i) p (x ∷ xs) = x ∷ insert_at i p xs

-- How often a pointer stands on a stack.
abbrev pub copies : ℕ → List ℕ → ℕ
copies p [] = 0
copies p (x ∷ xs) = if x == p then suc (copies p xs) else copies p xs

-- The others, in their order.
abbrev pub without : ℕ → List ℕ → List ℕ
without p [] = []
without p (x ∷ xs) = if x == p then without p xs else x ∷ without p xs

pub find_pos-le : (p : ℕ) (xs : List ℕ) → find_pos p xs ≤ length xs
unfolding find_pos
find_pos-le p [] = omega arith
find_pos-le p (x ∷ xs) = ground (arith, find_pos-le p xs)

pub find_pos-copies : (p : ℕ) (xs : List ℕ) → find_pos p xs < length xs → copies p xs ≢ 0
unfolding find_pos
find_pos-copies p [] h = absurd (omega arith)
find_pos-copies p (x ∷ xs) h = ground (arith, find_pos-copies p xs)

pub find_pos-none : (p : ℕ) (xs : List ℕ) → find_pos p xs ≡ length xs → copies p xs ≡ 0
unfolding find_pos
find_pos-none p [] h = refl
find_pos-none p (x ∷ xs) h = ground (arith, find_pos-none p xs, h)

pub find_pos-absent : (p : ℕ) (xs : List ℕ) → copies p xs ≡ 0 → find_pos p xs ≡ length xs
unfolding find_pos
find_pos-absent p [] h = refl
find_pos-absent p (x ∷ xs) h = ground (arith, find_pos-absent p xs, h)

pub length-erase_at :
    (i : ℕ) (xs : List ℕ) → i < length xs → suc (length (erase_at i xs)) ≡ length xs
unfolding erase_at
length-erase_at i [] h = absurd (omega arith)
length-erase_at zero (x ∷ xs) h = refl
length-erase_at (suc i) (x ∷ xs) h = ap suc (length-erase_at i xs (omega arith))

pub length-insert_at : (i p : ℕ) (xs : List ℕ) → length (insert_at i p xs) ≡ suc (length xs)
unfolding insert_at
length-insert_at i p [] = refl
length-insert_at zero p (x ∷ xs) = refl
length-insert_at (suc i) p (x ∷ xs) = ap suc (length-insert_at i p xs)

pub copies-insert_at :
    (i p q : ℕ) (xs : List ℕ)
    → copies q (insert_at i p xs) ≡ (if p == q then suc (copies q xs) else copies q xs)
unfolding insert_at
copies-insert_at i p q [] = refl
copies-insert_at zero p q (x ∷ xs) = refl
copies-insert_at (suc i) p q (x ∷ xs) = ground (arith, copies-insert_at i p q xs)

pub without-absent : (p : ℕ) (xs : List ℕ) → copies p xs ≡ 0 → without p xs ≡ xs
without-absent p [] h = refl
without-absent p (x ∷ xs) h = ground (arith, without-absent p xs, h)

-- Erasing what `std::find` finds leaves the others, when nothing stands twice.
pub erase_at-find_pos :
    (p : ℕ) (xs : List ℕ) → copies p xs ≤ 1 → erase_at (find_pos p xs) xs ≡ without p xs
unfolding find_pos erase_at
erase_at-find_pos p [] h = refl
erase_at-find_pos p (x ∷ xs) h = ground (arith, erase_at-find_pos p xs, without-absent p xs, h)

pub copies-without :
    (p q : ℕ) (xs : List ℕ) → copies q (without p xs) ≡ (if p == q then 0 else copies q xs)
copies-without p q [] = ground arith
copies-without p q (x ∷ xs) = ground (arith, copies-without p q xs)

pub without-insert_at : (i p : ℕ) (xs : List ℕ) → without p (insert_at i p xs) ≡ without p xs
unfolding insert_at
without-insert_at i p [] = ground arith
without-insert_at zero p (x ∷ xs) = ground arith
without-insert_at (suc i) p (x ∷ xs) = ground (arith, without-insert_at i p xs)

pub without-without : (p : ℕ) (xs : List ℕ) → without p (without p xs) ≡ without p xs
without-without p [] = refl
without-without p (x ∷ xs) = ground (arith, without-without p xs)

-- What is inserted is found where it was inserted.
pub find_pos-insert_at :
    (i p : ℕ) (xs : List ℕ) → copies p xs ≡ 0 → i ≤ length xs → find_pos p (insert_at i p xs) ≡ i
unfolding find_pos insert_at
find_pos-insert_at i p [] h k = ground arith
find_pos-insert_at zero p (x ∷ xs) h k = ground arith
find_pos-insert_at (suc i) p (x ∷ xs) h k = ground (arith, find_pos-insert_at i p xs, h)

-- Where the others are found after one is moved below them.
pub find_pos-without :
    (p q : ℕ) (xs : List ℕ)
    → p ≢ q
    → find_pos p xs < find_pos q xs
    → copies p xs ≤ 1
    → suc (find_pos q (without p xs)) ≡ find_pos q xs
unfolding find_pos
find_pos-without p q [] ne h c = absurd (omega arith)
find_pos-without p q (x ∷ xs) ne h c =
    ground (arith, find_pos-without p q xs ne, without-absent p xs, h, c)

pub find_pos-insert_below :
    (i p q : ℕ) (xs : List ℕ)
    → p ≢ q
    → i ≤ find_pos q xs
    → find_pos q (insert_at i p xs) ≡ suc (find_pos q xs)
unfolding find_pos insert_at
find_pos-insert_below i p q [] ne h = ground (arith, ne)
find_pos-insert_below zero p q (x ∷ xs) ne h = ground (arith, ne)
find_pos-insert_below (suc i) p q (x ∷ xs) ne h =
    ground (arith, find_pos-insert_below i p q xs ne, h)
