-- ===== src/Console/Bounds.antt =====
-- kernel/console.cpp: the cursor stays inside the buffer, and every row of it ends.
use uhyok_os.Base.{
  ℕ, zero, suc, ◌+◌, ◌-◌, ◌≤◌, ◌<◌, ◌≡◌, refl, ◌∙◌, List, [], ◌∷◌, ◌++◌, some, ◌==◌, ltb, arith,
  All, length, get_elem?, set, get_or, replicate, length-set, length-append, get_elem?-set_ne,
  Bool-cases, inl, inr,
}
use uhyok_os.Console.{
  Console, rows, columns, blank_row, init, scroll, newline, put_char, put_string,
}

-- A row has room for a line and its terminator, which is there.
abbrev pub IsRow : List ℕ → Type 0
IsRow row = (length row ≡ columns + 1) × (get_elem? row columns ≡ some 0)

pub record IsValid (c : Console) : Type 0 where
  pub height : length c.buffer ≡ rows
  pub lines : All IsRow c.buffer
  pub in_rows : c.cursor_row < rows
  pub in_columns : c.cursor_column < columns

blank_row-IsRow : IsRow blank_row
blank_row-IsRow = (refl, refl)

All-append_one :
    (b : List (List ℕ)) (row : List ℕ) → All IsRow b → IsRow row → All IsRow (b ++ row ∷ [])
All-append_one [] row h r = (r, tt)
All-append_one (x ∷ xs) row h r = (h.0, All-append_one xs row h.1 r)

All-get_or : (b : List (List ℕ)) (i : ℕ) → All IsRow b → i < length b → IsRow (get_or b i [])
All-get_or [] i h k = absurd (omega arith)
All-get_or (x ∷ xs) zero h k = h.0
All-get_or (x ∷ xs) (suc i) h k = All-get_or xs i h.1 (omega arith)

All-set :
    (b : List (List ℕ)) (i : ℕ) (row : List ℕ) → All IsRow b → IsRow row → All IsRow (set b i row)
All-set [] i row h r = tt
All-set (x ∷ xs) zero row h r = (r, h.1)
All-set (x ∷ xs) (suc i) row h r = (h.0, All-set xs i row h.1 r)

scroll-lines : (b : List (List ℕ)) → All IsRow b → All IsRow (scroll b)
scroll-lines [] h = (blank_row-IsRow, tt)
scroll-lines (x ∷ xs) h = All-append_one xs blank_row h.1 blank_row-IsRow

length-scroll : (b : List (List ℕ)) → 1 ≤ length b → length (scroll b) ≡ length b
length-scroll [] h = absurd (omega arith)
length-scroll (x ∷ xs) h = length-append xs (blank_row ∷ []) ∙ omega arith

newline-IsValid : (c : Console) → IsValid c → IsValid (newline c)
unfolding newline
newline-IsValid c v = elim (Bool-cases (ltb c.cursor_row (rows - 1))) [
  | inl more ↦
      rw (more, newline)
        (record {
          height = v.height;
          lines = v.lines;
          in_rows = ground (arith, more);
          in_columns = omega arith;
        })
  | inr last ↦ elim (Bool-cases c.has_window) [
    | inl window ↦
        rw (last, window, newline)
          (record {
            height = v.height;
            lines = v.lines;
            in_rows = v.in_rows;
            in_columns = omega arith;
          })
    | inr plain ↦
        rw (last, plain, newline)
          (record {
            height = length-scroll c.buffer (omega (arith, v.height)) ∙ v.height;
            lines = scroll-lines c.buffer v.lines;
            in_rows = v.in_rows;
            in_columns = omega arith;
          })
  ]
]

put_char-IsValid : (s : ℕ) (c : Console) → IsValid c → IsValid (put_char s c)
unfolding put_char
put_char-IsValid s c v = elim (Bool-cases (s == 10)) [
  | inl feed ↦ rw (feed, put_char) (newline-IsValid c v)
  | inr text ↦ elim (Bool-cases (ltb c.cursor_column (columns - 1))) [
    | inr full ↦ rw (text, full, put_char) v
    | inl fits ↦
        let row = get_or c.buffer c.cursor_row [] in
        let is_row : IsRow row =
          All-get_or c.buffer c.cursor_row v.lines (omega (arith, v.height, v.in_rows)) in
        let below : c.cursor_column < columns - 1 = ground (arith, fits) in
        let written : IsRow (set row c.cursor_column s) = (
          length-set row c.cursor_column s ∙ is_row.0,
          get_elem?-set_ne row s (λ e. absurd (omega (arith, e, below))) ∙ is_row.1,
        ) in
        rw (text, fits, put_char)
          (record {
            height = length-set c.buffer c.cursor_row (set row c.cursor_column s) ∙ v.height;
            lines = All-set c.buffer c.cursor_row (set row c.cursor_column s) v.lines written;
            in_rows = v.in_rows;
            in_columns = omega (arith, below);
          })
  ]
]

-- Whatever is put, from a valid console on, the cursor stays inside the buffer, the buffer keeps its
-- size, and every row keeps the terminator that ends it.
pub put_string-IsValid : (text : List ℕ) (c : Console) → IsValid c → IsValid (put_string text c)
unfolding put_string
put_string-IsValid [] c v = v
put_string-IsValid (s ∷ rest) c v = elim (Bool-cases (s == 0)) [
  | inl ends ↦ rw (ends, put_string) v
  | inr more ↦
      rw (more, put_string) (put_string-IsValid rest (put_char s c) (put_char-IsValid s c v))
]

pub init-IsValid : IsValid init
unfolding init
init-IsValid = record {
  height = refl;
  lines = every rows;
  in_rows = omega arith;
  in_columns = omega arith;
}
  where
    every : (n : ℕ) → All IsRow (replicate n blank_row)
    every zero = tt
    every (suc n) = (blank_row-IsRow, every n)
