-- ===== src/Console.antt =====
-- kernel/console.hpp, console.cpp: the text console. Its buffer and cursor are modelled; the pixels
-- that it draws are not.
pub mod Bounds
mod Tests
use uhyok_os.Base.{
  ℕ, ◌+◌, ◌-◌, Bool, true, false, List, [], ◌∷◌, ◌++◌, ◌==◌, ltb, if◌then◌else◌, set, get_or, drop,
  replicate,
}

abbrev pub rows : ℕ
rows = 25

abbrev pub columns : ℕ
columns = 80

-- `buffer_`, the cursor, and whether a window is set.
pub record Console : Type 0 where
  pub buffer : List (List ℕ)
  pub cursor_row : ℕ
  pub cursor_column : ℕ
  pub has_window : Bool

abbrev pub blank_row : List ℕ
blank_row = replicate (columns + 1) 0

pub init : Console
init = record {
  buffer = replicate rows blank_row;
  cursor_row = 0;
  cursor_column = 0;
  has_window = false;
}

abbrev pub set_window : Console → Console
set_window c = record c { has_window = true }

-- Every row takes the text of the one below it; the last becomes blank.
abbrev pub scroll : List (List ℕ) → List (List ℕ)
scroll buffer = drop 1 buffer ++ blank_row ∷ []

-- `Newline`. With a window its pixels move and the buffer stays as it is.
pub newline : Console → Console
newline c =
    if ltb c.cursor_row (rows - 1)
    then record c { cursor_column = 0; cursor_row = c.cursor_row + 1 }
    else if c.has_window
    then record c { cursor_column = 0 }
    else record c { cursor_column = 0; buffer = scroll c.buffer }

-- A character of `PutString`; 10 is a line feed. What does not fit on the line is dropped.
pub put_char : ℕ → Console → Console
put_char s c =
    if s == 10
    then newline c
    else if ltb c.cursor_column (columns - 1)
    then record c {
      buffer = set c.buffer c.cursor_row (set (get_or c.buffer c.cursor_row []) c.cursor_column s);
      cursor_column = c.cursor_column + 1;
    }
    else c

-- The string up to its terminator.
pub put_string : List ℕ → Console → Console
put_string [] c = c
put_string (s ∷ rest) c = if s == 0 then c else put_string rest (put_char s c)
