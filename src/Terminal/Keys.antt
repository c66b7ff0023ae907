-- ===== src/Terminal/Keys.antt =====
-- kernel/terminal.cpp: what a key does in the terminal.
use uhyok_os.Base.{
  ℕ, zero, suc, ◌+◌, ◌-◌, ◌*◌, Bool, true, false, not, ◌&&◌, ◌==◌, ltb, if◌then◌else◌, List, [],
  ◌∷◌, ◌++◌, length, get_or, set, take, drop, replicate, Option, none, some,
}
use uhyok_os.Terminal.{
  Terminal, Area, Listings, fill_rectangle, write_ascii, call, rows, columns, line_max, margin_x,
  margin_y, background, cursor_pos_x, cursor_pos_y, draw_cursor, newline, print, c_string,
  execute_line,
}

-- `cmd_history_index_` after an arrow key.
abbrev pub older : ℕ → Option ℕ → Option ℕ
older size none = if ltb 0 size then some 0 else none
older size (some k) = if ltb (k + 1) size then some (k + 1) else some k

abbrev pub newer : Option ℕ → Option ℕ
newer none = none
newer (some zero) = none
newer (some (suc k)) = some k

-- The line of the history at an index.
abbrev pub history_line : Option ℕ → List (List ℕ) → List ℕ
history_line none lines = []
history_line (some k) lines = c_string (get_or lines k [])

-- `WriteString`.
abbrev pub write_string : ℕ → ℕ → List ℕ → Terminal → Terminal
write_string x y [] t = t
write_string x y (c ∷ s) t = write_string (x + 8) y s (call (write_ascii x y c) t)

-- `HistoryUpDown`: `up` is a direction of 1, else it is -1.
unfoldable pub history_up_down : Bool → Terminal → Area × Terminal
history_up_down up t =
    let index =
      if up then older (length t.cmd_history) t.cmd_history_index else newer t.cmd_history_index in
    let at_first : Terminal = record t { cmd_history_index = index; cursor_x = 1 } in
    let x = cursor_pos_x at_first in
    let y = cursor_pos_y at_first in
    let history = history_line index t.cmd_history in
    let cleared = call (fill_rectangle x y (8 * (columns - 1)) 16 background) at_first in
    let copied : Terminal = record cleared {
      linebuf = history ++ 0 ∷ drop (length history + 1) t.linebuf;
      linebuf_index = length history;
    } in
    (
      record { x = x; y = y; width = 8 * (columns - 1); height = 16 },
      record (write_string x y history copied) { cursor_x = length history + 1 },
    )

-- `pop_back` of a deque that is not empty, and `resize`.
abbrev pub drop_last : List (List ℕ) → List (List ℕ)
drop_last [] = []
drop_last (x ∷ []) = []
drop_last (x ∷ y ∷ xs) = x ∷ drop_last (y ∷ xs)

abbrev pub resize : ℕ → List (List ℕ) → List (List ℕ)
resize n xs = take n (xs ++ replicate n (replicate line_max 0))

-- The line goes to the front of the history, and the oldest is dropped. An empty deque has no last.
unfoldable pub remember : Terminal → Option Terminal
remember t =
    if ltb 0 t.linebuf_index
    then elim t.cmd_history [
      | [] ↦ none
      | line ∷ lines ↦ some (record t { cmd_history = t.linebuf ∷ drop_last (line ∷ lines) })
    ]
    else some t

-- `InputKey` for the end of a line, once the line is in the history.
unfoldable pub enter : Listings → Terminal → Terminal
enter listings t =
    let below = newline (record t { linebuf_index = 0; cmd_history_index = none }) in
    let printed = print (62 ∷ []) (execute_line listings below) in
    record printed { cmd_history = resize 8 printed.cmd_history }

abbrev pub whole_window : Area
whole_window = record {
  x = margin_x;
  y = margin_y;
  width = 8 * columns + 8;
  height = 16 * rows + 8;
}

-- `InputKey` for a backspace and for a character.
unfoldable pub backspace : Area → Terminal → Area × Terminal
backspace area t =
    let back : Terminal = record t { cursor_x = t.cursor_x - 1 } in
    let cleared =
      call (fill_rectangle (cursor_pos_x back) (cursor_pos_y back) 8 16 background) back in
    if ltb 0 t.cursor_x
    then (
      record area { x = cursor_pos_x back; y = cursor_pos_y back },
      record cleared { linebuf_index = t.linebuf_index - 1 },
    )
    else (area, t)

unfoldable pub type_char : ℕ → Terminal → Terminal
type_char ascii t =
    if ltb t.cursor_x (columns - 1) && ltb t.linebuf_index (line_max - 1)
    then record (call (write_ascii (cursor_pos_x t) (cursor_pos_y t) ascii) t) {
      linebuf = set t.linebuf t.linebuf_index ascii;
      linebuf_index = t.linebuf_index + 1;
      cursor_x = t.cursor_x + 1;
    }
    else t

-- `InputKey`; `none` where the oldest line of an empty history is dropped.
unfoldable pub input_key : Listings → ℕ → ℕ → Terminal → Option (Area × Terminal)
input_key listings keycode ascii t =
    let hidden = draw_cursor false t in
    let area : Area = record {
      x = cursor_pos_x t;
      y = cursor_pos_y t;
      width = 8 * 2;
      height = 16;
    } in
    let shown : Area × Terminal → Option (Area × Terminal) =
      λ r. some (r.0, draw_cursor true r.1) in
    if ascii == 10
    then elim (remember (record hidden { linebuf = set t.linebuf t.linebuf_index 0 })) [
      | none ↦ none
      | some remembered ↦ shown (whole_window, enter listings remembered)
    ]
    else if ascii == 8
    then shown (backspace area hidden)
    else if not (ascii == 0)
    then shown (area, type_char ascii hidden)
    else if keycode == 0x51
    then shown (history_up_down false hidden)
    else if keycode == 0x52
    then shown (history_up_down true hidden)
    else shown (area, hidden)

-- The constructor, once the window is drawn.
abbrev pub new : Terminal
new = print (62 ∷ []) (record {
  cursor_x = 0;
  cursor_y = 0;
  cursor_visible = false;
  linebuf_index = 0;
  linebuf = replicate line_max 0;
  cmd_history = [];
  cmd_history_index = none;
  calls = [];
})
