-- ===== src/Terminal.antt =====
-- kernel/terminal.hpp, terminal.cpp: the terminal window: its line, its cursor, its history and the
-- commands. What is drawn is a list of calls.
pub mod Keys
pub mod Cursor
pub mod Validity
pub mod Session
mod Tests
use uhyok_os.Base.{
  ℕ, zero, suc, ◌+◌, ◌-◌, ◌*◌, Bool, true, false, not, ◌&&◌, ◌==◌, ltb, if◌then◌else◌, List, [],
  ◌∷◌, ◌++◌, length, get_or, set, take, drop, replicate, Option, none, some,
}
use uhyok_os.Graphics.{PixelColor, to_color}

abbrev pub rows : ℕ
rows = 15

abbrev pub columns : ℕ
columns = 60

abbrev pub line_max : ℕ
line_max = 128

-- A call that draws in the window, in its pixels: `Writer` counts from the corner of the window, and
-- what `InnerWriter` draws is moved by the margin.
pub data Call : Type 0 where
  fill_rectangle : (x y width height : ℕ) (color : PixelColor) → Call
  write_ascii : (x y char : ℕ) → Call
  move_area : (to_x to_y x y width height : ℕ) → Call

-- A rectangle to draw again.
pub record Area : Type 0 where
  pub x : ℕ
  pub y : ℕ
  pub width : ℕ
  pub height : ℕ

-- The members of `Terminal`, with `none` for a history index of -1.
pub record Terminal : Type 0 where
  pub cursor_x : ℕ
  pub cursor_y : ℕ
  pub cursor_visible : Bool
  pub linebuf_index : ℕ
  pub linebuf : List ℕ
  pub cmd_history : List (List ℕ)
  pub cmd_history_index : Option ℕ
  pub calls : List Call

abbrev pub margin_x : ℕ
margin_x = 4

abbrev pub margin_y : ℕ
margin_y = 24

abbrev pub background : PixelColor
background = to_color 0xC8B2FF

abbrev pub call : Call → Terminal → Terminal
call c t = record t { calls = t.calls ++ c ∷ [] }

-- `CalcCursorPos`.
abbrev pub cursor_pos_x : Terminal → ℕ
cursor_pos_x t = margin_x + (4 + 8 * t.cursor_x)

abbrev pub cursor_pos_y : Terminal → ℕ
cursor_pos_y t = margin_y + (4 + 16 * t.cursor_y)

abbrev pub draw_cursor : Bool → Terminal → Terminal
draw_cursor visible t =
    call
      (fill_rectangle (cursor_pos_x t) (cursor_pos_y t) 7 15
        (if visible then to_color 0xa47fff else background))
      t

pub blink_cursor : Terminal → Area × Terminal
blink_cursor t =
    let t' =
      draw_cursor (not t.cursor_visible) (record t { cursor_visible = not t.cursor_visible }) in
    (record { x = cursor_pos_x t'; y = cursor_pos_y t'; width = 7; height = 15 }, t')

-- `Scroll1`.
abbrev pub scroll1 : Terminal → Terminal
scroll1 t =
    let moved =
      call
        (move_area (margin_x + 4) (margin_y + 4) (margin_x + 4) (margin_y + (4 + 16)) (8 * columns)
          (16 * (rows - 1)))
        t in
    call
      (fill_rectangle (margin_x + 4) (margin_y + (4 + 16 * t.cursor_y)) (8 * columns) 16 background)
      moved

-- The closure `newline` of `Print`, and the same in `InputKey`.
abbrev pub newline : Terminal → Terminal
newline t =
    if ltb t.cursor_y (rows - 1)
    then record t { cursor_x = 0; cursor_y = t.cursor_y + 1 }
    else scroll1 (record t { cursor_x = 0 })

-- `Print`: one character of its loop, the loop, and the cursor around it.
unfoldable pub print_char : ℕ → Terminal → Terminal
print_char c t =
    if c == 10
    then newline t
    else let written = call (write_ascii (cursor_pos_x t) (cursor_pos_y t) c) t in
      if t.cursor_x == columns - 1
      then newline written
      else record written { cursor_x = t.cursor_x + 1 }

unfoldable pub print_chars : List ℕ → Terminal → Terminal
print_chars [] t = t
print_chars (c ∷ s) t = if c == 0 then t else print_chars s (print_char c t)

abbrev pub print : List ℕ → Terminal → Terminal
print s t = draw_cursor true (print_chars s (draw_cursor false t))

-- The characters in front of the terminating zero.
abbrev pub c_string : List ℕ → List ℕ
c_string [] = []
c_string (c ∷ s) = if c == 0 then [] else c ∷ c_string s

-- `strchr` for a space: what is in front of it, and what is behind it.
abbrev pub command_of : List ℕ → List ℕ
command_of [] = []
command_of (c ∷ s) = if c == 32 then [] else c ∷ command_of s

abbrev pub first_arg_of : List ℕ → Option (List ℕ)
first_arg_of [] = none
first_arg_of (c ∷ s) = if c == 32 then some s else first_arg_of s

-- `strcmp(a, b) == 0`.
abbrev pub same_string : List ℕ → List ℕ → Bool
same_string [] [] = true
same_string [] (c ∷ s) = false
same_string (b ∷ r) [] = false
same_string (b ∷ r) (c ∷ s) = (b == c) && same_string r s

abbrev pub print_all : List (List ℕ) → Terminal → Terminal
print_all [] t = t
print_all (s ∷ ss) t = print_all ss (print s t)

-- The lines that `lspci` and `ls` print, as `sprintf` formats them.
pub record Listings : Type 0 where
  pub devices : List (List ℕ)
  pub files : List (List ℕ)

-- "echo", "clear", "lspci", "ls" and "no such command: ".
abbrev pub echo : List ℕ
echo = 101 ∷ 99 ∷ 104 ∷ 111 ∷ []

abbrev pub clear : List ℕ
clear = 99 ∷ 108 ∷ 101 ∷ 97 ∷ 114 ∷ []

abbrev pub lspci : List ℕ
lspci = 108 ∷ 115 ∷ 112 ∷ 99 ∷ 105 ∷ []

abbrev pub ls : List ℕ
ls = 108 ∷ 115 ∷ []

abbrev pub no_such_command : List ℕ
no_such_command =
    110 ∷ 111 ∷ 32 ∷ 115 ∷ 117 ∷ 99 ∷ 104 ∷ 32 ∷ 99 ∷ 111 ∷ 109 ∷ 109 ∷ 97 ∷ 110 ∷ 100 ∷ 58 ∷ 32
    ∷ []

-- `ExecuteLine` on its command and its argument.
unfoldable pub execute : Listings → List ℕ → Option (List ℕ) → Terminal → Terminal
execute listings command first_arg t =
    if same_string command echo
    then print (10 ∷ []) (elim first_arg [ none ↦ t | some s ↦ print s t ])
    else if same_string command clear
    then record (call
        (fill_rectangle (margin_x + 4) (margin_y + 4) (8 * columns) (16 * rows) background) t) {
          cursor_y = 0;
        }
    else if same_string command lspci
    then print_all listings.devices t
    else if same_string command ls
    then print_all listings.files t
    else if length command == 0
    then t
    else print (10 ∷ []) (print command (print no_such_command t))

-- `ExecuteLine`: the space behind the command is overwritten.
abbrev pub execute_line : Listings → Terminal → Terminal
execute_line listings t =
    let line = c_string t.linebuf in
    execute listings (command_of line) (first_arg_of line) (elim (first_arg_of line) [
      | none ↦ t
      | some s ↦ record t { linebuf = set t.linebuf (length (command_of line)) 0 }
    ])
