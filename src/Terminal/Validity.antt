-- ===== src/Terminal/Validity.antt =====
-- kernel/terminal.cpp: the line, the cursor and the history stay within their bounds, key by key.
use uhyok_os.Base.{
  ℕ, zero, suc, ◌+◌, ◌-◌, ◌*◌, ◌≤◌, ◌<◌, ◌≡◌, refl, sym, ap, ◌∙◌, subst, Bool, true, false, ◌&&◌,
  ltb, if◌then◌else◌, List, [], ◌∷◌, ◌++◌, length, get_or, set, take, drop, replicate, Option, none,
  some, arith, All, if_cases, length-set, length-append, length-drop, length-take, length-replicate,
}
use uhyok_os.Terminal.{
  Terminal, Area, Listings, Call, rows, columns, line_max, call, newline, print, c_string,
  command_of, first_arg_of, execute, cursor_pos_x, cursor_pos_y, background,
}
use uhyok_os.Terminal.Cursor.{
  OnScreen, AreLines, execute-Executed, print-Printed, newline-Printed, newline-column,
  prompt-column,
}
use uhyok_os.Terminal.Keys.{
  older, newer, history_line, write_string, history_up_down, drop_last, resize, enter, backspace,
  type_char,
}

-- A line that was typed: it has its terminating zero, and fits behind the prompt.
abbrev pub Fits : List ℕ → Type 0
Fits line = length (c_string line) < columns

abbrev pub InHistory : Option ℕ → List (List ℕ) → Type 0
InHistory none lines = Unit
InHistory (some k) lines = k < length lines

-- The line ends at the cursor, or one place before it, where the prompt is.
pub record IsValid (t : Terminal) : Type 0 where
  pub behind : t.linebuf_index ≤ t.cursor_x
  pub near : t.cursor_x ≤ t.linebuf_index + 1
  pub short : t.linebuf_index < columns
  pub row : t.cursor_y < rows
  pub size : length t.linebuf ≡ line_max
  pub history : All Fits t.cmd_history
  pub history_index : InHistory t.cmd_history_index t.cmd_history

pub c_string-set : (l : List ℕ) (i : ℕ) → i < length l → length (c_string (set l i 0)) ≤ i
c_string-set [] i h = absurd (omega arith)
c_string-set (c ∷ l) zero h = omega arith
c_string-set (c ∷ l) (suc i) h = ground (arith, c_string-set l i (omega arith))

Fits-get : (lines : List (List ℕ)) (k : ℕ) → All Fits lines → Fits (get_or lines k [])
Fits-get [] k h = omega arith
Fits-get (l ∷ lines) zero (f, h) = f
Fits-get (l ∷ lines) (suc k) (f, h) = Fits-get lines k h

Fits-history_line :
    (o : Option ℕ) (lines : List (List ℕ))
    → All Fits lines
    → length (history_line o lines) < columns
Fits-history_line none lines h = omega arith
Fits-history_line (some k) lines h = Fits-get lines k h

pub Fits-drop_last : (lines : List (List ℕ)) → All Fits lines → All Fits (drop_last lines)
Fits-drop_last [] h = tt
Fits-drop_last (l ∷ []) h = tt
Fits-drop_last (l ∷ m ∷ lines) (f, h) = (f, Fits-drop_last (m ∷ lines) h)

Fits-take : (n : ℕ) (lines : List (List ℕ)) → All Fits lines → All Fits (take n lines)
Fits-take zero lines h = tt
Fits-take (suc n) [] h = tt
Fits-take (suc n) (l ∷ lines) (f, h) = (f, Fits-take n lines h)

Fits-append : (a b : List (List ℕ)) → All Fits a → All Fits b → All Fits (a ++ b)
Fits-append [] b h k = k
Fits-append (l ∷ a) b (f, h) k = (f, Fits-append a b h k)

abbrev blank_line : List ℕ
blank_line = replicate line_max 0

Fits-replicate : (n : ℕ) → All Fits (replicate n blank_line)
Fits-replicate zero = tt
Fits-replicate (suc n) = (omega arith, Fits-replicate n)

Fits-resize : (n : ℕ) (lines : List (List ℕ)) → All Fits lines → All Fits (resize n lines)
Fits-resize n lines h =
    Fits-take n (lines ++ replicate n blank_line)
      (Fits-append lines (replicate n blank_line) h (Fits-replicate n))

length-resize : (n : ℕ) (lines : List (List ℕ)) → length (resize n lines) ≡ n
length-resize n lines = omega (
  arith,
  length-take n (lines ++ replicate n blank_line),
  length-append lines (replicate n blank_line),
  length-replicate n blank_line,
)

-- Writing a string leaves the members alone.
pub write_string-Kept :
    (x y : ℕ) (s : List ℕ) (t : Terminal)
    → write_string x y s t ≡ record t { calls = (write_string x y s t).calls }
write_string-Kept x y [] t = refl
write_string-Kept x y (c ∷ s) t = write_string-Kept (x + 8) y s (call (Call.write_ascii x y c) t)

pub type_char-IsValid : (ascii : ℕ) (t : Terminal) → IsValid t → IsValid (type_char ascii t)
unfolding type_char
type_char-IsValid ascii t v =
    if_cases IsValid (ltb t.cursor_x (columns - 1) && ltb t.linebuf_index (line_max - 1))
      (λ e. record {
        behind = omega (arith, v.behind);
        near = omega (arith, v.near);
        short = ground (arith, v.short, v.behind, e);
        row = v.row;
        size = length-set t.linebuf t.linebuf_index ascii ∙ v.size;
        history = v.history;
        history_index = v.history_index;
      })
      (λ e. v)

pub backspace-IsValid : (area : Area) (t : Terminal) → IsValid t → IsValid (backspace area t).1
unfolding backspace
backspace-IsValid area t v =
    if_cases {A = Area × Terminal} (λ r. IsValid r.1) (ltb 0 t.cursor_x)
      (λ e. record {
        behind = omega (arith, v.behind);
        near = ground (arith, v.near, e);
        short = omega (arith, v.short);
        row = v.row;
        size = v.size;
        history = v.history;
        history_index = v.history_index;
      })
      (λ e. v)

-- A move through the history.
older-InHistory :
    (o : Option ℕ) (lines : List (List ℕ))
    → InHistory o lines
    → InHistory (older (length lines) o) lines
older-InHistory none lines h =
    if_cases (λ o. InHistory o lines) (ltb 0 (length lines)) (λ e. ground (arith, e)) (λ e. tt)
older-InHistory (some k) lines h =
    if_cases (λ o. InHistory o lines) (ltb (k + 1) (length lines)) (λ e. ground (arith, e)) (λ e. h)

newer-InHistory :
    (o : Option ℕ) (lines : List (List ℕ)) → InHistory o lines → InHistory (newer o) lines
newer-InHistory none lines h = tt
newer-InHistory (some zero) lines h = tt
newer-InHistory (some (suc k)) lines h = omega arith

recalled-size :
    (history line : List ℕ)
    → length history < columns
    → length line ≡ line_max
    → length (history ++ 0 ∷ drop (length history + 1) line) ≡ line_max
recalled-size history line short size = omega (
  arith,
  length-append history (0 ∷ drop (length history + 1) line),
  length-drop (length history + 1) line,
)

moved-InHistory :
    (up : Bool) (o : Option ℕ) (lines : List (List ℕ))
    → InHistory o lines
    → InHistory (if up then older (length lines) o else newer o) lines
moved-InHistory true o lines h = older-InHistory o lines h
moved-InHistory false o lines h = newer-InHistory o lines h

pub history_up_down-IsValid :
    (up : Bool) (t : Terminal) → IsValid t → IsValid (history_up_down up t).1
unfolding history_up_down
history_up_down-IsValid up t v =
    let index =
      if up then older (length t.cmd_history) t.cmd_history_index else newer t.cmd_history_index in
    let history = history_line index t.cmd_history in
    let short = Fits-history_line index t.cmd_history v.history in
    let at_first : Terminal = record t { cmd_history_index = index; cursor_x = 1 } in
    let cleared =
      call
        (Call.fill_rectangle (cursor_pos_x at_first) (cursor_pos_y at_first) (8 * (columns - 1)) 16
          background)
        at_first in
    let copied : Terminal = record cleared {
      linebuf = history ++ 0 ∷ drop (length history + 1) t.linebuf;
      linebuf_index = length history;
    } in
    subst (λ w. IsValid (record w { cursor_x = length history + 1 }))
      (sym (write_string-Kept (cursor_pos_x at_first) (cursor_pos_y at_first) history copied))
      (record {
        behind = omega arith;
        near = omega arith;
        short = short;
        row = v.row;
        size = recalled-size history t.linebuf short v.size;
        history = v.history;
        history_index = moved-InHistory up t.cmd_history_index t.cmd_history v.history_index;
      })

-- `ExecuteLine` cuts the line where its command ends.
cut : Option (List ℕ) → ℕ → Terminal → Terminal
cut first_arg i t = elim first_arg [ none ↦ t | some s ↦ record t { linebuf = set t.linebuf i 0 } ]

record IsCut (t t' : Terminal) : Type 0 where
  on_screen : OnScreen t'
  column : t'.cursor_x ≡ 0
  index : t'.linebuf_index ≡ 0
  size : length t'.linebuf ≡ line_max
  history : t'.cmd_history ≡ t.cmd_history
  history_index : t'.cmd_history_index ≡ none

cut-IsCut :
    (first_arg : Option (List ℕ)) (i : ℕ) (t : Terminal)
    → IsValid t
    → IsCut t (cut first_arg i (newline (record t { linebuf_index = 0; cmd_history_index = none })))
unfolding cut
cut-IsCut none i t v =
    let started : Terminal = record t { linebuf_index = 0; cmd_history_index = none } in
    let p = newline-Printed started v.row in
    record {
      on_screen = p.on_screen;
      column = newline-column started;
      index = p.same.index;
      size = ap length p.same.linebuf ∙ v.size;
      history = p.same.history;
      history_index = p.same.history_index;
    }
cut-IsCut (some s) i t v =
    let started : Terminal = record t { linebuf_index = 0; cmd_history_index = none } in
    let p = newline-Printed started v.row in
    record {
      on_screen = record { column = p.on_screen.column; row = p.on_screen.row };
      column = newline-column started;
      index = p.same.index;
      size = length-set (newline started).linebuf i 0 ∙ ap length p.same.linebuf ∙ v.size;
      history = p.same.history;
      history_index = p.same.history_index;
    }

-- The end of a line.
pub enter-IsValid :
    (listings : Listings) (t : Terminal)
    → AreLines listings
    → IsValid t
    → IsValid (enter listings t) × (length (enter listings t).cmd_history ≡ 8)
unfolding enter cut
enter-IsValid listings t lines v =
    let below = newline (record t { linebuf_index = 0; cmd_history_index = none }) in
    let line = c_string below.linebuf in
    let started = cut (first_arg_of line) (length (command_of line)) below in
    let c = cut-IsCut (first_arg_of line) (length (command_of line)) t v in
    let finished = execute listings (command_of line) (first_arg_of line) started in
    let e =
      execute-Executed listings (command_of line) (first_arg_of line) started lines c.on_screen
        c.column in
    let p = print-Printed (62 ∷ []) finished e.printed.on_screen in
    let column = prompt-column finished e.column in
    let index = p.same.index ∙ e.printed.same.index ∙ c.index in
    let history = p.same.history ∙ e.printed.same.history ∙ c.history in
    (
      record {
        behind = omega (arith, index, column);
        near = omega (arith, index, column);
        short = omega (arith, index);
        row = p.on_screen.row;
        size = ap length (p.same.linebuf ∙ e.printed.same.linebuf) ∙ c.size;
        history =
            Fits-resize 8 (print (62 ∷ []) finished).cmd_history
              (subst (All Fits) (sym history) v.history);
        history_index =
            subst (λ o. InHistory o (resize 8 (print (62 ∷ []) finished).cmd_history))
              (sym (p.same.history_index ∙ e.printed.same.history_index ∙ c.history_index)) tt;
      },
      length-resize 8 (print (62 ∷ []) finished).cmd_history,
    )
