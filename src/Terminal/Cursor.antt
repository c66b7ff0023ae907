-- ===== src/Terminal/Cursor.antt =====
-- kernel/terminal.cpp: the cursor, the line and the history stay within their bounds.
use uhyok_os.Base.{
  ℕ, ◌<◌, ◌≡◌, ◌≢◌, refl, ap, ◌∙◌, Bool, true, false, ◌==◌, if◌then◌else◌, List, [], ◌∷◌, ◌++◌,
  length, Option, none, some, arith, All, ℕ_discrete,
}
use uhyok_os.Terminal.{
  Terminal, Listings, rows, columns, draw_cursor, newline, print, print_char, print_chars,
  print_all, execute, same_string, echo, clear, lspci, ls, no_such_command,
}

-- Where the cursor may be while text is printed.
pub record OnScreen (t : Terminal) : Type 0 where
  pub column : t.cursor_x < columns
  pub row : t.cursor_y < rows

-- The members that printing leaves alone.
pub record SameLine (t t' : Terminal) : Type 0 where
  pub index : t'.linebuf_index ≡ t.linebuf_index
  pub linebuf : t'.linebuf ≡ t.linebuf
  pub history : t'.cmd_history ≡ t.cmd_history
  pub history_index : t'.cmd_history_index ≡ t.cmd_history_index

-- What printing does.
pub record Printed (t t' : Terminal) : Type 0 where
  pub on_screen : OnScreen t'
  pub same : SameLine t t'

SameLine-trans : (a b c : Terminal) → SameLine a b → SameLine b c → SameLine a c
SameLine-trans a b c p q = record {
  index = q.index ∙ p.index;
  linebuf = q.linebuf ∙ p.linebuf;
  history = q.history ∙ p.history;
  history_index = q.history_index ∙ p.history_index;
}

pub newline-Printed : (t : Terminal) → t.cursor_y < rows → Printed t (newline t)
newline-Printed t h = record {
  on_screen = record { column = ground arith; row = ground (arith, h) };
  same = record {
    index = ground arith;
    linebuf = ground arith;
    history = ground arith;
    history_index = ground arith;
  };
}

-- After the end of a line the cursor is in the first column.
pub newline-column : (t : Terminal) → (newline t).cursor_x ≡ 0
newline-column t = ground arith

print_char-Printed : (c : ℕ) (t : Terminal) → OnScreen t → Printed t (print_char c t)
unfolding print_char
print_char-Printed c t h = record {
  on_screen = record { column = ground (arith, h.column); row = ground (arith, h.row) };
  same = record {
    index = ground arith;
    linebuf = ground arith;
    history = ground arith;
    history_index = ground arith;
  };
}

nothing-Printed : (t : Terminal) → OnScreen t → Printed t t
nothing-Printed t on = record {
  on_screen = on;
  same = record { index = refl; linebuf = refl; history = refl; history_index = refl };
}

print_chars-Printed : (s : List ℕ) (t : Terminal) → OnScreen t → Printed t (print_chars s t)
unfolding print_chars
print_chars-Printed [] t h = nothing-Printed t h
print_chars-Printed (c ∷ s) t h = elim (ℕ_discrete c 0) [
  | yes e ↦ rw (stop c s t e) (nothing-Printed t h)
  | no ne ↦
      let first = print_char-Printed c t h in
      let rest = print_chars-Printed s (print_char c t) first.on_screen in
      rw (go_on c s t ne) (record {
        on_screen = rest.on_screen;
        same =
            SameLine-trans t (print_char c t) (print_chars s (print_char c t)) first.same rest.same;
      })
]
  where
    stop : (c : ℕ) (s : List ℕ) (t : Terminal) → c ≡ 0 → print_chars (c ∷ s) t ≡ t
    stop c s t e = ground (arith, e)

    go_on :
        (c : ℕ) (s : List ℕ) (t : Terminal)
        → c ≢ 0
        → print_chars (c ∷ s) t ≡ print_chars s (print_char c t)
    go_on c s t e = ground (arith, e)

pub print-Printed : (s : List ℕ) (t : Terminal) → OnScreen t → Printed t (print s t)
print-Printed s t h =
    let p =
      print_chars-Printed s (draw_cursor false t) (record { column = h.column; row = h.row }) in
    record {
      on_screen = record { column = p.on_screen.column; row = p.on_screen.row };
      same = record {
        index = p.same.index;
        linebuf = p.same.linebuf;
        history = p.same.history;
        history_index = p.same.history_index;
      };
    }

-- Text that ends a line.
pub record IsLine (line : List ℕ) : Type 0 where
  pub text : List ℕ
  pub form : line ≡ text ++ 10 ∷ []
  pub no_zero : All (λ c. c ≢ 0) text

print_chars-column :
    (s : List ℕ) (t : Terminal) → All (λ c. c ≢ 0) s → (print_chars (s ++ 10 ∷ []) t).cursor_x ≡ 0
unfolding print_chars print_char
print_chars-column [] t h = newline-column t
print_chars-column (c ∷ s) t (ne, h) = ground (arith, ne, print_chars-column s (print_char c t) h)

pub print-column : (line : List ℕ) (t : Terminal) → IsLine line → (print line t).cursor_x ≡ 0
print-column line t h =
    ap (λ l. (print_chars l (draw_cursor false t)).cursor_x) h.form
    ∙ print_chars-column h.text (draw_cursor false t) h.no_zero

-- After lines the cursor is in the first column, if it was there before.
pub print_all-Printed :
    (lines : List (List ℕ)) (t : Terminal)
    → All IsLine lines
    → OnScreen t
    → t.cursor_x ≡ 0
    → Printed t (print_all lines t) × ((print_all lines t).cursor_x ≡ 0)
print_all-Printed [] t h on at = (nothing-Printed t on, at)
print_all-Printed (line ∷ lines) t (first, h) on at =
    let p = print-Printed line t on in
    let (rest, column) =
      print_all-Printed lines (print line t) h p.on_screen (print-column line t first) in
    (
      record {
        on_screen = rest.on_screen;
        same = SameLine-trans t (print line t) (print_all lines (print line t)) p.same rest.same;
      },
      column,
    )

Printed-trans : (a b c : Terminal) → Printed a b → Printed b c → Printed a c
Printed-trans a b c p q = record {
  on_screen = q.on_screen;
  same = SameLine-trans a b c p.same q.same;
}

newline_text-IsLine : IsLine (10 ∷ [])
newline_text-IsLine = record { text = []; form = refl; no_zero = tt }

-- What a command does.
pub record Executed (t t' : Terminal) : Type 0 where
  pub printed : Printed t t'
  pub column : t'.cursor_x ≡ 0

print_line-Executed : (t : Terminal) → OnScreen t → Executed t (print (10 ∷ []) t)
print_line-Executed t on = record {
  printed = print-Printed (10 ∷ []) t on;
  column = print-column (10 ∷ []) t newline_text-IsLine;
}

then_line-Executed : (a b : Terminal) → Printed a b → Executed a (print (10 ∷ []) b)
then_line-Executed a b p =
    let e = print_line-Executed b p.on_screen in
    record { printed = Printed-trans a b (print (10 ∷ []) b) p e.printed; column = e.column }

pub record AreLines (listings : Listings) : Type 0 where
  pub devices : All IsLine listings.devices
  pub files : All IsLine listings.files

lines-Executed :
    (lines : List (List ℕ)) (t : Terminal)
    → All IsLine lines
    → OnScreen t
    → t.cursor_x ≡ 0
    → Executed t (print_all lines t)
lines-Executed lines t h on at =
    let (p, column) = print_all-Printed lines t h on at in record { printed = p; column = column }

argument-Printed :
    (first_arg : Option (List ℕ)) (t : Terminal)
    → OnScreen t
    → Printed t (elim first_arg [ none ↦ t | some s ↦ print s t ])
argument-Printed none t on = nothing-Printed t on
argument-Printed (some s) t on = print-Printed s t on

-- Every command ends with the cursor in the first column.
pub execute-Executed :
    (listings : Listings) (command : List ℕ) (first_arg : Option (List ℕ)) (t : Terminal)
    → AreLines listings
    → OnScreen t
    → t.cursor_x ≡ 0
    → Executed t (execute listings command first_arg t)
unfolding execute
execute-Executed listings command first_arg t h on at =
    if_all (same_string command echo)
      (then_line-Executed t (elim first_arg [ none ↦ t | some s ↦ print s t ])
        (argument-Printed first_arg t on))
      (if_all (same_string command clear)
        (record {
          printed = record {
            on_screen = record { column = on.column; row = omega arith };
            same = record { index = refl; linebuf = refl; history = refl; history_index = refl };
          };
          column = at;
        })
        (if_all (same_string command lspci) (lines-Executed listings.devices t h.devices on at) (
          if_all (same_string command ls) (lines-Executed listings.files t h.files on at) (
            if_all (length command == 0) (record { printed = nothing-Printed t on; column = at })
              (then_line-Executed t (print command (print no_such_command t)) (
                Printed-trans t (print no_such_command t) (print command (print no_such_command t))
                  (print-Printed no_such_command t on)
                  (print-Printed command (print no_such_command t)
                    (print-Printed no_such_command t on).on_screen)))))))
  where
    if_all :
        (b : Bool) {x y : Terminal} → Executed t x → Executed t y → Executed t (if b then x else y)
    if_all true p q = p
    if_all false p q = q

-- The prompt.
pub prompt-column : (t : Terminal) → t.cursor_x ≡ 0 → (print (62 ∷ []) t).cursor_x ≡ 1
unfolding print_chars print_char
prompt-column t h = ground (arith, h)
