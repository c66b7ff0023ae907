-- ===== src/Terminal/Session.antt =====
-- kernel/terminal.cpp: every key from the start of the terminal on.
use uhyok_os.Base.{
  ℕ, suc, ◌≤◌, ◌<◌, ◌≡◌, ◌⊎◌, refl, sym, ap, ◌∙◌, subst, Bool, true, false, not, ◌==◌, List, [],
  ◌∷◌, length, set, replicate, Option, none, some, arith, All, ==_iff, if_cases, List-cases, inl,
  inr, length-set, ℕ_discrete, dec_lt,
}
use uhyok_os.Terminal.{Terminal, Area, Listings, line_max, draw_cursor, cursor_pos_x, cursor_pos_y}
use uhyok_os.Terminal.Cursor.{AreLines, print-Printed, prompt-column}
use uhyok_os.Terminal.Validity.{
  IsValid, Fits, InHistory, c_string-set, Fits-drop_last, type_char-IsValid, backspace-IsValid,
  history_up_down-IsValid, enter-IsValid, write_string-Kept,
}
use uhyok_os.Terminal.Keys.{
  history_up_down, drop_last, remember, enter, backspace, type_char, input_key, new, write_string,
  whole_window,
}

-- A terminal whose history is filled.
pub record IsReady (t : Terminal) : Type 0 where
  pub valid : IsValid t
  pub filled : 1 ≤ length t.cmd_history

draw_cursor-IsValid : (visible : Bool) (t : Terminal) → IsValid t → IsValid (draw_cursor visible t)
draw_cursor-IsValid visible t v = record {
  behind = v.behind;
  near = v.near;
  short = v.short;
  row = v.row;
  size = v.size;
  history = v.history;
  history_index = v.history_index;
}

draw_cursor-IsReady : (visible : Bool) (t : Terminal) → IsReady t → IsReady (draw_cursor visible t)
draw_cursor-IsReady visible t h = record {
  valid = draw_cursor-IsValid visible t h.valid;
  filled = h.filled;
}

-- The line that ends, with its zero.
ended : Terminal → Terminal
ended t = record t { linebuf = set t.linebuf t.linebuf_index 0 }

ended-IsValid : (t : Terminal) → IsValid t → IsValid (ended t) × Fits (ended t).linebuf
unfolding ended
ended-IsValid t v = (
  record {
    behind = v.behind;
    near = v.near;
    short = v.short;
    row = v.row;
    size = length-set t.linebuf t.linebuf_index 0 ∙ v.size;
    history = v.history;
    history_index = v.history_index;
  },
  omega (arith, c_string-set t.linebuf t.linebuf_index (omega (arith, v.size, v.short)), v.short),
)

length-drop_last :
    (x : List ℕ) (xs : List (List ℕ)) → suc (length (drop_last (x ∷ xs))) ≡ length (x ∷ xs)
length-drop_last x [] = refl
length-drop_last x (y ∷ xs) = ap suc (length-drop_last y xs)

InHistory-length :
    (o : Option ℕ) (a b : List (List ℕ)) → length a ≡ length b → InHistory o a → InHistory o b
InHistory-length none a b e h = tt
InHistory-length (some k) a b e h = omega (arith, e, h)

-- The line in front of the history, in place of its last.
remembered : Terminal → Terminal
remembered t = record t { cmd_history = t.linebuf ∷ drop_last t.cmd_history }

remembered-IsValid :
    (t : Terminal) (x : List ℕ) (xs : List (List ℕ))
    → IsValid t
    → Fits t.linebuf
    → t.cmd_history ≡ x ∷ xs
    → IsValid (remembered t)
unfolding remembered
remembered-IsValid t x xs v fits e = record {
  behind = v.behind;
  near = v.near;
  short = v.short;
  row = v.row;
  size = v.size;
  history = (fits, Fits-drop_last t.cmd_history v.history);
  history_index =
      InHistory-length t.cmd_history_index t.cmd_history (t.linebuf ∷ drop_last t.cmd_history)
        (ap length e ∙ sym (length-drop_last x xs) ∙ ap (λ l. suc (length (drop_last l))) (sym e))
        v.history_index;
}

remember-empty : (t : Terminal) → t.linebuf_index ≡ 0 → remember t ≡ some t
unfolding remember
remember-empty t e = ground (arith, e)

remember-line :
    (t : Terminal) (x : List ℕ) (xs : List (List ℕ))
    → 0 < t.linebuf_index
    → t.cmd_history ≡ x ∷ xs
    → remember t ≡ some (remembered t)
unfolding remember remembered
remember-line t x xs h e =
    let opened : elim t.cmd_history [
      | [] ↦ none
      | line ∷ lines ↦ some (record t { cmd_history = t.linebuf ∷ drop_last (line ∷ lines) })
    ]
        ≡ some (record t { cmd_history = t.linebuf ∷ drop_last t.cmd_history }) =
      rw e refl in
    ground (arith, h, opened)

remember-IsValid :
    (t : Terminal)
    → IsValid t
    → Fits t.linebuf
    → (t.linebuf_index ≡ 0) ⊎ (1 ≤ length t.cmd_history)
    → (t' : Terminal) × (remember t ≡ some t') × IsValid t'
remember-IsValid t v fits (inl e) = (t, remember-empty t e, v)
remember-IsValid t v fits (inr filled) = elim (dec_lt 0 t.linebuf_index) [
  | no z ↦ (t, remember-empty t (omega arith), v)
  | yes l ↦ elim (List-cases t.cmd_history) [
    | inl e ↦ absurd (omega (arith, filled, ap length e))
    | inr (x, xs, e) ↦ (remembered t, remember-line t x xs l e, remembered-IsValid t x xs v fits e)
  ]
]

-- A key that leaves a terminal that is ready.
abbrev pub LeavesReady : Option (Area × Terminal) → Type 0
LeavesReady o = (r : Area × Terminal) × (o ≡ some r) × IsReady r.1

enter-LeavesReady :
    (listings : Listings) (keycode : ℕ) (t : Terminal)
    → AreLines listings
    → IsValid t
    → (t.linebuf_index ≡ 0) ⊎ (1 ≤ length t.cmd_history)
    → LeavesReady (input_key listings keycode 10 t)
unfolding input_key ended
enter-LeavesReady listings keycode t lines v h =
    let hidden = draw_cursor false t in
    let (ended_valid, fits) = ended-IsValid hidden (draw_cursor-IsValid false t v) in
    let (t', returns, valid) = remember-IsValid (ended hidden) ended_valid fits h in
    let (entered, eight) = enter-IsValid listings t' lines valid in
    (
      (whole_window, draw_cursor true (enter listings t')),
      rw returns refl,
      record {
        valid = draw_cursor-IsValid true (enter listings t') entered;
        filled = omega (arith, eight);
      },
    )

shown-LeavesReady :
    (area : Area) (t : Terminal) → IsReady t → LeavesReady (some (area, draw_cursor true t))
shown-LeavesReady area t h = ((area, draw_cursor true t), refl, draw_cursor-IsReady true t h)

backspace-IsReady : (area : Area) (t : Terminal) → IsReady t → IsReady (backspace area t).1
unfolding backspace
backspace-IsReady area t h = record {
  valid = backspace-IsValid area t h.valid;
  filled = ground (arith, h.filled);
}

type_char-IsReady : (ascii : ℕ) (t : Terminal) → IsReady t → IsReady (type_char ascii t)
unfolding type_char
type_char-IsReady ascii t h = record {
  valid = type_char-IsValid ascii t h.valid;
  filled = ground (arith, h.filled);
}

cmd_history-write_string :
    (x y : ℕ) (s : List ℕ) (t : Terminal) → (write_string x y s t).cmd_history ≡ t.cmd_history
cmd_history-write_string x y s t = ap (λ w. w.cmd_history) (write_string-Kept x y s t)

history_up_down-IsReady : (up : Bool) (t : Terminal) → IsReady t → IsReady (history_up_down up t).1
unfolding history_up_down
history_up_down-IsReady up t h = record {
  valid = history_up_down-IsValid up t h.valid;
  filled = simp cmd_history-write_string h.filled;
}

input_key-LeavesReady :
    (listings : Listings) (keycode ascii : ℕ) (t : Terminal)
    → AreLines listings
    → IsReady t
    → LeavesReady (input_key listings keycode ascii t)
unfolding input_key
input_key-LeavesReady listings keycode ascii t lines h = elim (ℕ_discrete ascii 10) [
  | yes e ↦
      subst (λ a. LeavesReady (input_key listings keycode a t)) (sym e)
        (enter-LeavesReady listings keycode t lines h.valid (inr h.filled))
  | no ne ↦
      let hidden = draw_cursor false t in
      let ready = draw_cursor-IsReady false t h in
      let area : Area = record {
        x = cursor_pos_x t;
        y = cursor_pos_y t;
        width = 16;
        height = 16;
      } in
      if_cases LeavesReady (ascii == 10) (λ e. absurd (ne ((==_iff ascii 10).0 e)))
        (λ _.
          if_cases LeavesReady (ascii == 8)
            (λ _.
              shown-LeavesReady (backspace area hidden).0 (backspace area hidden).1
                (backspace-IsReady area hidden ready))
            (λ _.
              if_cases LeavesReady (not (ascii == 0))
                (λ _.
                  shown-LeavesReady area (type_char ascii hidden)
                    (type_char-IsReady ascii hidden ready))
                (λ _.
                  if_cases LeavesReady (keycode == 0x51)
                    (λ _.
                      shown-LeavesReady (history_up_down false hidden).0
                        (history_up_down false hidden).1
                        (history_up_down-IsReady false hidden ready))
                    (λ _.
                      if_cases LeavesReady (keycode == 0x52)
                        (λ _.
                          shown-LeavesReady (history_up_down true hidden).0
                            (history_up_down true hidden).1
                            (history_up_down-IsReady true hidden ready))
                        (λ _. shown-LeavesReady area hidden ready)))))
]

-- Keys, each a keycode and its character.
abbrev pub input_keys : Listings → List (ℕ × ℕ) → Terminal → Option Terminal
input_keys listings [] t = some t
input_keys listings (key ∷ keys) t = elim (input_key listings key.0 key.1 t) [
  | none ↦ none
  | some r ↦ input_keys listings keys r.1
]

input_keys-next :
    (listings : Listings) (key : ℕ × ℕ) (keys : List (ℕ × ℕ)) (t : Terminal) (r : Area × Terminal)
    → input_key listings key.0 key.1 t ≡ some r
    → input_keys listings (key ∷ keys) t ≡ input_keys listings keys r.1
input_keys-next listings key keys t r e =
    ap (λ o. elim o [ none ↦ none | some r' ↦ input_keys listings keys r'.1 ]) e

input_keys-IsReady :
    (listings : Listings) (keys : List (ℕ × ℕ)) (t : Terminal)
    → AreLines listings
    → IsReady t
    → (t' : Terminal) × (input_keys listings keys t ≡ some t') × IsReady t'
input_keys-IsReady listings [] t lines h = (t, refl, h)
input_keys-IsReady listings (key ∷ keys) t lines h =
    let (r, returns, ready) = input_key-LeavesReady listings key.0 key.1 t lines h in
    let (t', rest, ready') = input_keys-IsReady listings keys r.1 lines ready in
    (t', input_keys-next listings key keys t r returns ∙ rest, ready')

new-IsValid : IsValid new × (new.linebuf_index ≡ 0)
new-IsValid =
    let blank : Terminal = record {
      cursor_x = 0;
      cursor_y = 0;
      cursor_visible = false;
      linebuf_index = 0;
      linebuf = replicate line_max 0;
      cmd_history = [];
      cmd_history_index = none;
      calls = [];
    } in
    let p = print-Printed (62 ∷ []) blank (record { column = omega arith; row = omega arith }) in
    let column = prompt-column blank refl in
    (
      record {
        behind = omega (arith, p.same.index, column);
        near = omega (arith, p.same.index, column);
        short = omega (arith, p.same.index);
        row = p.on_screen.row;
        size = ap length p.same.linebuf;
        history = subst (All Fits) (sym p.same.history) tt;
        history_index = subst (λ o. InHistory o new.cmd_history) (sym p.same.history_index) tt;
      },
      p.same.index,
    )

-- From the start, when the first key ends the empty line, every sequence of keys is taken, and at its
-- end the line stops at the cursor or one place before it, the cursor is in one of the rows and no
-- more than one place behind the last column, the lines of the history are shorter than a row, and
-- the place in the history is one that it has; `lspci` and `ls` print whole lines.
pub input_keys-IsValid :
    (listings : Listings) (keycode : ℕ) (keys : List (ℕ × ℕ))
    → AreLines listings
    → (t : Terminal) × (input_keys listings ((keycode, 10) ∷ keys) new ≡ some t) × IsValid t
input_keys-IsValid listings keycode keys lines =
    let (valid, at_start) = new-IsValid in
    let (r, returns, ready) = enter-LeavesReady listings keycode new lines valid (inl at_start) in
    let (t, rest, ready') = input_keys-IsReady listings keys r.1 lines ready in
    (t, input_keys-next listings (keycode, 10) keys new r returns ∙ rest, ready'.valid)
