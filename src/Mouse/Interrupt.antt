-- ===== src/Mouse/Interrupt.antt =====
-- kernel/mouse.cpp: what an interrupt of the mouse keeps.
use uhyok_os.Base.{
  ℕ, zero, suc, ◌≤◌, ◌≡◌, refl, not, ◌&&◌, ltb, arith, List, [], ◌∷◌, some, length, get_elem?,
  Bool-cases, Option-cases, inl, inr,
}
use uhyok_os.Base.Int.{ℤ, pos, negsuc, ◌+ℤ◌, ◌≤ℤ◌, +ℤ_parts}
use uhyok_os.Graphics.{Vector2D, add, sub, max_ℤ, min_ℤ}
use uhyok_os.Layer.{Layer, move, move_relative}
use uhyok_os.Layer.Manager.{LayerManager, ActiveLayer, activate, deref, find_layer_by_position}
use uhyok_os.Layer.Order.{Ordered, IsMade}
use uhyok_os.Layer.Drawing.{deref-id}
use uhyok_os.Layer.History.{move_by-Ordered, activate-Ordered}
use uhyok_os.Mouse.{
  Desktop, set_position, clamp, start_drag, drag, handle_buttons, on_interrupt, left_pressed,
}

-- From 0 up to the size of the screen, on one axis.
abbrev pub OnAxis : ℤ → ℤ → Type 0
OnAxis size p = (pos 0 ≤ℤ p) × (p +ℤ pos 1 ≤ℤ size)

abbrev pub OnScreen : Vector2D → Vector2D → Type 0
OnScreen size p = OnAxis size.x p.x × OnAxis size.y p.y

clamp_axis : (size p : ℤ) → pos 1 ≤ℤ size → OnAxis size (max_ℤ (min_ℤ p (size +ℤ negsuc 0)) (pos 0))
clamp_axis size p h = ground (
  arith,
  h,
  +ℤ_parts size (negsuc 0),
  +ℤ_parts (max_ℤ (min_ℤ p (size +ℤ negsuc 0)) (pos 0)) (pos 1),
)

deref-IsMade :
    (p : ℕ) {m : LayerManager} (l : Layer) → Ordered m → deref p m.layers ≡ some l → IsMade p m
unfolding deref
deref-IsMade zero {m} l o e = ground (arith, e)
deref-IsMade (suc i) {m} l o e = (omega arith, in_range i m.layers e)
  where
    in_range : (j : ℕ) (ls : List Layer) → get_elem? ls j ≡ some l → suc j ≤ length ls
    in_range j [] k = ground (arith, k)
    in_range zero (x ∷ xs) k = omega arith
    in_range (suc j) (x ∷ xs) k = omega (arith, in_range j xs k)

-- Activating no layer leaves the stack as it is.
activate-none : (a : ActiveLayer) (m : LayerManager) → (activate 0 a m).1 ≡ m
unfolding activate
activate-none a m = ground arith

start_drag-Ordered :
    (p : ℕ) (d : Desktop)
    → Ordered d.manager
    → Ordered (start_drag (deref p d.manager.layers) d).manager
unfolding start_drag
start_drag-Ordered p d o = elim (Option-cases (deref p d.manager.layers)) [
  | inl nothing ↦ rw (nothing, start_drag) (rw (activate-none d.active d.manager) o)
  | inr (l, at) ↦ elim (Bool-cases l.draggable) [
    | inr fixed ↦ rw (at, start_drag, fixed) (rw (activate-none d.active d.manager) o)
    | inl moves ↦
        let id : l.id ≡ p = deref-id p l o at in
        let made : IsMade l.id d.manager = rw id (deref-IsMade p l o at) in
        rw (at, start_drag, moves) (activate-Ordered l.id d.active o made)
  ]
]

drag-Ordered :
    (posdiff : Vector2D) (d : Desktop) → Ordered d.manager → Ordered (drag posdiff d).manager
unfolding drag
drag-Ordered posdiff d o = elim (Bool-cases (ltb 0 d.mouse.drag_layer_id)) [
  | inl drags ↦
      rw (drags, drag) (move_by-Ordered (move_relative posdiff) d.mouse.drag_layer_id (λ l. refl) o)
  | inr none_held ↦ rw (none_held, drag) o
]

-- A step that keeps the layers in order and the pointer where it is.
abbrev pub Keeps : Desktop → Desktop → Type 0
Keeps d d' = Ordered d'.manager × (d'.mouse.position ≡ d.mouse.position)

position-start_drag :
    (p : ℕ) (d : Desktop)
    → (start_drag (deref p d.manager.layers) d).mouse.position ≡ d.mouse.position
unfolding start_drag
position-start_drag p d = elim (Option-cases (deref p d.manager.layers)) [
  | inl nothing ↦ rw (nothing, start_drag) refl
  | inr (l, at) ↦ elim (Bool-cases l.draggable) [
    | inr fixed ↦ rw (at, start_drag, fixed) refl
    | inl moves ↦ rw (at, start_drag, moves) refl
  ]
]

position-drag :
    (posdiff : Vector2D) (d : Desktop) → (drag posdiff d).mouse.position ≡ d.mouse.position
unfolding drag
position-drag posdiff d = ground arith

handle_buttons-Keeps :
    (buttons : ℕ) (posdiff : Vector2D) (d : Desktop)
    → Ordered d.manager
    → Keeps d (handle_buttons buttons posdiff d)
unfolding handle_buttons
handle_buttons-Keeps buttons posdiff d o =
    let before = left_pressed d.mouse.previous_buttons in
    let now = left_pressed buttons in
    let p = find_layer_by_position d.mouse.position d.mouse.layer_id d.manager in
    elim (Bool-cases (not before && now)) [
      | inl down ↦ rw (down, handle_buttons) (start_drag-Ordered p d o, position-start_drag p d)
      | inr e ↦ elim (Bool-cases (before && now)) [
        | inl held ↦
            rw (e, held, handle_buttons) (drag-Ordered posdiff d o, position-drag posdiff d)
        | inr f ↦ elim (Bool-cases (before && not now)) [
          | inl up ↦ rw (e, f, up, handle_buttons) (o, refl)
          | inr g ↦ rw (e, f, g, handle_buttons) (o, refl)
        ]
      ]
    ]

-- What an interrupt leaves.
pub record Tracked (screen_size : Vector2D) (d' : Desktop) : Type 0 where
  pub on_screen : OnScreen screen_size d'.mouse.position
  pub ordered : Ordered d'.manager

-- However far the mouse moves, and whatever its buttons do, the pointer stays on a screen that has
-- a pixel; and moving the pointer, dragging a layer and activating one keep the layers in order.
pub on_interrupt-Tracked :
    (screen_size : Vector2D) (buttons : ℕ) (displacement : Vector2D) (d : Desktop)
    → pos 1 ≤ℤ screen_size.x
    → pos 1 ≤ℤ screen_size.y
    → Ordered d.manager
    → Tracked screen_size (on_interrupt screen_size buttons displacement d)
unfolding on_interrupt
on_interrupt-Tracked screen_size buttons displacement d wide high o =
    let target = add d.mouse.position displacement in
    let position = clamp screen_size target in
    let moved = set_position position d in
    let o' : Ordered moved.manager =
      move_by-Ordered (move position) d.mouse.layer_id (λ l. refl) o in
    let (ordered, same) = handle_buttons-Keeps buttons (sub position d.mouse.position) moved o' in
    record {
      on_screen =
          rw same (clamp_axis screen_size.x target.x wide, clamp_axis screen_size.y target.y high);
      ordered = ordered;
    }
