-- ===== src/Mouse.antt =====
-- kernel/mouse.hpp, mouse.cpp: the mouse pointer, which moves its layer and drags others.
pub mod Interrupt
mod Tests
use uhyok_os.Base.{
  ℕ, zero, suc, ◌%◌, Bool, true, false, not, ◌&&◌, ◌==◌, ltb, if◌then◌else◌, List, [], ◌++◌, Option,
  none, some,
}
use uhyok_os.Base.Int.{ℤ, pos, negsuc}
use uhyok_os.Graphics.{Vector2D, origin, add, sub, element_min, element_max}
use uhyok_os.Layer.{Layer}
use uhyok_os.Layer.Manager.{
  LayerManager, ActiveLayer, DrawCall, deref, find_layer_by_position, move_layer,
  move_layer_relative, activate,
}

pub record Mouse : Type 0 where
  pub layer_id : ℕ
  pub position : Vector2D
  pub drag_layer_id : ℕ
  pub previous_buttons : ℕ

-- The constructor.
abbrev pub new : ℕ → Mouse
new layer_id = record {
  layer_id = layer_id;
  position = origin;
  drag_layer_id = 0;
  previous_buttons = 0;
}

-- The mouse with the layers that it acts on, and what has been drawn.
pub record Desktop : Type 0 where
  pub mouse : Mouse
  pub active : ActiveLayer
  pub manager : LayerManager
  pub draws : List DrawCall

-- `SetPosition`.
abbrev pub set_position : Vector2D → Desktop → Desktop
set_position position d =
    let (m, draws) = move_layer d.mouse.layer_id position d.manager in
    record d {
      mouse = record (d.mouse) { position = position };
      manager = m;
      draws = d.draws ++ draws;
    }

-- The new position, kept on a screen of this size.
abbrev pub clamp : Vector2D → Vector2D → Vector2D
clamp screen_size position =
    element_max (element_min position (add screen_size (record { x = negsuc 0; y = negsuc 0 })))
      origin

abbrev pub left_pressed : ℕ → Bool
left_pressed buttons = buttons % 2 == 1

abbrev pub activate_layer : ℕ → Desktop → Desktop
activate_layer id d =
    let (a, m, draws) = activate id d.active d.manager in
    record d { active = a; manager = m; draws = d.draws ++ draws }

-- The left button goes down.
pub start_drag : Option Layer → Desktop → Desktop
start_drag none d = activate_layer 0 d
start_drag (some layer) d =
    if layer.draggable
    then activate_layer layer.id
        (record d { mouse = record (d.mouse) { drag_layer_id = layer.id } })
    else activate_layer 0 d

abbrev pub move_held : ℕ → Vector2D → Desktop → Desktop
move_held id posdiff d =
    let (m, draws) = move_layer_relative id posdiff d.manager in
    record d { manager = m; draws = d.draws ++ draws }

-- The left button stays down.
pub drag : Vector2D → Desktop → Desktop
drag posdiff d =
    if ltb 0 d.mouse.drag_layer_id then move_held d.mouse.drag_layer_id posdiff d else d

pub handle_buttons : ℕ → Vector2D → Desktop → Desktop
handle_buttons buttons posdiff d =
    if not (left_pressed d.mouse.previous_buttons) && left_pressed buttons
    then start_drag
        (deref (find_layer_by_position d.mouse.position d.mouse.layer_id d.manager)
          d.manager.layers)
        d
    else if left_pressed d.mouse.previous_buttons && left_pressed buttons
    then drag posdiff d
    else if left_pressed d.mouse.previous_buttons && not (left_pressed buttons)
    then record d { mouse = record (d.mouse) { drag_layer_id = 0 } }
    else d

pub on_interrupt : Vector2D → ℕ → Vector2D → Desktop → Desktop
on_interrupt screen_size buttons displacement d =
    let position = clamp screen_size (add d.mouse.position displacement) in
    let moved = set_position position d in
    let handled = handle_buttons buttons (sub position d.mouse.position) moved in
    record handled { mouse = record (handled.mouse) { previous_buttons = buttons } }
