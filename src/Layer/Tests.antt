-- ===== src/Layer/Tests.antt =====
-- kernel/layer.cpp: three layers, a background, a window and the mouse, and the theorems there.
use uhyok_os.Base.{ℕ, ◌≤◌, ◌<◌, ◌≡◌, refl, false, [], ◌∷◌, Option, some, arith, length, drop}
use uhyok_os.Base.Int.{pos}
use uhyok_os.Graphics.{Vector2D, Rectangle, origin}
use uhyok_os.Layer.{Layer, Window, set_window}
use uhyok_os.Layer.Stack.{find_pos, erase_at, insert_at}
use uhyok_os.Layer.Manager.{
  LayerManager, ActiveLayer, init, new_layer, up_down, hide, update, activate,
  find_layer_by_position, lacks_window, draw_layer, deref, restack, search_layer, find_layer,
}
use uhyok_os.Layer.Order.{Ordered, IsMade, Raised, Hidden, up_down-Raised, hide-Hidden}
use uhyok_os.Layer.Drawing.{redraw, IsPart, draw_layer-redraw}
use uhyok_os.Layer.Activation.{
  Activated, HasWindows, activate-Activated, CoversAt, Topmost, find_layer_by_position-Topmost,
}
use uhyok_os.Layer.History.{Reachable, start, step, makes, stacks, shows, Reachable-Ordered}

abbrev two_layers : LayerManager
two_layers = (new_layer (new_layer init).0).0

abbrev three_layers : LayerManager
three_layers = (new_layer two_layers).0

abbrev small_window : Option Window
small_window = some (record { size = record { x = pos 80; y = pos 50 } })

abbrev shown : LayerManager
shown = record three_layers {
  layers =
      update 2 (set_window small_window) (update 1 (set_window small_window) three_layers.layers);
}

abbrev desktop : LayerManager
desktop = up_down 3 (pos 2) (up_down 2 (pos 1) (up_down 1 (pos 0) shown))

IsMade-shown : (id : ℕ) → 1 ≤ id → id ≤ 3 → IsMade id shown
unfolding new_layer init update
IsMade-shown id h k = (h, k)

IsMade-later : (id : ℕ) → 1 ≤ id → id ≤ 3 → IsMade id desktop
unfolding new_layer init update up_down
IsMade-later id h k = (h, k)

desktop-Reachable : Reachable desktop
unfolding new_layer init update up_down
desktop-Reachable =
    step
      (step
        (step
          (step
            (step
              (step (step (step start (makes (omega arith))) (makes (omega arith)))
                (makes (omega arith)))
              (shows 1 small_window))
            (shows 2 small_window))
          (stacks 1 (pos 0) (omega arith, omega arith)))
        (stacks 2 (pos 1) (omega arith, omega arith)))
      (stacks 3 (pos 2) (omega arith, omega arith))

Reachable-Ordered_example : Ordered desktop
Reachable-Ordered_example = Reachable-Ordered desktop-Reachable

desktop_stack : desktop.layer_stack ≡ 1 ∷ 2 ∷ 3 ∷ []
unfolding new_layer init update up_down restack find_layer search_layer find_pos erase_at insert_at
desktop_stack = refl

up_down-Raised_example : Raised 1 9 desktop (up_down 1 (pos 9) desktop)
up_down-Raised_example =
    up_down-Raised 1 9 (Reachable-Ordered desktop-Reachable)
      (IsMade-later 1 (omega arith) (omega arith))

hide-Hidden_example : Hidden 2 desktop (hide 2 desktop)
hide-Hidden_example =
    hide-Hidden 2 (Reachable-Ordered desktop-Reachable) (IsMade-later 2 (omega arith) (omega arith))

abbrev under_mouse : ActiveLayer
under_mouse = record { active_layer = 0; mouse_layer = 3 }

mouse_at : find_pos 3 desktop.layer_stack ≡ 2
unfolding new_layer init update up_down restack find_layer search_layer find_pos erase_at insert_at
mouse_at = refl

layers_on_it : length desktop.layer_stack ≡ 3
unfolding new_layer init update up_down restack find_layer search_layer find_pos erase_at insert_at
layers_on_it = refl

background_at : find_pos 1 desktop.layer_stack ≡ 0
unfolding new_layer init update up_down restack find_layer search_layer find_pos erase_at insert_at
background_at = refl

background-HasWindows : HasWindows 1 under_mouse desktop
unfolding new_layer init update up_down find_layer search_layer deref lacks_window
background-HasWindows = record { old = refl; its = refl }

activate-Activated_example :
    Activated 1 3 1 desktop (activate 1 under_mouse desktop).1 (activate 1 under_mouse desktop).0
activate-Activated_example =
    activate-Activated 1 1 under_mouse (Reachable-Ordered desktop-Reachable) (omega arith)
      background-HasWindows (IsMade-later 1 (omega arith) (omega arith))
      (IsMade-later 3 (omega arith) (omega arith)) (omega arith) mouse_at
      (omega (arith, layers_on_it)) (omega (arith, background_at))

abbrev click : Vector2D
click = record { x = pos 10; y = pos 10 }

find_layer_by_position-Topmost_example :
    Topmost
      (CoversAt click 3 desktop.layers)
      desktop.layer_stack
      (find_layer_by_position click 3 desktop)
find_layer_by_position-Topmost_example =
    find_layer_by_position-Topmost click 3 (Reachable-Ordered desktop-Reachable)

abbrev small : Window
small = record { size = record { x = pos 80; y = pos 50 } }

abbrev window_layer : Layer
window_layer = record { id = 2; pos = origin; window = small_window; draggable = false }

window_there : deref 2 desktop.layers ≡ some window_layer
unfolding new_layer init update up_down deref
window_there = refl

window_on_it : find_pos 2 desktop.layer_stack < length desktop.layer_stack
unfolding new_layer init update up_down restack find_layer search_layer find_pos erase_at insert_at
window_on_it = omega arith

abbrev part : Rectangle
part = record { pos = click; size = click }

draw_layer-redraw_example :
    (shown_part : Rectangle) × (draw_layer 2 part desktop
      ≡ redraw shown_part (drop (find_pos 2 desktop.layer_stack) desktop.layer_stack))
    × IsPart part window_layer small shown_part
draw_layer-redraw_example =
    draw_layer-redraw 2 part window_layer small (Reachable-Ordered desktop-Reachable)
      (IsMade-later 2 (omega arith) (omega arith)) window_there refl window_on_it
