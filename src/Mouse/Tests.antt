-- ===== src/Mouse/Tests.antt =====
-- kernel/mouse.cpp: a pointer that is moved off the screen with a button held.
use uhyok_os.Base.{◌≡◌, refl, [], Option, some, arith}
use uhyok_os.Base.Int.{pos, negsuc, ◌+ℤ◌}
use uhyok_os.Graphics.{Vector2D}
use uhyok_os.Layer.{Window, set_window}
use uhyok_os.Layer.Manager.{LayerManager, init, new_layer, update}
use uhyok_os.Layer.History.{start, step, makes, shows, Reachable, Reachable-Ordered}
use uhyok_os.Mouse.{Desktop, new, clamp, on_interrupt}
use uhyok_os.Mouse.Interrupt.{Tracked, on_interrupt-Tracked}

abbrev screen : Vector2D
screen = record { x = pos 640; y = pos 480 }

abbrev pointer_window : Option Window
pointer_window = some (record { size = record { x = pos 15; y = pos 24 } })

abbrev layers : LayerManager
layers =
    let made = (new_layer (new_layer init).0).0 in
    record made { layers = update 2 (set_window pointer_window) made.layers }

layers-Reachable : Reachable layers
unfolding new_layer init update
layers-Reachable =
    step (step (step start (makes (omega arith))) (makes (omega arith))) (shows 2 pointer_window)

abbrev desktop : Desktop
desktop = record {
  mouse = new 2;
  active = record { active_layer = 0; mouse_layer = 2 };
  manager = layers;
  draws = [];
}

clamped : clamp screen (record { x = negsuc 4; y = pos 900 }) ≡ record { x = pos 0; y = pos 479 }
unfolding ◌+ℤ◌
clamped = refl

on_interrupt-Tracked_example :
    Tracked screen (on_interrupt screen 1 (record { x = negsuc 4; y = pos 900 }) desktop)
on_interrupt-Tracked_example =
    on_interrupt-Tracked screen 1 (record { x = negsuc 4; y = pos 900 }) desktop (omega arith)
      (omega arith) (Reachable-Ordered layers-Reachable)
