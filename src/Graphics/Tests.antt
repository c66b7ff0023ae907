-- ===== src/Graphics/Tests.antt =====
-- kernel/graphics.hpp: rectangles at concrete positions.
use uhyok_os.Base.{◌≡◌, refl, ◌↔◌}
use uhyok_os.Base.Int.{pos, negsuc, ◌+ℤ◌, ◌-ℤ◌}
use uhyok_os.Graphics.{Rectangle, intersect, origin}
use uhyok_os.Graphics.Intersection.{Contains, intersect-Contains}

abbrev window : Rectangle
window = record {
  pos = record { x = negsuc 9; y = pos 20 };
  size = record { x = pos 100; y = pos 50 };
}

abbrev screen : Rectangle
screen = record { pos = origin; size = record { x = pos 640; y = pos 480 } }

window_on_screen :
    intersect window screen
    ≡ record { pos = record { x = pos 0; y = pos 20 }; size = record { x = pos 90; y = pos 50 } }
unfolding intersect ◌+ℤ◌ ◌-ℤ◌
window_on_screen = refl

intersect-Contains_example :
    Contains (intersect window screen) (record { x = pos 3; y = pos 30 }) ↔ (
      Contains window (record { x = pos 3; y = pos 30 })
      × Contains screen (record { x = pos 3; y = pos 30 }))
intersect-Contains_example = intersect-Contains window screen (record { x = pos 3; y = pos 30 })
