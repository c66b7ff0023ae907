-- ===== src/Graphics.antt =====
-- kernel/graphics.hpp: colours, vectors and rectangles. Coordinates are `int`; here they are
-- integers, for positions that do not overflow.
pub mod Intersection
mod Tests
use uhyok_os.Base.{ℕ, ◌+◌, ◌/◌, ◌%◌, ◌^◌, Bool, ◌&&◌, ◌||◌, not, ◌==◌, if◌then◌else◌}
use uhyok_os.Base.Int.{ℤ, pos, ◌+ℤ◌, ◌-ℤ◌, ltb_ℤ}

pub record PixelColor : Type 0 where
  pub r : ℕ
  pub g : ℕ
  pub b : ℕ

abbrev pub to_color : ℕ → PixelColor
to_color c = record { r = c / 2 ^ 16 % 2 ^ 8; g = c / 2 ^ 8 % 2 ^ 8; b = c % 2 ^ 8 }

abbrev pub same_color : PixelColor → PixelColor → Bool
same_color lhs rhs = lhs.r == rhs.r && lhs.g == rhs.g && lhs.b == rhs.b

pub record Vector2D : Type 0 where
  pub x : ℤ
  pub y : ℤ

abbrev pub origin : Vector2D
origin = record { x = pos 0; y = pos 0 }

abbrev pub add : Vector2D → Vector2D → Vector2D
add lhs rhs = record { x = lhs.x +ℤ rhs.x; y = lhs.y +ℤ rhs.y }

abbrev pub sub : Vector2D → Vector2D → Vector2D
sub lhs rhs = record { x = lhs.x -ℤ rhs.x; y = lhs.y -ℤ rhs.y }

-- `std::max` and `std::min`.
abbrev pub max_ℤ : ℤ → ℤ → ℤ
max_ℤ a b = if ltb_ℤ a b then b else a

abbrev pub min_ℤ : ℤ → ℤ → ℤ
min_ℤ a b = if ltb_ℤ b a then b else a

abbrev pub element_max : Vector2D → Vector2D → Vector2D
element_max lhs rhs = record { x = max_ℤ lhs.x rhs.x; y = max_ℤ lhs.y rhs.y }

abbrev pub element_min : Vector2D → Vector2D → Vector2D
element_min lhs rhs = record { x = min_ℤ lhs.x rhs.x; y = min_ℤ lhs.y rhs.y }

pub record Rectangle : Type 0 where
  pub pos : Vector2D
  pub size : Vector2D

abbrev pub end_of : Rectangle → Vector2D
end_of r = add r.pos r.size

-- `operator&`.
pub intersect : Rectangle → Rectangle → Rectangle
intersect lhs rhs =
    if ltb_ℤ (end_of lhs).x rhs.pos.x
      || ltb_ℤ (end_of lhs).y rhs.pos.y
      || ltb_ℤ (end_of rhs).x lhs.pos.x
      || ltb_ℤ (end_of rhs).y lhs.pos.y
    then record { pos = origin; size = origin }
    else let new_pos = element_max lhs.pos rhs.pos in
      record { pos = new_pos; size = sub (element_min (end_of lhs) (end_of rhs)) new_pos }
