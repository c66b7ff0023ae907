-- ===== src/Layer.antt =====
-- kernel/layer.hpp, layer.cpp: the layers of the screen, their stacking order, and what is redrawn.
-- A `Layer*` is a number: 0 is the null pointer, i + 1 points to the i-th element of `layers_`.
-- What is drawn is the list of the calls that draw; the pixels of windows are not modelled.
pub mod Stack
pub mod Manager
pub mod Order
pub mod Drawing
pub mod History
pub mod Activation
mod Tests
use uhyok_os.Base.{ℕ, ◌+◌, ◌%◌, ◌^◌, Bool, false, Option, none, ◌==◌}
use uhyok_os.Graphics.{Vector2D, origin, add}

-- `Window`, by its size.
pub record Window : Type 0 where
  pub size : Vector2D

pub record Layer : Type 0 where
  pub id : ℕ
  pub pos : Vector2D
  pub window : Option Window
  pub draggable : Bool

-- The constructor.
abbrev pub new : ℕ → Layer
new id = record { id = id; pos = origin; window = none; draggable = false }

abbrev pub move : Vector2D → Layer → Layer
move pos layer = record layer { pos = pos }

abbrev pub move_relative : Vector2D → Layer → Layer
move_relative pos_diff layer = record layer { pos = add layer.pos pos_diff }

abbrev pub set_window : Option Window → Layer → Layer
set_window window layer = record layer { window = window }

abbrev pub set_draggable : Bool → Layer → Layer
set_draggable draggable layer = record layer { draggable = draggable }
