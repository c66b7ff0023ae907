-- ===== src/Message.antt =====
-- kernel/message.hpp: the messages between tasks, the tag and the union read as one data type.
use uhyok_os.Base.{ℕ}
use uhyok_os.Base.Int.{ℤ}

pub data LayerOperation : Type 0 where
  move move_relative draw draw_area : LayerOperation

-- `Message::type` with the members of `arg` that belong to it.
pub data Body : Type 0 where
  interrupt_xhci : Body
  timer_timeout : (timeout : ℕ) (value : ℤ) → Body
  key_push : (modifier keycode ascii : ℕ) → Body
  layer : (op : LayerOperation) (layer_id : ℕ) (x y w h : ℤ) → Body
  layer_finish : Body

pub record Message : Type 0 where
  pub body : Body
  pub src_task : ℕ
