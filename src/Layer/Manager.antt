-- ===== src/Layer/Manager.antt =====
-- kernel/layer.cpp: `LayerManager`, `ActiveLayer` and the messages that act on layers.
use uhyok_os.Base.{
  ℕ, zero, suc, ◌+◌, ◌-◌, ◌%◌, ◌^◌, Bool, true, false, not, ◌&&◌, ◌||◌, List, [], ◌∷◌, ◌++◌, Option,
  none, some, ◌==◌, ltb, if◌then◌else◌, length, get_elem?, set, map,
}
use uhyok_os.Base.Int.{ℤ, pos, negsuc, ◌-ℤ◌, ltb_ℤ}
use uhyok_os.Graphics.{Vector2D, origin, add, Rectangle, intersect}
use uhyok_os.Message.{Message, LayerOperation, Body}
use uhyok_os.Layer.{Layer, Window, new, move, move_relative}
use uhyok_os.Layer.Stack.{find_pos, erase_at, insert_at}

pub record LayerManager : Type 0 where
  pub layers : List Layer
  pub layer_stack : List ℕ
  pub latest_id : ℕ

unfoldable pub init : LayerManager
init = record { layers = []; layer_stack = []; latest_id = 0 }

-- What a pointer points to.
unfoldable pub deref : ℕ → List Layer → Option Layer
deref zero layers = none
deref (suc i) layers = get_elem? layers i

unfoldable pub update : ℕ → (Layer → Layer) → List Layer → List Layer
update zero f layers = layers
update (suc i) f layers = elim (get_elem? layers i) [ none ↦ layers | some l ↦ set layers i (f l) ]

-- `NewLayer`, with the pointer to the layer that is made.
unfoldable pub new_layer : LayerManager → LayerManager × ℕ
new_layer m =
    let id = (m.latest_id + 1) % 2 ^ 32 in
    (record m { layers = m.layers ++ new id ∷ []; latest_id = id }, suc (length m.layers))

-- `FindLayer`, from the pointer `p` on.
unfoldable pub search_layer : ℕ → ℕ → List Layer → ℕ
search_layer id p [] = 0
search_layer id p (l ∷ ls) = if l.id == id then p else search_layer id (suc p) ls

unfoldable pub find_layer : ℕ → LayerManager → ℕ
find_layer id m = search_layer id 1 m.layers

unfoldable pub hide : ℕ → LayerManager → LayerManager
hide id m =
    let at = find_pos (find_layer id m) m.layer_stack in
    if at == length m.layer_stack then m else record m { layer_stack = erase_at at m.layer_stack }

-- The stack of `UpDown` once the height is cut to the number of layers on it.
unfoldable pub restack : ℕ → ℕ → List ℕ → List ℕ
restack layer new_pos stack =
    let old_pos = find_pos layer stack in
    if old_pos == length stack
    then insert_at new_pos layer stack
    else insert_at (if new_pos == length stack then new_pos - 1 else new_pos) layer
        (erase_at old_pos stack)

unfoldable pub up_down : ℕ → ℤ → LayerManager → LayerManager
up_down id (negsuc _) m = hide id m
up_down id (pos h) m =
    let new_height = if ltb (length m.layer_stack) h then length m.layer_stack else h in
    record m { layer_stack = restack (find_layer id m) new_height m.layer_stack }

unfoldable pub has_id : ℕ → ℕ → List Layer → Bool
has_id id p layers = elim (deref p layers) [ none ↦ false | some l ↦ l.id == id ]

-- `GetHeight`, from the height `h` on.
unfoldable pub search_height : ℕ → List Layer → ℕ → List ℕ → ℤ
search_height id layers h [] = negsuc 0
search_height id layers h (p ∷ ps) =
    if has_id id p layers then pos h else search_height id layers (suc h) ps

unfoldable pub get_height : ℕ → LayerManager → ℤ
get_height id m = search_height id m.layers 0 m.layer_stack

-- The predicate of `FindLayerByPosition`.
abbrev pub is_hit : Vector2D → ℕ → Layer → Bool
is_hit at exclude_id layer = if layer.id == exclude_id then false else elim layer.window [
  | none ↦ false
  | some win ↦
      let end_pos = add layer.pos win.size in
      not (ltb_ℤ at.x layer.pos.x)
      && ltb_ℤ at.x end_pos.x
      && not (ltb_ℤ at.y layer.pos.y)
      && ltb_ℤ at.y end_pos.y
]

abbrev pub is_hit_at : Vector2D → ℕ → List Layer → ℕ → Bool
is_hit_at at exclude_id layers p = elim (deref p layers) [
  | none ↦ false
  | some l ↦ is_hit at exclude_id l
]

-- `std::find_if` from the top: the last of the stack for which the test holds.
unfoldable pub find_last : (ℕ → Bool) → List ℕ → ℕ
find_last test [] = 0
find_last test (p ∷ ps) =
    let above = find_last test ps in if above == 0 then if test p then p else 0 else above

unfoldable pub find_layer_by_position : Vector2D → ℕ → LayerManager → ℕ
find_layer_by_position at exclude_id m = find_last (is_hit_at at exclude_id m.layers) m.layer_stack

-- A call that draws: a layer to the back buffer within an area, or an area to the screen. The area
-- that `Draw` copies has no value when it met no layer of the id. `null_access` stands where the
-- source goes through a null pointer, to a layer or to a window: from there on it is undefined.
pub data DrawCall : Type 0 where
  layer_to_buffer : ℕ → Option Rectangle → DrawCall
  buffer_to_screen : Option Rectangle → DrawCall
  null_access : DrawCall

abbrev pub draw_area : Rectangle → LayerManager → List DrawCall
draw_area area m =
    map (λ p. layer_to_buffer p (some area)) m.layer_stack ++ buffer_to_screen (some area) ∷ []

-- The area of a layer's window that is drawn when `area`, relative to it, is asked for. An area of
-- two negative sizes asks for the whole window.
abbrev pub window_area : Rectangle → Layer → Window → Rectangle
window_area area layer win =
    let whole : Rectangle = record { pos = layer.pos; size = win.size } in
    if not (ltb_ℤ area.size.x (pos 0)) || not (ltb_ℤ area.size.y (pos 0))
    then intersect whole (record area { pos = add area.pos layer.pos })
    else whole

-- The loop of `Draw`, with the area found so far.
unfoldable pub draw_from : ℕ → Rectangle → List Layer → Option Rectangle → List ℕ → List DrawCall
draw_from id area layers found [] = buffer_to_screen found ∷ []
draw_from id area layers none (p ∷ ps) = elim (deref p layers) [
  | none ↦ null_access ∷ []
  | some l ↦ elim (l.id == id) [
    | true ↦ elim l.window [
      | none ↦ null_access ∷ []
      | some win ↦
          layer_to_buffer p (some (window_area area l win))
          ∷ draw_from id area layers (some (window_area area l win)) ps
    ]
    | false ↦ draw_from id area layers none ps
  ]
]
draw_from id area layers (some found) (p ∷ ps) =
    layer_to_buffer p (some found) ∷ draw_from id area layers (some found) ps

unfoldable pub draw_layer : ℕ → Rectangle → LayerManager → List DrawCall
draw_layer id area m = draw_from id area m.layers none m.layer_stack

abbrev pub whole_window : Rectangle
whole_window = record { pos = origin; size = record { x = negsuc 0; y = negsuc 0 } }

-- `Move` and `MoveRelative`: the layer moves, what it covered is drawn, and then the layer.
unfoldable pub move_by : (Layer → Layer) → ℕ → LayerManager → LayerManager × List DrawCall
move_by f id m =
    let p = find_layer id m in
    elim (deref p m.layers) [
      | none ↦ (m, null_access ∷ [])
      | some l ↦ elim l.window [
        | none ↦ (m, null_access ∷ [])
        | some win ↦
            let m' : LayerManager = record m { layers = update p f m.layers } in
            (
              m',
              draw_area (record { pos = l.pos; size = win.size }) m'
                  ++ draw_layer id whole_window m',
            )
      ]
    ]

abbrev pub move_layer : ℕ → Vector2D → LayerManager → LayerManager × List DrawCall
move_layer id new_pos m = move_by (move new_pos) id m

abbrev pub move_layer_relative : ℕ → Vector2D → LayerManager → LayerManager × List DrawCall
move_layer_relative id pos_diff m = move_by (move_relative pos_diff) id m

-- `ProcessLayerMessage`. Messages of the other kinds have no such argument.
abbrev pub process_layer_message : Message → LayerManager → LayerManager × List DrawCall
process_layer_message msg m = elim msg.body [
  | Body.layer op layer_id x y w h ↦ elim op [
    | LayerOperation.move ↦ move_layer layer_id (record { x = x; y = y }) m
    | LayerOperation.move_relative ↦ move_layer_relative layer_id (record { x = x; y = y }) m
    | LayerOperation.draw ↦ (m, draw_layer layer_id whole_window m)
    | LayerOperation.draw_area ↦ (
      m,
      draw_layer layer_id (record { pos = record { x = x; y = y }; size = record { x = w; y = h } })
          m,
    )
  ]
  | _ ↦ (m, [])
]

-- `MakeLayerMessage`.
abbrev pub make_layer_message : ℕ → ℕ → LayerOperation → Rectangle → Message
make_layer_message task_id layer_id op area = record {
  body = Body.layer op layer_id area.pos.x area.pos.y area.size.x area.size.y;
  src_task = task_id;
}

pub record ActiveLayer : Type 0 where
  pub active_layer : ℕ
  pub mouse_layer : ℕ

abbrev pub set_mouse_layer : ℕ → ActiveLayer → ActiveLayer
set_mouse_layer mouse_layer a = record a { mouse_layer = mouse_layer }

-- `FindLayer(id)`, for an id that is not 0, is null or leads to no window.
unfoldable pub lacks_window : ℕ → LayerManager → Bool
lacks_window id m = if id == 0 then false else elim (deref (find_layer id m) m.layers) [
  | none ↦ true
  | some l ↦ elim l.window [ none ↦ true | some win ↦ false ]
]

-- `Activate`, with what it does to the layers and what it draws. The frames of the windows that
-- `Window::Activate` and `Window::Deactivate` paint are not modelled.
unfoldable pub activate :
    ℕ → ActiveLayer → LayerManager → ActiveLayer × LayerManager × List DrawCall
activate layer_id a m =
    if a.active_layer == layer_id
    then (a, m, [])
    else if lacks_window a.active_layer m
    then (a, m, null_access ∷ [])
    else let old_draw =
        if a.active_layer == 0 then [] else draw_layer a.active_layer whole_window m in
      let a' : ActiveLayer = record a { active_layer = layer_id } in
      if layer_id == 0
      then (a', m, old_draw)
      else if lacks_window layer_id m
      then (a', m, old_draw ++ null_access ∷ [])
      else let m' = up_down layer_id (get_height a.mouse_layer m -ℤ pos 1) m in
        (a', m', old_draw ++ draw_layer layer_id whole_window m')
