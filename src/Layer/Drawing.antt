-- ===== src/Layer/Drawing.antt =====
-- kernel/layer.cpp: what `LayerManager::Draw` draws for a layer.
use uhyok_os.Base.{
  ℕ, zero, suc, ◌<◌, ◌≡◌, ◌≢◌, refl, ap, ◌∙◌, true, false, List, [], ◌∷◌, ◌++◌, map, none, some,
  ◌==◌, arith, length, drop, ℕ_discrete, ◌↔◌, ◌⊎◌, not, ◌||◌, Bool-cases, inl, inr,
}
use uhyok_os.Base.Int.{pos, negsuc, ◌≤ℤ◌, ltb_ℤ}
use uhyok_os.Graphics.{Vector2D, Rectangle, add}
use uhyok_os.Graphics.Intersection.{Contains, intersect-Contains}
use uhyok_os.Layer.{Layer, Window}
use uhyok_os.Layer.Stack.{find_pos, copies}
use uhyok_os.Layer.Manager.{
  LayerManager, DrawCall, layer_to_buffer, buffer_to_screen, draw_from, draw_layer, window_area,
  deref,
}
use uhyok_os.Layer.Order.{Ordered, IsMade, get_elem?-in_range}

-- The layers of a stack drawn within an area, and the area copied to the screen.
abbrev pub redraw : Rectangle → List ℕ → List DrawCall
redraw area ps = map (λ p. layer_to_buffer p (some area)) ps ++ buffer_to_screen (some area) ∷ []

draw_from-found :
    (id : ℕ) (area : Rectangle) (layers : List Layer) (found : Rectangle) (ps : List ℕ)
    → draw_from id area layers (some found) ps ≡ redraw found ps
unfolding draw_from
draw_from-found id area layers found [] = refl
draw_from-found id area layers found (p ∷ ps) =
    ap (λ calls. layer_to_buffer p (some found) ∷ calls) (draw_from-found id area layers found ps)

-- A layer that has been made, with its id.
pub deref-made :
    (p : ℕ) {m : LayerManager}
    → Ordered m
    → IsMade p m
    → (l : Layer) × (deref p m.layers ≡ some l) × (l.id ≡ p)
unfolding deref
deref-made zero {m} o made = absurd (omega (arith, made.0))
deref-made (suc i) {m} o made =
    let (l, at) = get_elem?-in_range m.layers i (omega (arith, made.1)) in (l, at, o.ids i l at)

pub deref-id :
    (p : ℕ) {m : LayerManager} (l : Layer) → Ordered m → deref p m.layers ≡ some l → l.id ≡ p
unfolding deref
deref-id zero l o e = ground (arith, e)
deref-id (suc i) l o e = o.ids i l e

draw_from-redraw :
    (id : ℕ) (area : Rectangle) {m : LayerManager} (l : Layer) (win : Window) (ps : List ℕ)
    → Ordered m
    → deref id m.layers ≡ some l
    → l.window ≡ some win
    → l.id ≡ id
    → ((p : ℕ) → copies p ps ≢ 0 → IsMade p m)
    → find_pos id ps < length ps
    → draw_from id area m.layers none ps
      ≡ redraw (window_area area l win) (drop (find_pos id ps) ps)
unfolding draw_from find_pos
draw_from-redraw id area {m} l win [] o at shown same made h = absurd (omega arith)
draw_from-redraw id area {m} l win (p ∷ ps) o at shown same made h = elim (ℕ_discrete p id) [
  | yes e ↦
      let here : deref p m.layers ≡ some l = ap (λ q. deref q m.layers) e ∙ at in
      let is_first : find_pos id (p ∷ ps) ≡ 0 = ground (arith, e) in
      let its_id : (l.id == id) ≡ true = ground (arith, same) in
      rw (is_first, here, its_id, shown, draw_from)
        (ap (λ calls. layer_to_buffer p (some (window_area area l win)) ∷ calls)
          (draw_from-found id area m.layers (window_area area l win) ps))
  | no ne ↦
      let (u, there, its) = deref-made p o (made p (ground arith)) in
      let is_later : find_pos id (p ∷ ps) ≡ suc (find_pos id ps) = ground (arith, ne) in
      let not_it : (u.id == id) ≡ false = ground (arith, its, ne) in
      rw (is_later, there, not_it, draw_from)
        (draw_from-redraw id area l win ps o at shown same (λ q c. made q (ground (arith, c)))
          (omega (arith, is_later, h)))
]

-- The part that is drawn has the pixels of the window, where the layer stands, that are in the area
-- moved by the layer's position; all of them, when both sizes of the area are negative.
pub record IsPart (area : Rectangle) (l : Layer) (win : Window) (part : Rectangle) : Type 0 where
  pub pixels :
      (p : Vector2D)
      → Contains part p ↔ (
          Contains (record { pos = l.pos; size = win.size }) p
          × (((area.size.x ≤ℤ negsuc 0) × (area.size.y ≤ℤ negsuc 0))
              ⊎ Contains (record { pos = add area.pos l.pos; size = area.size }) p))

window_area-IsPart :
    (area : Rectangle) (l : Layer) (win : Window) → IsPart area l win (window_area area l win)
window_area-IsPart area l win =
    let whole : Rectangle = record { pos = l.pos; size = win.size } in
    let moved : Rectangle = record { pos = add area.pos l.pos; size = area.size } in
    elim (Bool-cases (not (ltb_ℤ area.size.x (pos 0)) || not (ltb_ℤ area.size.y (pos 0)))) [
      | inl asked ↦ rw asked (record {
        pixels = λ p.
            let both = intersect-Contains whole moved p in
            (
              λ c. ((both.0 c).0, inr (both.0 c).1),
              λ c. elim c.1 [
                | inl negative ↦ absurd (ground (arith, asked, negative.0, negative.1))
                | inr within ↦ both.1 (c.0, within)
              ],
            );
      })
      | inr all ↦ rw all (record {
        pixels = λ p. (λ c. (c, inl (ground (arith, all), ground (arith, all))), λ c. c.0);
      })
    ]

-- Drawing a layer that is on the stack and has a window draws it and all that stands above it, in
-- that order, within the part of its window that was asked for, and copies that part to the screen.
-- The area is relative to the layer; with two negative sizes it stands for the whole window.
pub draw_layer-redraw :
    (id : ℕ) (area : Rectangle) {m : LayerManager} (l : Layer) (win : Window)
    → Ordered m
    → IsMade id m
    → deref id m.layers ≡ some l
    → l.window ≡ some win
    → find_pos id m.layer_stack < length m.layer_stack
    → (part : Rectangle) × (draw_layer id area m
        ≡ redraw part (drop (find_pos id m.layer_stack) m.layer_stack))
      × IsPart area l win part
unfolding draw_layer
draw_layer-redraw id area {m} l win o made at shown h = (
  window_area area l win,
  draw_from-redraw id area l win m.layer_stack o at shown (deref-id id l o at) o.exist h,
  window_area-IsPart area l win,
)
