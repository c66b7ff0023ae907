-- ===== src/Layer/Activation.antt =====
-- kernel/layer.cpp: where `ActiveLayer::Activate` puts a layer, and what the mouse hits.
use uhyok_os.Base.{
  ℕ, suc, ◌≤◌, ◌<◌, ◌≡◌, ◌≢◌, refl, ap, ◌∙◌, Bool, true, false, List, [], ◌∷◌, ◌==◌, arith, All,
  length, Bool-cases, Option-cases, some, ◌↔◌, inl, inr, ℕ_discrete,
}
use uhyok_os.Base.Int.{pos, ◌-ℤ◌, ◌+ℤ◌, ◌≤ℤ◌, +ℤ_parts}
use uhyok_os.Graphics.{Vector2D}
use uhyok_os.Layer.{Layer, Window}
use uhyok_os.Layer.Stack.{
  find_pos, erase_at, insert_at, copies, without, erase_at-find_pos, find_pos-insert_below,
  find_pos-without, find_pos-le,
}
use uhyok_os.Layer.Manager.{
  LayerManager, ActiveLayer, activate, up_down, get_height, restack, find_last, is_hit, is_hit_at,
  lacks_window, deref, find_layer_by_position,
}
use uhyok_os.Layer.Order.{
  Ordered, IsMade, Raised, up_down-Raised, get_height-made, layer_stack-up_down,
}

-- The layer is active and right below the mouse, which stays where it was; the others keep their
-- order.
pub record Activated (id mouse height : ℕ) (m m' : LayerManager) (a' : ActiveLayer) : Type 0 where
  pub active : a'.active_layer ≡ id
  pub below : get_height id m' ≡ pos height
  pub mouse_height : get_height mouse m' ≡ pos (suc height)
  pub others : without id m'.layer_stack ≡ without id m.layer_stack
  pub ordered : Ordered m'

-- Moving a layer up to the place below another one leaves that one in place.
find_pos-restack :
    (p q height : ℕ) (stack : List ℕ)
    → copies p stack ≤ 1
    → p ≢ q
    → find_pos q stack ≡ suc height
    → find_pos p stack < suc height
    → find_pos q (restack p height stack) ≡ suc height
unfolding restack
find_pos-restack p q height stack once ne at lower =
    let rest = erase_at (find_pos p stack) stack in
    let found = find_pos-le q stack in
    let is_moved : restack p height stack ≡ insert_at height p rest = ground (arith, at, lower) in
    let left : find_pos q rest ≡ height =
      ap (find_pos q) (erase_at-find_pos p stack once)
      ∙ omega (arith, find_pos-without p q stack ne (omega (arith, at, lower)) once, at) in
    rw is_moved (find_pos-insert_below height p q rest ne (omega (arith, left)) ∙ ap suc left)

-- The layer that is activated, and the one that was active, if any, have windows.
pub record HasWindows (id : ℕ) (a : ActiveLayer) (m : LayerManager) : Type 0 where
  pub old : lacks_window a.active_layer m ≡ false
  pub its : lacks_window id m ≡ false

pub activate-moves :
    (id : ℕ) (a : ActiveLayer) (m : LayerManager)
    → a.active_layer ≢ id
    → 1 ≤ id
    → HasWindows id a m
    → ((activate id a m).0.active_layer ≡ id)
      × ((activate id a m).1 ≡ up_down id (get_height a.mouse_layer m -ℤ pos 1) m)
unfolding activate
activate-moves id a m new made windows =
    let other : (a.active_layer == id) ≡ false = ground (arith, new) in
    let some_layer : (id == 0) ≡ false = ground arith in
    let old : lacks_window a.active_layer m ≡ false = windows.old in
    let its : lacks_window id m ≡ false = windows.its in
    (
      rw (other, old, some_layer, its, activate) refl,
      rw (other, old, some_layer, its, activate) refl,
    )

-- `Activate` on a layer that is not the active one and stands below the mouse, which is on the stack,
-- makes it active and brings it to the place right below the mouse, and keeps the order of the
-- others. The layer has a window, and so has the layer that was active, if there was one.
pub activate-Activated :
    (id height : ℕ) (a : ActiveLayer) {m : LayerManager}
    → Ordered m
    → a.active_layer ≢ id
    → HasWindows id a m
    → IsMade id m
    → IsMade a.mouse_layer m
    → id ≢ a.mouse_layer
    → find_pos a.mouse_layer m.layer_stack ≡ suc height
    → suc height < length m.layer_stack
    → find_pos id m.layer_stack < suc height
    → Activated id a.mouse_layer height m (activate id a m).1 (activate id a m).0
unfolding ◌-ℤ◌
activate-Activated id height a {m} o new windows made mouse_made ne at on_it lower =
    let mouse = a.mouse_layer in
    let m' = up_down id (pos height) m in
    let before : get_height mouse m ≡ pos (suc height) =
      get_height-made mouse o ∙ ground (arith, at, on_it) in
    let r : Raised id height m m' = up_down-Raised id height o made in
    let wanted : (get_height mouse m -ℤ pos 1) ≡ pos height =
      ap (λ z. z -ℤ pos 1) before ∙ ground arith in
    let moved : up_down id (get_height mouse m -ℤ pos 1) m ≡ m' = ap (λ z. up_down id z m) wanted in
    let (active, stack) = activate-moves id a m new made.0 windows in
    let mouse_at : find_pos mouse m'.layer_stack ≡ suc height =
      ap (find_pos mouse) (layer_stack-up_down id height o made (omega arith))
      ∙ find_pos-restack id mouse height m.layer_stack (o.distinct id) ne at lower in
    rw (stack ∙ moved) (record {
      active = active;
      below = r.height ∙ ground (arith, r.grows);
      mouse_height = get_height-made mouse r.ordered ∙ ground (arith, mouse_at, r.grows);
      others = r.others;
      ordered = r.ordered;
    })

-- The layer is not the excluded one, and its window covers the position: from its upper left corner,
-- inclusive, to its lower right one, exclusive.
pub record Covers (at : Vector2D) (exclude_id : ℕ) (layer : Layer) : Type 0 where
  pub included : layer.id ≢ exclude_id
  pub win : Window
  pub shown : layer.window ≡ some win
  pub left : layer.pos.x ≤ℤ at.x
  pub right : at.x +ℤ pos 1 ≤ℤ layer.pos.x +ℤ win.size.x
  pub top : layer.pos.y ≤ℤ at.y
  pub bottom : at.y +ℤ pos 1 ≤ℤ layer.pos.y +ℤ win.size.y

pub record CoversAt (at : Vector2D) (exclude_id : ℕ) (layers : List Layer) (p : ℕ) : Type 0 where
  pub layer : Layer
  pub there : deref p layers ≡ some layer
  pub covers : Covers at exclude_id layer

is_hit-Covers :
    (at : Vector2D) (exclude_id : ℕ) (layer : Layer)
    → is_hit at exclude_id layer ≡ true
    → Covers at exclude_id layer
is_hit-Covers at exclude_id layer e = elim (Option-cases layer.window) [
  | inl hidden ↦ absurd (ground (arith, e, hidden))
  | inr (win, shown) ↦ record {
    included = λ same. absurd (ground (arith, e, same));
    win = win;
    shown = shown;
    left = ground (arith, e, shown);
    right = ground (arith, e, shown, +ℤ_parts at.x (pos 1));
    top = ground (arith, e, shown);
    bottom = ground (arith, e, shown, +ℤ_parts at.y (pos 1));
  }
]

Covers-is_hit :
    (at : Vector2D) (exclude_id : ℕ) (layer : Layer)
    → Covers at exclude_id layer
    → is_hit at exclude_id layer ≡ true
Covers-is_hit at exclude_id layer c = ground (
  arith,
  c.included,
  c.shown,
  c.left,
  c.right,
  c.top,
  c.bottom,
  +ℤ_parts at.x (pos 1),
  +ℤ_parts at.y (pos 1),
)

is_hit_at-CoversAt :
    (at : Vector2D) (exclude_id : ℕ) (layers : List Layer) (p : ℕ)
    → (is_hit_at at exclude_id layers p ≡ true) ↔ CoversAt at exclude_id layers p
is_hit_at-CoversAt at exclude_id layers p = (
  λ e. elim (Option-cases (deref p layers)) [
    | inl nothing ↦ absurd (ground (arith, e, nothing))
    | inr (l, there) ↦ record {
      layer = l;
      there = there;
      covers = is_hit-Covers at exclude_id l (ground (arith, e, there));
    }
  ],
  λ c. ground (arith, c.there, Covers-is_hit at exclude_id c.layer c.covers),
)

-- The last element with a property: the others above it do not have it. It is 0 when none has it.
pub data Topmost (P : ℕ → Type 0) : List ℕ → ℕ → Type 0 where
  nowhere : {ps : List ℕ} → All (λ p. ¬ P p) ps → Topmost P ps 0
  hit : {ps : List ℕ} (p : ℕ) → P p → All (λ q. ¬ P q) ps → Topmost P (p ∷ ps) p
  higher : {ps : List ℕ} {q : ℕ} (p : ℕ) → q ≢ 0 → Topmost P ps q → Topmost P (p ∷ ps) q

Topmost-nowhere :
    {P : ℕ → Type 0} {ps : List ℕ} {q : ℕ}
    → q ≡ 0
    → All (λ p. 1 ≤ p) ps
    → Topmost P ps q
    → All (λ p. ¬ P p) ps
Topmost-nowhere z h (nowhere a) = a
Topmost-nowhere z h (hit p t a) = absurd (omega (arith, z, h.0))
Topmost-nowhere z h (higher p ne t) = absurd (ne z)

find_last-Topmost :
    (test : ℕ → Bool) (P : ℕ → Type 0) (ps : List ℕ)
    → ((p : ℕ) → (test p ≡ true) ↔ P p)
    → All (λ p. 1 ≤ p) ps
    → Topmost P ps (find_last test ps)
unfolding find_last
find_last-Topmost test P [] same h = nowhere tt
find_last-Topmost test P (p ∷ ps) same h =
    let above = find_last-Topmost test P ps same h.1 in
    elim (ℕ_discrete (find_last test ps) 0) [
      | yes z ↦
          let missed = Topmost-nowhere z h.1 above in
          elim (Bool-cases (test p)) [
            | inl t ↦
                let here : find_last test (p ∷ ps) ≡ p = ground (arith, z, t) in
                rw here (hit p ((same p).0 t) missed)
            | inr f ↦
                let none_here : find_last test (p ∷ ps) ≡ 0 = ground (arith, z, f) in
                rw none_here (nowhere ((λ c. absurd (ground (arith, f, (same p).1 c))), missed))
          ]
      | no ne ↦
          let up : find_last test (p ∷ ps) ≡ find_last test ps = ground (arith, ne) in
          rw up (higher p ne above)
    ]

-- The pointers of a stack that is in order are not null.
exist-All : (ps : List ℕ) → ((p : ℕ) → copies p ps ≢ 0 → 1 ≤ p) → All (λ p. 1 ≤ p) ps
exist-All [] h = tt
exist-All (p ∷ ps) h = (h p (ground arith), exist-All ps (λ q c. h q (ground (arith, c))))

-- The layer that is found at a position is the highest on the stack that has a window which covers
-- the position and is not the excluded one; it is null exactly when there is none. A window covers
-- its left and upper edges and not its right and lower ones.
pub find_layer_by_position-Topmost :
    (at : Vector2D) (exclude_id : ℕ) {m : LayerManager}
    → Ordered m
    → Topmost
        (CoversAt at exclude_id m.layers)
        m.layer_stack
        (find_layer_by_position at exclude_id m)
unfolding find_layer_by_position
find_layer_by_position-Topmost at exclude_id {m} o =
    find_last-Topmost (is_hit_at at exclude_id m.layers) (CoversAt at exclude_id m.layers)
      m.layer_stack (is_hit_at-CoversAt at exclude_id m.layers)
      (exist-All m.layer_stack (λ p c. (o.exist p c).0))
