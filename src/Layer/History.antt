-- ===== src/Layer/History.antt =====
-- kernel/layer.cpp: the layers stay in order through every history of operations.
use uhyok_os.Base.{
  ℕ, zero, suc, ◌+◌, ◌%◌, ◌^◌, ◌<◌, ◌≡◌, refl, ap, sym, ◌∙◌, Bool, List, [], ◌∷◌, ◌++◌, Option,
  some, arith, if◌then◌else◌, length, get_elem?, set, ◌==◌, length-append, length-set,
  get_elem?-set_self, get_elem?-set_ne, ℕ_discrete, Bool-cases, Option-cases, inl, inr,
}
use uhyok_os.Base.Int.{ℤ, pos, negsuc, ◌-ℤ◌}
use uhyok_os.Graphics.{Vector2D}
use uhyok_os.Layer.{Layer, Window, new, move, move_relative, set_window, set_draggable}
use uhyok_os.Layer.Manager.{
  LayerManager, ActiveLayer, init, new_layer, up_down, hide, update, move_by, activate, find_layer,
  deref, get_height, lacks_window,
}
use uhyok_os.Layer.Order.{Ordered, IsMade, init-Ordered, up_down-Raised, hide-Hidden}
use uhyok_os.Layer.Activation.{activate-moves}

-- The operations on a manager, on layers that have been made.
pub data Change : LayerManager → LayerManager → Type 0 where
  makes : {m : LayerManager} → length m.layers + 1 < 2 ^ 32 → Change m (new_layer m).0
  stacks : {m : LayerManager} (id : ℕ) (height : ℤ) → IsMade id m → Change m (up_down id height m)
  hides : {m : LayerManager} (id : ℕ) → IsMade id m → Change m (hide id m)
  moves : {m : LayerManager} (id : ℕ) (to : Vector2D) → Change m (move_by (move to) id m).0
  shifts :
      {m : LayerManager} (id : ℕ) (by : Vector2D) → Change m (move_by (move_relative by) id m).0
  shows :
      {m : LayerManager} (p : ℕ) (window : Option Window)
      → Change m (record m { layers = update p (set_window window) m.layers })
  drags :
      {m : LayerManager} (p : ℕ) (draggable : Bool)
      → Change m (record m { layers = update p (set_draggable draggable) m.layers })
  activates :
      {m : LayerManager} (id : ℕ) (a : ActiveLayer) → IsMade id m → Change m (activate id a m).1

pub data Reachable : LayerManager → Type 0 where
  start : Reachable init
  step : {m m' : LayerManager} → Reachable m → Change m m' → Reachable m'

get_elem?-append_one :
    (ls : List Layer) (l : Layer) (i : ℕ)
    → get_elem? (ls ++ l ∷ []) i ≡ (if i == length ls then some l else get_elem? ls i)
get_elem?-append_one [] l zero = ground arith
get_elem?-append_one [] l (suc i) = ground arith
get_elem?-append_one (x ∷ xs) l zero = ground arith
get_elem?-append_one (x ∷ xs) l (suc i) = ground (arith, get_elem?-append_one xs l i)

new_layer-Ordered :
    {m : LayerManager} → Ordered m → length m.layers + 1 < 2 ^ 32 → Ordered (new_layer m).0
unfolding new_layer
new_layer-Ordered {m} o h = record {
  ids = λ i l e. ground (
    arith,
    o.ids i l,
    o.latest,
    get_elem?-append_one m.layers (new ((m.latest_id + 1) % 2 ^ 32)) i,
    e,
  );
  latest = omega (arith, o.latest, length-append m.layers (new ((m.latest_id + 1) % 2 ^ 32) ∷ []));
  distinct = o.distinct;
  exist = λ p c.
      ground (arith, o.exist p c, length-append m.layers (new ((m.latest_id + 1) % 2 ^ 32) ∷ []));
}

-- A change of a layer that keeps its id.
update-Ordered :
    (p : ℕ) (f : Layer → Layer) {m : LayerManager}
    → ((l : Layer) → (f l).id ≡ l.id)
    → Ordered m
    → Ordered (record m { layers = update p f m.layers })
unfolding update
update-Ordered zero f {m} keeps o = o
update-Ordered (suc k) f {m} keeps o = elim (Option-cases (get_elem? m.layers k)) [
  | inl no_layer ↦ rw (no_layer, update) o
  | inr (u, at) ↦
      rw (at, update)
        (record {
          ids = λ i l e. elim (ℕ_discrete k i) [
            | yes same ↦ rw (sym (set_here u at i l same e)) (keeps u ∙ o.ids k u at ∙ ap suc same)
            | no ne ↦ o.ids i l (sym (get_elem?-set_ne m.layers (f u) ne) ∙ e)
          ];
          latest = o.latest ∙ sym (length-set m.layers k (f u));
          distinct = o.distinct;
          exist = λ p c. rw (length-set m.layers k (f u)) (o.exist p c);
        })
]
  where
    in_range : (i : ℕ) (ls : List Layer) (u : Layer) → get_elem? ls i ≡ some u → i < length ls
    in_range i [] u e = ground (arith, e)
    in_range zero (l ∷ ls) u e = omega arith
    in_range (suc i) (l ∷ ls) u e = omega (arith, in_range i ls u e)

    set_here :
        (u : Layer)
        → get_elem? m.layers k ≡ some u
        → (i : ℕ) (l : Layer) → k ≡ i
        → get_elem? (set m.layers k (f u)) i ≡ some l
        → f u ≡ l
    set_here u at i l same e =
        ground (arith, same, e, get_elem?-set_self m.layers k (f u) (in_range k m.layers u at))

pub move_by-Ordered :
    (f : Layer → Layer) (id : ℕ) {m : LayerManager}
    → ((l : Layer) → (f l).id ≡ l.id)
    → Ordered m
    → Ordered (move_by f id m).0
unfolding move_by
move_by-Ordered f id {m} keeps o = elim (Option-cases (deref (find_layer id m) m.layers)) [
  | inl no_layer ↦ rw (no_layer, move_by) o
  | inr (l, at) ↦ elim (Option-cases l.window) [
    | inl hidden ↦ rw (at, hidden, move_by) o
    | inr (win, shown) ↦ rw (at, shown, move_by) (update-Ordered (find_layer id m) f keeps o)
  ]
]

up_down-Ordered :
    (id : ℕ) (height : ℤ) {m : LayerManager}
    → Ordered m
    → IsMade id m
    → Ordered (up_down id height m)
unfolding up_down
up_down-Ordered id (pos h) o made = (up_down-Raised id h o made).ordered
up_down-Ordered id (negsuc h) o made = (hide-Hidden id o made).ordered

pub activate-Ordered :
    (id : ℕ) (a : ActiveLayer) {m : LayerManager}
    → Ordered m
    → IsMade id m
    → Ordered (activate id a m).1
unfolding activate
activate-Ordered id a {m} o made = elim (ℕ_discrete a.active_layer id) [
  | yes e ↦ let same : (activate id a m).1 ≡ m = ground (arith, e) in rw same o
  | no ne ↦ elim (Bool-cases (lacks_window a.active_layer m)) [
    | inl lost ↦ let same : (activate id a m).1 ≡ m = ground (arith, ne, lost) in rw same o
    | inr old ↦ elim (Bool-cases (lacks_window id m)) [
      | inl lost ↦
          let same : (activate id a m).1 ≡ m = ground (arith, ne, old, lost, made.0) in rw same o
      | inr its ↦
          let moved : (activate id a m).1 ≡ up_down id (get_height a.mouse_layer m -ℤ pos 1) m =
            (activate-moves id a m ne made.0 (record { old = old; its = its })).1 in
          rw moved (up_down-Ordered id (get_height a.mouse_layer m -ℤ pos 1) o made)
    ]
  ]
]

Change-Ordered : {m m' : LayerManager} → Change m m' → Ordered m → Ordered m'
Change-Ordered (makes h) o = new_layer-Ordered o h
Change-Ordered (stacks id height made) o = up_down-Ordered id height o made
Change-Ordered (hides id made) o = (hide-Hidden id o made).ordered
Change-Ordered (moves id to) o = move_by-Ordered (move to) id (λ l. refl) o
Change-Ordered (shifts id by) o = move_by-Ordered (move_relative by) id (λ l. refl) o
Change-Ordered (shows p window) o = update-Ordered p (set_window window) (λ l. refl) o
Change-Ordered (drags p draggable) o = update-Ordered p (set_draggable draggable) (λ l. refl) o
Change-Ordered (activates id a made) o = activate-Ordered id a o made

-- Through every history of making, stacking, hiding, moving, showing, dragging and activating
-- layers, fewer than 2^32 of them, each layer keeps the id it was made with, and the stack holds
-- layers that exist, none of them twice.
pub Reachable-Ordered : {m : LayerManager} → Reachable m → Ordered m
Reachable-Ordered start = init-Ordered
Reachable-Ordered (step r c) = Change-Ordered c (Reachable-Ordered r)
