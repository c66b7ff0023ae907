-- ===== src/Layer/Order.antt =====
-- kernel/layer.cpp: the stacking order after `NewLayer`, `UpDown` and `Hide`.
use uhyok_os.Base.{
  ℕ, zero, suc, ◌+◌, ◌-◌, ◌≤◌, ◌<◌, ◌≡◌, ◌≢◌, refl, ap, sym, ◌∙◌, true, false, List, [], ◌∷◌, some,
  ◌==◌, ltb, arith, if◌then◌else◌, length, get_elem?, min, leb, ◌&&◌, ℕ_discrete,
}
use uhyok_os.Base.Int.{ℤ, pos, negsuc}
use uhyok_os.Layer.{Layer}
use uhyok_os.Layer.Stack.{
  find_pos, erase_at, insert_at, copies, without, find_pos-le, find_pos-none, find_pos-absent,
  length-erase_at, length-insert_at, copies-insert_at, erase_at-find_pos, copies-without,
  without-insert_at, without-without, find_pos-insert_at, without-absent,
}
use uhyok_os.Layer.Manager.{
  LayerManager, init, deref, search_layer, find_layer, hide, restack, up_down, has_id,
  search_height, get_height,
}

-- The i-th layer made has the id i + 1, and the stack holds layers that exist, none of them twice.
pub record Ordered (m : LayerManager) : Type 0 where
  pub ids : (i : ℕ) (l : Layer) → get_elem? m.layers i ≡ some l → l.id ≡ suc i
  pub latest : m.latest_id ≡ length m.layers
  pub distinct : (p : ℕ) → copies p m.layer_stack ≤ 1
  pub exist : (p : ℕ) → copies p m.layer_stack ≢ 0 → (1 ≤ p) × (p ≤ length m.layers)

-- A layer that has been made.
abbrev pub IsMade : ℕ → LayerManager → Type 0
IsMade id m = (1 ≤ id) × (id ≤ length m.layers)

-- Where a layer stands on the stack, in whatever units `GetHeight` counts.
abbrev pub height_of : ℕ → List ℕ → ℤ
height_of p stack = if find_pos p stack == length stack then negsuc 0 else pos (find_pos p stack)

search_layer-found :
    (id p : ℕ) (ls : List Layer)
    → ((i : ℕ) (l : Layer) → get_elem? ls i ≡ some l → l.id ≡ i + p)
    → search_layer id p ls ≡ (if leb p id && ltb id (length ls + p) then id else 0)
unfolding search_layer
search_layer-found id p [] ids = ground arith
search_layer-found id p (l ∷ ls) ids =
    ground (
      arith,
      ids 0 l refl,
      search_layer-found id (suc p) ls (λ i u e. ids (suc i) u e ∙ omega arith),
    )

-- With these ids the pointer found is the id itself.
pub find_layer-made : (id : ℕ) {m : LayerManager} → Ordered m → IsMade id m → find_layer id m ≡ id
unfolding find_layer
find_layer-made id {m} o made =
    search_layer-found id 1 m.layers (λ i l e. o.ids i l e ∙ omega arith) ∙ ground (arith, made)

pub get_elem?-in_range :
    (layers : List Layer) (i : ℕ) → i < length layers → (l : Layer) × (get_elem? layers i ≡ some l)
get_elem?-in_range [] i h = absurd (omega arith)
get_elem?-in_range (l ∷ ls) zero h = (l, refl)
get_elem?-in_range (l ∷ ls) (suc i) h = get_elem?-in_range ls i (omega arith)

has_id-made :
    (id p : ℕ) {m : LayerManager} → Ordered m → IsMade p m → has_id id p m.layers ≡ (p == id)
unfolding has_id deref
has_id-made id zero {m} o made = absurd (omega (arith, made.0))
has_id-made id (suc i) {m} o made =
    let (l, at) = get_elem?-in_range m.layers i (omega (arith, made.1)) in
    rw (at, has_id, deref) (ap (λ n. n == id) (o.ids i l at))

search_height-found :
    (id : ℕ) {m : LayerManager} (h : ℕ) (ps : List ℕ)
    → Ordered m
    → ((p : ℕ) → copies p ps ≢ 0 → IsMade p m)
    → search_height id m.layers h ps
      ≡ (if find_pos id ps == length ps then negsuc 0 else pos (h + find_pos id ps))
unfolding search_height find_pos
search_height-found id {m} h [] o e = refl
search_height-found id {m} h (p ∷ ps) o e =
    let here = has_id-made id p {m = m} o (e p (ground arith)) in
    ground
      (arith, here, search_height-found id {m = m} (suc h) ps o (λ q c. e q (ground (arith, c))))

-- `GetHeight` is the position on the stack, and -1 for a layer that is not on it.
pub get_height-made :
    (id : ℕ) {m : LayerManager} → Ordered m → get_height id m ≡ height_of id m.layer_stack
unfolding get_height
get_height-made id {m} o = search_height-found id {m = m} 0 m.layer_stack o o.exist ∙ ground arith

pub init-Ordered : Ordered init
unfolding init
init-Ordered = record {
  ids = λ i l e. ground (arith, e);
  latest = refl;
  distinct = λ p. omega arith;
  exist = λ p c. absurd (c refl);
}

-- `restack` changes nothing but the place of one layer.
record Restacked (p new_pos : ℕ) (stack stack' : List ℕ) : Type 0 where
  pub place : find_pos p stack' ≡ min new_pos (length stack' - 1)
  pub others : without p stack' ≡ without p stack
  pub on_it : copies p stack' ≡ 1
  pub size : length stack' ≤ suc (length stack)
  pub grows : length stack ≤ length stack'

restack-Restacked :
    (p new_pos : ℕ) (stack : List ℕ)
    → copies p stack ≤ 1
    → new_pos ≤ length stack
    → Restacked p new_pos stack (restack p new_pos stack)
unfolding restack
restack-Restacked p new_pos stack once h = elim (ℕ_discrete (find_pos p stack) (length stack)) [
  | yes e ↦
      let is_new : restack p new_pos stack ≡ insert_at new_pos p stack = ground (arith, e) in
      let absent = find_pos-none p stack e in
      rw is_new (record {
        place =
            find_pos-insert_at new_pos p stack absent h
            ∙ omega (arith, length-insert_at new_pos p stack);
        others = without-insert_at new_pos p stack;
        on_it = copies-insert_at new_pos p p stack ∙ ground (arith, absent);
        size = omega (arith, length-insert_at new_pos p stack);
        grows = omega (arith, length-insert_at new_pos p stack);
      })
  | no ne ↦
      let rest = erase_at (find_pos p stack) stack in
      let at = if new_pos == length stack then new_pos - 1 else new_pos in
      let is_moved : restack p new_pos stack ≡ insert_at at p rest = ground (arith, ne) in
      let shorter : suc (length rest) ≡ length stack =
        length-erase_at (find_pos p stack) stack (omega (arith, ne, find_pos-le p stack)) in
      let rest_is : rest ≡ without p stack = erase_at-find_pos p stack once in
      let absent : copies p rest ≡ 0 =
        ap (copies p) rest_is ∙ copies-without p p stack ∙ ground arith in
      let within : at ≤ length rest = ground (arith, shorter, h) in
      rw is_moved (record {
        place =
            find_pos-insert_at at p rest absent within
            ∙ ground (arith, length-insert_at at p rest, shorter, h);
        others = without-insert_at at p rest ∙ ap (without p) rest_is ∙ without-without p stack;
        on_it = copies-insert_at at p p rest ∙ ground (arith, absent);
        size = omega (arith, length-insert_at at p rest, shorter);
        grows = omega (arith, length-insert_at at p rest, shorter);
      })
]

-- A change of the place of one layer keeps the stack in order.
Restacked-Ordered :
    (p : ℕ) {m : LayerManager} (stack' : List ℕ)
    → Ordered m
    → IsMade p m
    → without p stack' ≡ without p m.layer_stack
    → copies p stack' ≤ 1
    → Ordered (record m { layer_stack = stack' })
Restacked-Ordered p {m} stack' o made same once = record {
  ids = o.ids;
  latest = o.latest;
  distinct = λ q. ground (arith, copy q, once, o.distinct q);
  exist = λ q c. elim (ℕ_discrete p q) [
    | yes e ↦ rw (sym e) made
    | no ne ↦ o.exist q (λ z. c (copy q ∙ ground (arith, ne, z)))
  ];
}
  where
    copy : (q : ℕ) → copies q stack' ≡ (if p == q then copies p stack' else copies q m.layer_stack)
    copy q =
        ground
          (arith, copies-without p q stack', copies-without p q m.layer_stack, ap (copies q) same)

-- What `UpDown` to a height has done.
pub record Raised (id h : ℕ) (m m' : LayerManager) : Type 0 where
  pub layers : m'.layers ≡ m.layers
  pub height : get_height id m' ≡ pos (min h (length m'.layer_stack - 1))
  pub others : without id m'.layer_stack ≡ without id m.layer_stack
  pub grows : length m.layer_stack ≤ length m'.layer_stack
  pub ordered : Ordered m'

-- The stack of `UpDown`, with the layer's pointer found.
pub layer_stack-up_down :
    (id h : ℕ) {m : LayerManager}
    → Ordered m
    → IsMade id m
    → h ≤ length m.layer_stack
    → (up_down id (pos h) m).layer_stack ≡ restack id h m.layer_stack
unfolding up_down
layer_stack-up_down id h {m} o made within =
    let cut : (if ltb (length m.layer_stack) h then length m.layer_stack else h) ≡ h =
      ground (arith, within) in
    rw (find_layer-made id o made, cut, up_down) refl

-- `UpDown` puts a layer at the height asked for, or on top when the stack is not that high, whether
-- it was on the stack or not. The other layers keep their order, and the stack stays well formed.
pub up_down-Raised :
    (id h : ℕ) {m : LayerManager} → Ordered m → IsMade id m → Raised id h m (up_down id (pos h) m)
unfolding up_down
up_down-Raised id h {m} o made =
    let n = length m.layer_stack in
    let new_height = if ltb n h then n else h in
    let stack' = restack id new_height m.layer_stack in
    let r : Restacked id new_height m.layer_stack stack' =
      restack-Restacked id new_height m.layer_stack (o.distinct id) (ground arith) in
    let o' : Ordered (record m { layer_stack = stack' }) =
      Restacked-Ordered id {m = m} stack' o made r.others (omega (arith, r.on_it)) in
    let seen : find_pos id stack' ≢ length stack' =
      λ e. absurd (omega (arith, find_pos-none id stack' e, r.on_it)) in
    let found : up_down id (pos h) m ≡ record m { layer_stack = stack' } =
      ap (λ p. record m { layer_stack = restack p new_height m.layer_stack })
        (find_layer-made id o made) in
    rw found (record {
      layers = refl;
      height = get_height-made id o' ∙ ground (arith, r.place, seen, r.size);
      others = r.others;
      grows = r.grows;
      ordered = o';
    })

-- What `Hide`, or `UpDown` below 0, has done.
pub record Hidden (id : ℕ) (m m' : LayerManager) : Type 0 where
  pub layers : m'.layers ≡ m.layers
  pub height : get_height id m' ≡ negsuc 0
  pub others : m'.layer_stack ≡ without id m.layer_stack
  pub ordered : Ordered m'

hide-without :
    (id : ℕ) {m : LayerManager}
    → Ordered m
    → IsMade id m
    → hide id m ≡ record m { layer_stack = without id m.layer_stack }
unfolding hide
hide-without id {m} o made =
    rw (find_layer-made id o made, hide)
      (elim (ℕ_discrete (find_pos id m.layer_stack) (length m.layer_stack)) [
        | yes e ↦
            let absent = find_pos-none id m.layer_stack e in
            let at_end : (find_pos id m.layer_stack == length m.layer_stack) ≡ true =
              ground (arith, e) in
            rw at_end (
              ap (λ s. record m { layer_stack = s }) (sym (without-absent id m.layer_stack absent)))
        | no ne ↦
            let inside : (find_pos id m.layer_stack == length m.layer_stack) ≡ false =
              ground (arith, ne) in
            rw inside (
              ap (λ s. record m { layer_stack = s })
                (erase_at-find_pos id m.layer_stack (o.distinct id)))
      ])

-- `Hide` takes a layer off the stack, if it was there, and leaves the others in their order.
pub hide-Hidden : (id : ℕ) {m : LayerManager} → Ordered m → IsMade id m → Hidden id m (hide id m)
unfolding hide
hide-Hidden id {m} o made =
    let rest = without id m.layer_stack in
    let gone : copies id rest ≡ 0 = copies-without id id m.layer_stack ∙ ground arith in
    let o' : Ordered (record m { layer_stack = rest }) =
      Restacked-Ordered id {m = m} rest o made (without-without id m.layer_stack)
        (omega (arith, gone)) in
    let is_rest : hide id m ≡ record m { layer_stack = rest } = hide-without id o made in
    rw is_rest (record {
      layers = refl;
      height = get_height-made id o' ∙ ground (arith, find_pos-absent id rest gone);
      others = refl;
      ordered = o';
    })
