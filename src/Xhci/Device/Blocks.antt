-- ===== src/Xhci/Device/Blocks.antt =====
-- kernel/usb/xhci/device.cpp: the blocks of a control transfer as they stand on the ring.
use uhyok_os.Base.{
  ℕ, ◌+◌, ◌^◌, ◌≤◌, ◌<◌, ◌≡◌, ◌≢◌, refl, sym, ap, ap₂, ◌∙◌, Bool, true, false, ◌==◌, some,
  get_elem?, arith, if◌then◌else◌,
}
use uhyok_os.Usb.Ring.{Trb, Ring, push, with_cycle}
use uhyok_os.Usb.Ring.Pushing.{Ready, push-Pushed}
use uhyok_os.Usb.Descriptor.{SetupData}
use uhyok_os.Xhci.Device.{
  trb_type, make_setup_stage_trb, make_data_stage_trb, status_stage_trb, setup_data_of, pointer,
  transfer_length,
}

-- A block with the ring's cycle bit.
abbrev pub stored : Bool → Trb → Trb
stored cycle trb = record trb { word3 = with_cycle cycle trb.word3 }

-- A block is where it was pushed.
pub push-stored :
    (a : Trb) (r : Ring)
    → Ready r
    → get_elem? (push a r).buf r.write_index ≡ some (stored r.cycle_bit a)
push-stored a r ready = let p = push-Pushed a r ready in p.at ∙ ap some p.form

-- The place after a place of a ring, and that it is another place.
after : ℕ → ℕ → ℕ
after size i = if i + 2 == size then 0 else i + 1

after-differs :
    (size i : ℕ) → 3 ≤ size → i + 1 < size → (i ≢ after size i) × (after size i + 1 < size)
unfolding after
after-differs size i long inside =
    (λ e. ground (arith, e, long, inside), ground (arith, long, inside))

after_two-differs :
    (size i : ℕ)
    → 4 ≤ size
    → i + 1 < size
    → (i ≢ after size (after size i)) × (after size i ≢ after size (after size i))
unfolding after
after_two-differs size i long inside =
    (λ e. ground (arith, e, long, inside), λ e. ground (arith, e, long, inside))

index-push :
    (a : Trb) (r : Ring) → Ready r → (push a r).write_index ≡ after r.buf_size r.write_index
unfolding after
index-push a r ready = (push-Pushed a r ready).index

keeps :
    (a : Trb) (r : Ring) (i : ℕ)
    → Ready r
    → i + 1 < r.buf_size
    → i ≢ r.write_index
    → get_elem? (push a r).buf i ≡ get_elem? r.buf i
keeps a r i ready inside ne = (push-Pushed a r ready).others i inside ne

-- Of two blocks pushed one after the other, the first stays where it is.
pub push-push :
    (a b : Trb) (r : Ring)
    → Ready r
    → 3 ≤ r.buf_size
    → get_elem? (push b (push a r)).buf r.write_index ≡ some (stored r.cycle_bit a)
push-push a b r ready long =
    let p = push-Pushed a r ready in
    let (differs, inside) = after-differs r.buf_size r.write_index long ready.index in
    keeps b (push a r) r.write_index p.ready (omega (arith, p.same.0, ready.index))
      (λ e. differs (e ∙ index-push a r ready))
    ∙ push-stored a r ready

-- Of three, the first two do.
pub push-push-push :
    (a b c : Trb) (r : Ring)
    → Ready r
    → 4 ≤ r.buf_size
    → (get_elem? (push c (push b (push a r))).buf r.write_index ≡ some (stored r.cycle_bit a))
      × (get_elem? (push c (push b (push a r))).buf (push a r).write_index
          ≡ some (stored (push a r).cycle_bit b))
push-push-push a b c r ready long =
    let p = push-Pushed a r ready in
    let q = push-Pushed b (push a r) p.ready in
    let (first, second) = after_two-differs r.buf_size r.write_index long ready.index in
    let at_second : (push b (push a r)).write_index
        ≡ after r.buf_size (after r.buf_size r.write_index) =
      index-push b (push a r) p.ready ∙ ap₂ after p.same.0 (index-push a r ready) in
    (
      keeps c (push b (push a r)) r.write_index q.ready
            (omega (arith, q.same.0, p.same.0, ready.index)) (λ e. first (e ∙ at_second))
          ∙ push-push a b r ready (omega arith),
      keeps c (push b (push a r)) (push a r).write_index q.ready
            (omega (arith, q.same.0, p.ready.index))
            (λ e. second (sym (index-push a r ready) ∙ e ∙ at_second))
          ∙ push-stored b (push a r) p.ready,
    )

-- What is read back of the blocks.
pub record IsRequest (s : SetupData) : Type 0 where
  pub request_type : s.request_type < 2 ^ 8
  pub request : s.request < 2 ^ 8
  pub value : s.value < 2 ^ 16
  pub index : s.index < 2 ^ 16
  pub length : s.length < 2 ^ 16

setup-equal :
    (a b : SetupData)
    → a.request_type ≡ b.request_type
    → a.request ≡ b.request
    → a.value ≡ b.value
    → a.index ≡ b.index
    → a.length ≡ b.length
    → a ≡ b
setup-equal a b t r v i l =
    ap₂ (λ x y. record a { request_type = x; request = y }) t r
    ∙ ap₂ (λ x y. record b { value = x; index = y; length = a.length }) v i
    ∙ ap (λ x. record b { length = x }) l

pub setup_data_of-make_setup_stage_trb :
    (cycle : Bool) (s : SetupData) (t : ℕ)
    → IsRequest s
    → setup_data_of (stored cycle (make_setup_stage_trb s t)) ≡ s
setup_data_of-make_setup_stage_trb cycle s t h =
    setup-equal (setup_data_of (stored cycle (make_setup_stage_trb s t))) s
      (omega (arith, h.request_type, h.request)) (omega (arith, h.request_type, h.request))
      (omega (arith, h.request_type, h.request, h.value)) (omega (arith, h.index))
      (omega (arith, h.index, h.length))

pub trb_type-make_data_stage_trb :
    (cycle : Bool) (buf len : ℕ) (dir_in : Bool)
    → trb_type (stored cycle (make_data_stage_trb buf len dir_in)) ≡ 3
trb_type-make_data_stage_trb true buf len true = refl
trb_type-make_data_stage_trb true buf len false = refl
trb_type-make_data_stage_trb false buf len true = refl
trb_type-make_data_stage_trb false buf len false = refl

pub trb_type-status_stage_trb :
    (cycle : Bool) → trb_type (stored cycle (status_stage_trb true true)) ≡ 4
trb_type-status_stage_trb true = refl
trb_type-status_stage_trb false = refl

pub pointer-make_data_stage_trb :
    (cycle : Bool) (buf len : ℕ) (dir_in : Bool)
    → buf < 2 ^ 64
    → pointer (stored cycle (make_data_stage_trb buf len dir_in)) ≡ buf
pointer-make_data_stage_trb cycle buf len dir_in h = omega arith

pub transfer_length-make_data_stage_trb :
    (cycle : Bool) (buf len : ℕ) (dir_in : Bool)
    → len < 2 ^ 17
    → transfer_length (stored cycle (make_data_stage_trb buf len dir_in)) ≡ len
transfer_length-make_data_stage_trb cycle buf len dir_in h = omega arith
