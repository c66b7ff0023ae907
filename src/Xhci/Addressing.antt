-- ===== src/Xhci/Addressing.antt =====
-- kernel/usb/xhci/xhci.cpp: one port at a time is between its reset and its address.
use uhyok_os.Base.{
  ℕ, zero, suc, ◌⊎◌, ◌-◌, ◌≤◌, ◌≡◌, ◌≢◌, refl, ap, sym, ◌∙◌, Bool, true, false, not, ◌&&◌, some,
  ◌==◌, leb, arith, Bool-cases, Option-cases, inl, inr, ℕ_discrete,
}
use uhyok_os.Errors.{is_error}
use uhyok_os.Xhci.{
  ConfigPhase, not_connected, waiting_addressed, resetting_port, phase_value, same_phase,
  Controller, Hardware,
}
use uhyok_os.Xhci.Ports.{
  set_phase, finds_by_slot, alloc_device, reset_port_of, first_waiting, start_waiting,
}

-- `kResettingPort`, `kEnablingSlot` and `kAddressingDevice`.
abbrev pub is_addressing : ConfigPhase → Bool
is_addressing phase = leb 2 (phase_value phase) && leb (phase_value phase) 4

-- `addressing_port` is the one port that is being addressed, and 0 when there is none. Ports are
-- numbered from 1.
pub record Exclusive (c : Controller) : Type 0 where
  pub current : c.addressing_port ≢ 0 → is_addressing (c.port_config_phase c.addressing_port) ≡ true
  pub others : (p : ℕ) → p ≢ c.addressing_port → is_addressing (c.port_config_phase p) ≡ false
  pub no_port : phase_value (c.port_config_phase 0) ≡ 0

-- The same but for one port, which has its address and is not the current one any more.
pub record HandedOver (port : ℕ) (c : Controller) : Type 0 where
  pub current : c.addressing_port ≢ 0 → is_addressing (c.port_config_phase c.addressing_port) ≡ true
  pub others :
      (p : ℕ) → p ≢ c.addressing_port → p ≢ port → is_addressing (c.port_config_phase p) ≡ false
  pub no_port : phase_value (c.port_config_phase 0) ≡ 0
  pub apart : port ≢ c.addressing_port
  pub is_port : 1 ≤ port

-- A port that is not the current one changes to a phase outside of the addressing.
pub set_phase-Exclusive :
    (port : ℕ) (phase : ConfigPhase) {c : Controller}
    → Exclusive c
    → 1 ≤ port
    → port ≢ c.addressing_port
    → is_addressing phase ≡ false
    → Exclusive (set_phase port phase c)
set_phase-Exclusive port phase {c} x is_port ne out = record {
  current = λ n. ground (arith, x.current n, ne);
  others = λ p h. ground (arith, x.others p h, out);
  no_port = ground (arith, x.no_port);
}

-- The current port changes to another phase of the addressing.
pub advance-Exclusive :
    (port : ℕ) (phase : ConfigPhase) {c : Controller}
    → Exclusive c
    → 1 ≤ port
    → port ≡ c.addressing_port
    → is_addressing phase ≡ true
    → Exclusive (set_phase port phase c)
advance-Exclusive port phase {c} x is_port e within = record {
  current = λ n. ground (arith, e, within);
  others = λ p h. ground (arith, x.others p h, e, h);
  no_port = ground (arith, x.no_port);
}

-- What `ResetPort` leaves: nothing changed, or the port waiting, or the port current.
ResetTo : ℕ → Controller → Controller → Type 0
ResetTo port c c' =
    (c' ≡ c)
    ⊎ (((c' ≡ set_phase port waiting_addressed c) × (c.addressing_port ≢ 0))
        ⊎ ((c' ≡ set_phase port resetting_port (record c { addressing_port = port }))
            × (c.addressing_port ≡ 0)))

reset_port_of-ResetTo :
    (hw : Hardware) (port : ℕ) (c : Controller)
    → ResetTo port c (reset_port_of hw port c).controller
unfolding reset_port_of ResetTo
reset_port_of-ResetTo hw port c = elim (Bool-cases (hw.is_connected port)) [
  | inr off ↦ rw (off, reset_port_of) (inl refl)
  | inl on ↦ elim (ℕ_discrete c.addressing_port 0) [
    | no busy ↦
        let taken : (c.addressing_port == 0) ≡ false = ground (arith, busy) in
        rw (on, taken, reset_port_of) (inr (inl (refl, busy)))
    | yes idle ↦
        let free : (c.addressing_port == 0) ≡ true = ground (arith, idle) in
        let phase = c.port_config_phase port in
        elim (Bool-cases
          (not (same_phase phase not_connected) && not (same_phase phase waiting_addressed))) [
            | inl wrong ↦ rw (on, free, wrong, reset_port_of) (inl refl)
            | inr right ↦ rw (on, free, right, reset_port_of) (inr (inr (refl, idle)))
          ]
  ]
]

-- The new current port is the one that is reset.
begin-Exclusive :
    (port : ℕ) {c : Controller}
    → Exclusive c
    → 1 ≤ port
    → c.addressing_port ≡ 0
    → Exclusive (set_phase port resetting_port (record c { addressing_port = port }))
begin-Exclusive port {c} x is_port idle = record {
  current = λ n. ground arith;
  others = λ p h. elim (ℕ_discrete p 0) [
    | yes z ↦ ground (arith, x.no_port, z, is_port)
    | no nz ↦ ground (arith, x.others p, idle, h, nz)
  ];
  no_port = ground (arith, x.no_port, is_port);
}

pub reset_port_of-Exclusive :
    (hw : Hardware) (port : ℕ) {c : Controller}
    → Exclusive c
    → 1 ≤ port
    → is_addressing (c.port_config_phase port) ≡ false
    → Exclusive (reset_port_of hw port c).controller
unfolding ResetTo
reset_port_of-Exclusive hw port {c} x is_port out = elim (reset_port_of-ResetTo hw port c) [
  | inl e ↦ rw e x
  | inr (inl (e, busy)) ↦ rw e (
      set_phase-Exclusive port waiting_addressed x is_port
        (λ same. absurd (ground (arith, x.current busy, out, ap c.port_config_phase same))) refl)
  | inr (inr (e, idle)) ↦ rw e (begin-Exclusive port x is_port idle)
]

reset_port_of-HandedOver :
    (hw : Hardware) (done port : ℕ) {c : Controller}
    → HandedOver done c
    → 1 ≤ port
    → port ≢ done
    → is_addressing (c.port_config_phase port) ≡ false
    → HandedOver done (reset_port_of hw port c).controller
unfolding ResetTo
reset_port_of-HandedOver hw done port {c} x is_port ne out =
    elim (reset_port_of-ResetTo hw port c) [
      | inl e ↦ rw e x
      | inr (inl (e, busy)) ↦ rw e (record {
        current = λ n. ground (arith, x.current n, out, is_port);
        others = λ p h k. ground (arith, x.others p h k);
        no_port = ground (arith, x.no_port, is_port);
        apart = x.apart;
        is_port = x.is_port;
      })
      | inr (inr (e, idle)) ↦ rw e (record {
        current = λ n. ground arith;
        others = λ p h k. elim (ℕ_discrete p 0) [
          | yes z ↦ ground (arith, x.no_port, z, is_port)
          | no nz ↦ ground (arith, x.others p, idle, h, k, nz)
        ];
        no_port = ground (arith, x.no_port, is_port);
        apart = λ same. ne (sym same);
        is_port = x.is_port;
      })
    ]

-- A port that waits is reset, or left waiting, with no error.
reset_port_of-waiting :
    (hw : Hardware) (port : ℕ) (c : Controller)
    → same_phase (c.port_config_phase port) waiting_addressed ≡ true
    → is_error (reset_port_of hw port c).code ≡ false
unfolding reset_port_of
reset_port_of-waiting hw port c w = ground (arith, w)

pub first_waiting-waits :
    (n : ℕ) (c : Controller) (port : ℕ)
    → first_waiting n c ≡ some port
    → same_phase (c.port_config_phase port) waiting_addressed ≡ true
unfolding first_waiting
first_waiting-waits zero c port e = ground (arith, e)
first_waiting-waits (suc n) c port e =
    elim (Bool-cases (same_phase (c.port_config_phase (255 - n)) waiting_addressed)) [
      | inl w ↦
          let it : some (255 - n) ≡ some port = sym (rw (w, first_waiting) refl) ∙ e in
          ground (arith, w, it)
      | inr other ↦ first_waiting-waits n c port (sym (rw (other, first_waiting) refl) ∙ e)
    ]

-- The port that is done and the one that takes its place are different ports.
pub start_waiting-HandedOver :
    (hw : Hardware) (done : ℕ) {c : Controller}
    → HandedOver done c
    → is_addressing (c.port_config_phase done) ≡ true
    → HandedOver done (start_waiting hw c).controller × (is_error (start_waiting hw c).code ≡ false)
unfolding start_waiting
start_waiting-HandedOver hw done {c} x busy = elim (Option-cases (first_waiting 256 c)) [
  | inl nobody ↦ rw (nobody, start_waiting) (x, refl)
  | inr (port, e) ↦
      let w = first_waiting-waits 256 c port e in
      let is_port : port ≢ 0 =
        λ z. absurd (ground (arith, w, x.no_port, ap c.port_config_phase z)) in
      let ne : port ≢ done = λ z. absurd (ground (arith, w, busy, ap c.port_config_phase z)) in
      rw (e, start_waiting)
        (
          reset_port_of-HandedOver hw done port x (omega (arith, is_port)) ne (ground (arith, w)),
          reset_port_of-waiting hw port c w,
        )
]

-- The handover ends when the port that is done is initialized.
pub set_phase-HandedOver :
    (port : ℕ) (phase : ConfigPhase) {c : Controller}
    → HandedOver port c
    → is_addressing phase ≡ false
    → Exclusive (set_phase port phase c)
set_phase-HandedOver port phase {c} x out = record {
  current = λ n. ground (arith, x.current n, x.apart);
  others = λ p h. ground (arith, x.others p h, out);
  no_port = ground (arith, x.no_port, x.is_port);
}

-- Handlers that change no phase, or change one outside of the addressing.
pub alloc_device-same :
    (slot : ℕ) (c : Controller)
    → ((alloc_device slot c).1.port_config_phase ≡ c.port_config_phase)
      × ((alloc_device slot c).1.addressing_port ≡ c.addressing_port)
unfolding alloc_device
alloc_device-same slot c = ground arith

pub finds_by_slot-start_waiting :
    (hw : Hardware) (slot : ℕ) (c : Controller)
    → finds_by_slot slot (start_waiting hw c).controller ≡ finds_by_slot slot c
unfolding start_waiting ResetTo
finds_by_slot-start_waiting hw slot c = elim (Option-cases (first_waiting 256 c)) [
  | inl nobody ↦ rw (nobody, start_waiting) refl
  | inr (port, e) ↦
      rw (e, start_waiting)
        (elim (reset_port_of-ResetTo hw port c) [
          | inl same ↦ ap (finds_by_slot slot) same
          | inr (inl (same, busy)) ↦ ap (finds_by_slot slot) same
          | inr (inr (same, idle)) ↦ ap (finds_by_slot slot) same
        ])
]
