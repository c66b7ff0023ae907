-- ===== src/Xhci/Handover.antt =====
-- kernel/usb/xhci/xhci.cpp: which port is addressed next.
use uhyok_os.Base.{
  ℕ, zero, suc, ◌≡◌, ◌≢◌, ◌≤◌, ◌<◌, ◌-◌, ℕ_discrete, refl, ap, ap₂, ◌∙◌, true, false, List, [], ◌∷◌,
  Option, none, some, ◌==◌, arith, if◌then◌else◌, Bool-cases, inl, inr,
}
use uhyok_os.Errors.{success}
use uhyok_os.Xhci.{
  ConfigPhase, not_connected, resetting_port, enabling_slot, addressing_device, initializing_device,
  configuring_endpoints, configured, phase_value, same_phase, Controller, Hardware, Outcome, Action,
  waiting_addressed, reset_port, start_initialize,
}
use uhyok_os.Xhci.Ports.{
  set_phase, finds_by_slot, reset_port_of, initialize_device, start_waiting, on_addressed,
  unless_error, first_waiting,
}
use uhyok_os.Xhci.Addressing.{first_waiting-waits}

-- The port of the lowest number that waits, if one does.
pub data IsNext (c : Controller) : Option ℕ → Type 0 where
  nobody : ((p : ℕ) → p < 256 → c.port_config_phase p ≢ waiting_addressed) → IsNext c none
  lowest :
      (w : ℕ)
      → w < 256
      → c.port_config_phase w ≡ waiting_addressed
      → ((p : ℕ) → p < w → c.port_config_phase p ≢ waiting_addressed)
      → IsNext c (some w)

-- The port that is addressed next, and what is asked of the hardware.
abbrev pub taken : Hardware → Option ℕ → ℕ
taken hw none = 0
taken hw (some w) = if hw.is_connected w then w else 0

abbrev pub asked_for : Hardware → ℕ → Option ℕ → List Action
asked_for hw slot none = start_initialize slot ∷ []
asked_for hw slot (some w) =
    if hw.is_connected w
    then reset_port w ∷ start_initialize slot ∷ []
    else start_initialize slot ∷ []

-- The ports after `port` has its address and `next` is the first that waits.
pub record Succeeded (hw : Hardware) (port : ℕ) (next : Option ℕ) (slot : ℕ) (c : Controller)
    (o : Outcome) : Type 0 where
  pub code : o.code ≡ success
  pub initializes : o.controller.port_config_phase port ≡ initializing_device
  pub current : o.controller.addressing_port ≡ taken hw next
  pub resets :
      (w : ℕ)
      → next ≡ some w
      → hw.is_connected w ≡ true
      → o.controller.port_config_phase w ≡ resetting_port
  pub others :
      (p : ℕ)
      → p ≢ port
      → (next ≡ some p → hw.is_connected p ≡ false)
      → o.controller.port_config_phase p ≡ c.port_config_phase p
  pub actions : o.actions ≡ asked_for hw slot next

reset_port_of-idle :
    (hw : Hardware) (w : ℕ) (c : Controller)
    → c.addressing_port ≡ 0
    → same_phase (c.port_config_phase w) waiting_addressed ≡ true
    → reset_port_of hw w c ≡ (
        if hw.is_connected w
        then record {
          code = success;
          controller = set_phase w resetting_port (record c { addressing_port = w });
          actions = reset_port w ∷ [];
        }
        else record { code = success; controller = c; actions = [] })
unfolding reset_port_of
reset_port_of-idle hw w c idle waits = ground (arith, idle, waits)

first_waiting-addressing_port :
    (n a : ℕ) (c : Controller)
    → first_waiting n (record c { addressing_port = a }) ≡ first_waiting n c
unfolding first_waiting
first_waiting-addressing_port zero a c = refl
first_waiting-addressing_port (suc n) a c =
    ap
      (λ rest.
        if same_phase (c.port_config_phase (255 - n)) waiting_addressed
        then some (255 - n)
        else rest)
      (first_waiting-addressing_port n a c)

-- The handler without its guards.
on_addressed-chain :
    (hw : Hardware) (slot w : ℕ) (c : Controller)
    → finds_by_slot slot c ≡ true
    → hw.root_hub_port_num slot ≡ c.addressing_port
    → c.port_config_phase c.addressing_port ≡ addressing_device
    → first_waiting 256 c ≡ some w
    → on_addressed hw slot c
      ≡ unless_error
          (if hw.is_connected w
            then record {
              code = success;
              controller = set_phase w resetting_port (record c { addressing_port = w });
              actions = reset_port w ∷ [];
            }
            else record {
              code = success;
              controller = record c { addressing_port = 0 };
              actions = [];
            })
          (initialize_device hw c.addressing_port slot)
unfolding on_addressed start_waiting
on_addressed-chain hw slot w c found at right next =
    let same : (hw.root_hub_port_num slot == c.addressing_port) ≡ true = ground (arith, at) in
    let phase : same_phase (c.port_config_phase (hw.root_hub_port_num slot)) addressing_device
        ≡ true =
      rw (at, right) refl in
    let waits = first_waiting-waits 256 c w next in
    let starts : start_waiting hw (record c { addressing_port = 0 })
        ≡ reset_port_of hw w (record c { addressing_port = 0 }) =
      rw (first_waiting-addressing_port 256 0 c ∙ next, start_waiting) refl in
    rw (found, same, phase, on_addressed)
      (ap₂ (λ o p. unless_error o (initialize_device hw p slot))
        (starts ∙ reset_port_of-idle hw w (record c { addressing_port = 0 }) refl waits) at)

waiting-same_phase :
    (a : ConfigPhase) → same_phase a waiting_addressed ≡ true → a ≡ waiting_addressed
waiting-same_phase not_connected e = absurd (ground (arith, e))
waiting-same_phase waiting_addressed e = refl
waiting-same_phase resetting_port e = absurd (ground (arith, e))
waiting-same_phase enabling_slot e = absurd (ground (arith, e))
waiting-same_phase addressing_device e = absurd (ground (arith, e))
waiting-same_phase initializing_device e = absurd (ground (arith, e))
waiting-same_phase configuring_endpoints e = absurd (ground (arith, e))
waiting-same_phase configured e = absurd (ground (arith, e))

-- The scan from `256 - n` on finds a port that waits when no port before it does.
first_waiting-first :
    (n w : ℕ) (c : Controller)
    → n ≤ 256
    → 256 - n ≤ w
    → w < 256
    → c.port_config_phase w ≡ waiting_addressed
    → ((p : ℕ) → p < w → c.port_config_phase p ≢ waiting_addressed)
    → first_waiting n c ≡ some w
unfolding first_waiting
first_waiting-first zero w c h l k waits before = absurd (omega arith)
first_waiting-first (suc n) w c h l k waits before = elim (ℕ_discrete (255 - n) w) [
  | yes here ↦
      let it : same_phase (c.port_config_phase (255 - n)) waiting_addressed ≡ true =
        ap (λ p. same_phase (c.port_config_phase p) waiting_addressed) here
        ∙ ap (λ phase. same_phase phase waiting_addressed) waits in
      rw (it, first_waiting) (ap some here)
  | no later ↦ elim (Bool-cases (same_phase (c.port_config_phase (255 - n)) waiting_addressed)) [
    | inl it ↦ absurd (
        before (255 - n) (omega (arith, later))
          (waiting-same_phase (c.port_config_phase (255 - n)) it))
    | inr other ↦
        rw (other, first_waiting)
          (first_waiting-first n w c (omega arith) (omega (arith, later)) k waits before)
  ]
]

first_waiting-none :
    (n : ℕ) (c : Controller)
    → n ≤ 256
    → ((p : ℕ) → p < 256 → c.port_config_phase p ≢ waiting_addressed)
    → first_waiting n c ≡ none
unfolding first_waiting
first_waiting-none zero c h nowhere = refl
first_waiting-none (suc n) c h nowhere =
    elim (Bool-cases (same_phase (c.port_config_phase (255 - n)) waiting_addressed)) [
      | inl it ↦
          absurd (
            nowhere (255 - n) (omega arith) (waiting-same_phase (c.port_config_phase (255 - n)) it))
      | inr other ↦ rw (other, first_waiting) (first_waiting-none n c (omega arith) nowhere)
    ]

module _ (hw : Hardware) (slot : ℕ) (c : Controller) (found : finds_by_slot slot c ≡ true)
    (at : hw.root_hub_port_num slot ≡ c.addressing_port)
    (right : c.port_config_phase c.addressing_port ≡ addressing_device) where
  handed_on :
      (w : ℕ)
      → first_waiting 256 c ≡ some w
      → w ≢ c.addressing_port
      → Succeeded hw c.addressing_port (some w) slot c (on_addressed hw slot c)
  unfolding initialize_device
  handed_on w next apart =
      rw (on_addressed-chain hw slot w c found at right next)
        (elim (Bool-cases (hw.is_connected w)) [
          | inl connected ↦
              rw (connected, found, initialize_device)
                (record {
                  code = refl;
                  initializes = ground arith;
                  current = ground (arith, connected);
                  resets = λ v e on. ground (arith, e, apart);
                  others = λ p n k. elim (ℕ_discrete w p) [
                    | yes same ↦
                        absurd
                          (ground (arith, connected, k (ap some same), ap hw.is_connected same))
                    | no differs ↦ ground (arith, n, differs)
                  ];
                  actions = ground (arith, connected);
                })
          | inr gone ↦
              rw (gone, found, initialize_device)
                (record {
                  code = refl;
                  initializes = ground arith;
                  current = ground (arith, gone);
                  resets = λ v e on. absurd (ground (arith, e, on, gone));
                  others = λ p n k. ground (arith, n);
                  actions = ground (arith, gone);
                })
        ])

  on_addressed-alone :
      first_waiting 256 c ≡ none
      → on_addressed hw slot c
        ≡ unless_error
            (record { code = success; controller = record c { addressing_port = 0 }; actions = [] })
            (initialize_device hw c.addressing_port slot)
  unfolding on_addressed start_waiting
  on_addressed-alone next =
      let same : (hw.root_hub_port_num slot == c.addressing_port) ≡ true = ground (arith, at) in
      let phase : same_phase (c.port_config_phase (hw.root_hub_port_num slot)) addressing_device
          ≡ true =
        rw (at, right) refl in
      let starts : start_waiting hw (record c { addressing_port = 0 })
          ≡ record { code = success; controller = record c { addressing_port = 0 }; actions = [] } =
        rw (first_waiting-addressing_port 256 0 c ∙ next, start_waiting) refl in
      rw (found, same, phase, on_addressed)
        (ap₂ (λ o p. unless_error o (initialize_device hw p slot)) starts at)

  handed_to_nobody :
      first_waiting 256 c ≡ none
      → Succeeded hw c.addressing_port none slot c (on_addressed hw slot c)
  unfolding initialize_device
  handed_to_nobody next = rw (on_addressed-alone next) (
      rw (found, initialize_device)
        (record {
          code = refl;
          initializes = ground arith;
          current = refl;
          resets = λ v e on. absurd (ground (arith, e));
          others = λ p n k. ground (arith, n);
          actions = refl;
        }))

-- When the device on the port being addressed gets its address, the port is initialized, and the
-- port of the lowest number that waits, if there is one and it is connected, is reset and becomes
-- the one being addressed. If no port waits, or that port is no longer connected, then no port is
-- being addressed, even if another one waits. The phases of all other ports stay.
pub on_addressed-Succeeded :
    (hw : Hardware) (slot : ℕ) {next : Option ℕ} (c : Controller)
    → finds_by_slot slot c ≡ true
    → hw.root_hub_port_num slot ≡ c.addressing_port
    → c.port_config_phase c.addressing_port ≡ addressing_device
    → IsNext c next
    → Succeeded hw c.addressing_port next slot c (on_addressed hw slot c)
on_addressed-Succeeded hw slot c found at right (nobody nowhere) =
    handed_to_nobody hw slot c found at right (first_waiting-none 256 c (omega arith) nowhere)
on_addressed-Succeeded hw slot c found at right (lowest w inside waits before) =
    handed_on hw slot c found at right w
      (first_waiting-first 256 w c (omega arith) (omega arith) inside waits before)
      (λ e. absurd (
        ground (
          arith,
          ap phase_value waits,
          ap (λ p. phase_value (c.port_config_phase p)) e,
          ap phase_value right,
        )))
