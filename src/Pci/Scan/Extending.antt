-- ===== src/Pci/Scan/Extending.antt =====
-- kernel/pci.cpp: what a step of the search for devices adds to the list.
use uhyok_os.Base.{
  ℕ, ◌+◌, ◌≤◌, ◌<◌, ◌≡◌, ◌≢◌, ◌⊎◌, refl, ap, ◌∙◌, false, Option, some, arith, set, length,
  get_elem?, length-set, get_elem?-set_self, get_elem?-set_ne, inl, inr, Bool-cases, ℕ_discrete,
  dec_lt,
}
use uhyok_os.Errors.{Code, success, full, is_error}
use uhyok_os.Pci.{Device, read_vendor_id}
use uhyok_os.Pci.Scan.{Found, add_device, unless_error, absent, device_at}

abbrev pub WithinArray : Found → Type 0
WithinArray s = s.num_device ≤ length s.devices

module _ (config : ℕ → ℕ) where
  -- The device answers at its address, and is recorded with what its registers say.
  abbrev pub IsPresent : Device → Type 0
  IsPresent d =
      (read_vendor_id config d.bus d.device d.function ≢ absent)
      × (d ≡ device_at config d.bus d.device d.function)

  pub device_at-IsPresent :
      (bus device function : ℕ)
      → read_vendor_id config bus device function ≢ absent
      → IsPresent (device_at config bus device function)
  unfolding device_at
  device_at-IsPresent bus device function there = (there, refl)

  -- What a step of the search adds: devices that are there, after those already listed.
  pub record Extends (s s' : Found) : Type 0 where
    pub size : length s'.devices ≡ length s.devices
    pub within : WithinArray s'
    pub grows : s.num_device ≤ s'.num_device
    pub kept : (i : ℕ) → i < s.num_device → get_elem? s'.devices i ≡ get_elem? s.devices i
    pub present :
        (i : ℕ)
        → s.num_device ≤ i
        → i < s'.num_device
        → (d : Device) × (get_elem? s'.devices i ≡ some d) × IsPresent d

  -- The search returned, having added devices, and failed only for want of room.
  pub record Returned (s : Found) (r : Option (Code × Found)) : Type 0 where
    pub code : Code
    pub state : Found
    pub result : r ≡ some (code, state)
    pub adds : Extends s state
    pub verdict : (code ≡ success) ⊎ ((code ≡ full) × (state.num_device ≡ length state.devices))

  Extends-refl : (s : Found) → WithinArray s → Extends s s
  Extends-refl s w = record {
    size = refl;
    within = w;
    grows = omega arith;
    kept = λ i h. refl;
    present = λ i h k. absurd (omega arith);
  }

  Extends-trans : {s t u : Found} → Extends s t → Extends t u → Extends s u
  Extends-trans {s} {t} {u} a b = record {
    size = b.size ∙ a.size;
    within = b.within;
    grows = omega (arith, a.grows, b.grows);
    kept = λ i h. b.kept i (omega (arith, a.grows)) ∙ a.kept i h;
    present = λ i h k. elim (dec_lt i t.num_device) [
      | yes lt ↦ let (d, at, there) = a.present i h lt in (d, b.kept i lt ∙ at, there)
      | no ge ↦ b.present i (omega arith) k
    ];
  }

  pub success-Returned : (s : Found) → WithinArray s → Returned s (some (success, s))
  success-Returned s w = record {
    code = success;
    state = s;
    result = refl;
    adds = Extends-refl s w;
    verdict = inl refl;
  }

  -- A full array is left as it is; otherwise the device takes the next place.
  pub add_device-Returned :
      (d : Device) (s : Found) → WithinArray s → IsPresent d → Returned s (some (add_device d s))
  unfolding add_device
  add_device-Returned d s w p = elim (ℕ_discrete s.num_device (length s.devices)) [
    | yes e ↦
        let at : add_device d s ≡ (full, s) = ground (arith, e) in
        record {
          code = full;
          state = s;
          result = ap some at;
          adds = Extends-refl s w;
          verdict = inr (refl, e);
        }
    | no ne ↦
        let s' : Found = record {
          devices = set s.devices s.num_device d;
          num_device = s.num_device + 1;
        } in
        let at : add_device d s ≡ (success, s') = ground (arith, ne) in
        record {
          code = success;
          state = s';
          result = ap some at;
          adds = record {
            size = length-set s.devices s.num_device d;
            within = omega (arith, length-set s.devices s.num_device d);
            grows = omega arith;
            kept = λ i h. get_elem?-set_ne s.devices d (λ e. absurd (omega (arith, e)));
            present = λ i h k. (
              d,
              rw (is_last i h k) (get_elem?-set_self s.devices s.num_device d (omega arith)),
              p,
            );
          };
          verdict = inl refl;
        }
  ]
    where
      is_last : (i : ℕ) → s.num_device ≤ i → i < s.num_device + 1 → i ≡ s.num_device
      is_last i h k = omega arith

  pub num_device-add_device :
      (d : Device) (c : Code) (s s' : Found)
      → some (add_device d s) ≡ some (c, s')
      → is_error c ≡ false
      → s'.num_device ≡ s.num_device + 1
  unfolding add_device
  num_device-add_device d c s s' e fine = ground arith

  -- An error stops the search; otherwise what follows goes on from the state reached.
  pub unless_error-Returned :
      (s : Found) (r : Option (Code × Found)) (k : Found → Option (Code × Found))
      → Returned s r
      → ((c : Code) (s' : Found)
          → r ≡ some (c, s')
          → is_error c ≡ false
          → Extends s s'
          → Returned s' (k s'))
      → Returned s (unless_error r k)
  unfolding unless_error
  unless_error-Returned s r k a next = rw a.result (elim (Bool-cases (is_error a.code)) [
    | inl bad ↦ record {
      code = a.code;
      state = a.state;
      result = rw (bad, unless_error) refl;
      adds = a.adds;
      verdict = a.verdict;
    }
    | inr fine ↦
        let b = next a.code a.state a.result fine a.adds in
        record {
          code = b.code;
          state = b.state;
          result = rw (fine, unless_error) b.result;
          adds = Extends-trans a.adds b.adds;
          verdict = b.verdict;
        }
  ])
