-- ===== src/Usb/Device/Chain.antt =====
-- kernel/usb/device.cpp: the descriptors behind a configuration descriptor, as a list of the places
-- where they start, and the reader over it.
use uhyok_os.Base.{
  ℕ, zero, suc, ◌+◌, ◌≤◌, ◌<◌, ◌≡◌, refl, Bool, List, [], ◌∷◌, length, Option, none, some, arith,
  dec_lt, if◌then◌else◌, ◌==◌, ◌&&◌, ◌||◌, Option-cases, inl, inr,
}
use uhyok_os.Usb.Descriptor.{
  Bytes, Run, done, Reader, InterfaceDescriptor, EndpointDescriptor, as_interface, as_endpoint,
  next_interface,
}

-- The places of the descriptors after the one at `p`, up to an end: each is as far from the one
-- before as that says it is long.
pub data Chain (memory : Bytes) (end : ℕ) : ℕ → List ℕ → Type 0 where
  ends : {p : ℕ} → end ≤ p + memory p → Chain memory end p []
  follows :
      {p : ℕ} {ds : List ℕ}
      → p + memory p < end
      → Chain memory end (p + memory p) ds
      → Chain memory end p ((p + memory p) ∷ ds)

-- The places where the reader finds a descriptor.
pub data Starts (memory : Bytes) (end first : ℕ) : ℕ → Type 0 where
  at_first : Starts memory end first first
  at_next :
      {p : ℕ}
      → Starts memory end first p
      → p + memory p < end
      → Starts memory end first (p + memory p)

-- The descriptors of a buffer when none of them is of length 0, and how many they are at most.
Chain-from :
    (memory : Bytes) (end first : ℕ)
    → ((p : ℕ) → Starts memory end first p → 1 ≤ memory p)
    → (n p : ℕ) → Starts memory end first p
    → end ≤ n + p
    → (ds : List ℕ) × Chain memory end p ds × (length ds ≤ n)
Chain-from memory end first long n p reached near = elim (dec_lt (p + memory p) end) [
  | yes l ↦ go n p reached near l
  | no m ↦ ([], ends (omega arith), omega arith)
]
  where
    go :
        (n p : ℕ)
        → Starts memory end first p
        → end ≤ n + p
        → p + memory p < end
        → (ds : List ℕ) × Chain memory end p ds × (length ds ≤ n)
    go zero p reached near l = absurd (omega arith)
    go (suc n) p reached near l =
        let moved = long p reached in
        let next = at_next reached l in
        elim (dec_lt (p + memory p + memory (p + memory p)) end) [
          | yes l' ↦
              let (ds, c, short) = go n (p + memory p) next (omega arith) l' in
              ((p + memory p) ∷ ds, follows l c, omega arith)
          | no m ↦ ((p + memory p) ∷ [], follows l (ends (omega arith)), omega arith)
        ]

pub descriptors :
    (memory : Bytes) (buf len : ℕ)
    → ((p : ℕ) → Starts memory (buf + len) buf p → 1 ≤ memory p)
    → (ds : List ℕ) × Chain memory (buf + len) buf ds × (length ds ≤ len)
descriptors memory buf len long =
    Chain-from memory (buf + len) buf long len buf at_first (omega arith)

-- The interfaces that have a driver: keyboards and mice of the boot protocol.
abbrev pub is_supported : InterfaceDescriptor → Bool
is_supported i =
    (i.interface_class == 3)
    && ((i.interface_sub_class == 1)
        && ((i.interface_protocol == 1) || (i.interface_protocol == 2)))

-- The first of them in a list of descriptors, where it is, and what is behind it.
abbrev pub supported_in : Bytes → List ℕ → Option (InterfaceDescriptor × ℕ × List ℕ)
supported_in memory [] = none
supported_in memory (p ∷ ds) = elim (as_interface memory p) [
  | some i ↦ if is_supported i then some (i, p, ds) else supported_in memory ds
  | none ↦ supported_in memory ds
]

-- The endpoints of a list of descriptors.
abbrev pub endpoints_in : Bytes → List ℕ → List EndpointDescriptor
endpoints_in memory [] = []
endpoints_in memory (p ∷ ds) = elim (as_endpoint memory p) [
  | some e ↦ e ∷ endpoints_in memory ds
  | none ↦ endpoints_in memory ds
]

module _ (memory : Bytes) (buf len : ℕ) where
  abbrev pub reader : ℕ → Reader
  reader p = record { desc_buf = buf; desc_buf_len = len; p = p }

  -- One step of `Next<InterfaceDescriptor>`.
  next_interface-ends :
      (fuel p : ℕ)
      → buf + len ≤ p + memory p
      → next_interface (suc fuel) memory (reader p) ≡ done (none, reader (p + memory p))
  unfolding next_interface
  next_interface-ends fuel p h = ground (arith, h)

  next_interface-skips :
      (fuel p : ℕ)
      → p + memory p < buf + len
      → as_interface memory (p + memory p) ≡ none
      → next_interface (suc fuel) memory (reader p)
        ≡ next_interface fuel memory (reader (p + memory p))
  unfolding next_interface
  next_interface-skips fuel p h e = ground (arith, h, e)

  next_interface-finds :
      (fuel p : ℕ) (i : InterfaceDescriptor)
      → p + memory p < buf + len
      → as_interface memory (p + memory p) ≡ some i
      → next_interface (suc fuel) memory (reader p) ≡ done (some i, reader (p + memory p))
  unfolding next_interface
  next_interface-finds fuel p i h e = ground (arith, h, e)

  -- What `Next<InterfaceDescriptor>` comes to.
  pub data Searched (ds : List ℕ) : Run (Option InterfaceDescriptor × Reader) → Type 0 where
    no_interface : {r : Reader} → supported_in memory ds ≡ none → Searched ds (done (none, r))
    an_interface :
        {i : InterfaceDescriptor} {p : ℕ} {behind : List ℕ}
        → supported_in memory ds
          ≡ (if is_supported i then some (i, p, behind) else supported_in memory behind)
        → Chain memory (buf + len) p behind
        → length behind < length ds
        → Searched ds (done (some i, reader p))

  skipped :
      (n : ℕ) (ds : List ℕ) {r : Run (Option InterfaceDescriptor × Reader)}
      → as_interface memory n ≡ none
      → Searched ds r
      → Searched (n ∷ ds) r
  skipped n ds e (no_interface s) = no_interface (ground (arith, e, s))
  skipped n ds e (an_interface s c h) = an_interface (ground (arith, e, s)) c (omega arith)

  pub next_interface-Searched :
      (fuel : ℕ) {p : ℕ} {ds : List ℕ}
      → Chain memory (buf + len) p ds
      → length ds < fuel
      → Searched ds (next_interface fuel memory (reader p))
  next_interface-Searched zero c h = absurd (omega arith)
  next_interface-Searched (suc fuel) {p = p} (ends e) h =
      rw (next_interface-ends fuel p e) (no_interface refl)
  next_interface-Searched (suc fuel) {p = p} (follows {ds = ds} l c) h =
      let n = p + memory p in
      elim (Option-cases (as_interface memory n)) [
        | inl e ↦
            rw (next_interface-skips fuel p l e)
              (skipped n ds e (next_interface-Searched fuel c (omega arith)))
        | inr (i, e) ↦
            rw (next_interface-finds fuel p i l e)
              (an_interface (ground (arith, e)) c (omega arith))
      ]
