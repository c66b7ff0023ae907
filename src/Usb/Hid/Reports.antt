-- ===== src/Usb/Hid/Reports.antt =====
-- kernel/usb/classdriver/keyboard.cpp: which keys a report of a keyboard pushes.
use uhyok_os.Base.{
  ℕ, zero, suc, ◌+◌, ◌-◌, ◌≤◌, ◌≡◌, ◌≢◌, refl, sym, ap, ◌∙◌, Bool, true, false, not, ◌&&◌, ◌||◌,
  ◌==◌, if◌then◌else◌, List, [], ◌∷◌, ◌++◌, drop, replicate, arith, Bool-cases, inl, inr,
  ℕ_discrete,
}
use uhyok_os.Usb.Hid.{
  Driver, Notice, key_push, keyboard, contains, notify, push_keys, on_data_received, bytes_at,
  keep_buffer,
}
use uhyok_os.Usb.Descriptor.{Bytes}

-- The notices of the keys of a list.
abbrev pub pushes : ℕ → ℕ → List ℕ → List Notice
pushes observers modifier [] = []
pushes observers modifier (key ∷ keys) =
    replicate observers (key_push modifier key) ++ pushes observers modifier keys

-- The keys of a list that are new.
new_keys : List ℕ → List ℕ → List ℕ
new_keys previous [] = []
new_keys previous (key ∷ keys) =
    let rest = new_keys previous keys in
    if key == 0 then rest else if contains key previous then rest else key ∷ rest

contains-new_keys :
    (previous keys : List ℕ) (k : ℕ)
    → contains k (new_keys previous keys)
      ≡ (not (k == 0) && (contains k keys && not (contains k previous)))
unfolding new_keys
contains-new_keys previous [] k = ground arith
contains-new_keys previous (key ∷ keys) k =
    let same : key ≡ k → contains key previous ≡ contains k previous =
      λ e. ap (λ x. contains x previous) e in
    elim (ℕ_discrete key k) [
      | yes e ↦ ground (arith, e, same e, contains-new_keys previous keys k)
      | no ne ↦ ground (arith, ne, contains-new_keys previous keys k)
    ]

append_assoc {ℓ} : {A : Type ℓ} (xs ys zs : List A) → (xs ++ ys) ++ zs ≡ xs ++ (ys ++ zs)
append_assoc [] ys zs = refl
append_assoc (x ∷ xs) ys zs = ap (λ l. x ∷ l) (append_assoc xs ys zs)

append-none {ℓ} : {A : Type ℓ} (xs : List A) → xs ++ [] ≡ xs
append-none [] = refl
append-none (x ∷ xs) = ap (λ l. x ∷ l) (append-none xs)

next_place : (buf n : ℕ) → suc n ≤ 6 → buf + (8 - suc n) + 1 ≡ buf + (8 - n)
next_place buf n h = omega arith

-- A key that is not new, and one that is.
is_old : List ℕ → ℕ → Bool
is_old previous key = if key == 0 then true else contains key previous

new_keys-old :
    (previous keys : List ℕ) (key : ℕ)
    → is_old previous key ≡ true
    → new_keys previous (key ∷ keys) ≡ new_keys previous keys
unfolding new_keys is_old
new_keys-old previous keys key h = ground (arith, h)

new_keys-new :
    (previous keys : List ℕ) (key : ℕ)
    → is_old previous key ≡ false
    → new_keys previous (key ∷ keys) ≡ key ∷ new_keys previous keys
unfolding new_keys is_old
new_keys-new previous keys key h = ground (arith, h)

module _ (memory : Bytes) where
  -- The key of a round, and the keys of the rounds after it.
  key_of : ℕ → Driver → ℕ
  key_of n d = memory (d.buf + (8 - suc n))

  keys_of : ℕ → Driver → List ℕ
  keys_of n d = bytes_at memory (d.buf + (8 - n)) n

  keys_of-suc : (n : ℕ) (d : Driver) → suc n ≤ 6 → keys_of (suc n) d ≡ key_of n d ∷ keys_of n d
  unfolding key_of keys_of
  keys_of-suc n d h =
      ap (λ p. memory (d.buf + (8 - suc n)) ∷ bytes_at memory p n) (next_place d.buf n h)

  push_keys-old :
      (n : ℕ) (d : Driver)
      → is_old (drop 2 d.previous_buf) (key_of n d) ≡ true
      → push_keys memory (suc n) d ≡ push_keys memory n d
  unfolding push_keys is_old key_of
  push_keys-old n d h = ground (arith, h)

  push_keys-fresh :
      (n : ℕ) (d : Driver)
      → is_old (drop 2 d.previous_buf) (key_of n d) ≡ false
      → push_keys memory (suc n) d
        ≡ push_keys memory n (notify (key_push (memory d.buf) (key_of n d)) d)
  unfolding push_keys is_old key_of
  push_keys-fresh n d h = ground (arith, h)

  told : ℕ → Driver → List Notice
  told n d = pushes d.num_observers (memory d.buf) (new_keys (drop 2 d.previous_buf) (keys_of n d))

  push_keys-told :
      (n : ℕ) (d : Driver)
      → n ≤ 6
      → push_keys memory n d ≡ record d { notices = d.notices ++ told n d }
  unfolding push_keys told keys_of new_keys
  push_keys-told zero d h = ap (λ l. record d { notices = l }) (sym (append-none d.notices))
  push_keys-told (suc n) d h = elim (Bool-cases (is_old (drop 2 d.previous_buf) (key_of n d))) [
    | inl t ↦
        push_keys-old n d t
        ∙ push_keys-told n d (omega arith)
        ∙ ap
            (λ keys. record d { notices = d.notices ++ pushes d.num_observers (memory d.buf) keys })
            (sym (
              ap (new_keys (drop 2 d.previous_buf)) (keys_of-suc n d h)
              ∙ new_keys-old (drop 2 d.previous_buf) (keys_of n d) (key_of n d) t))
    | inr f ↦
        push_keys-fresh n d f
        ∙ push_keys-told n (notify (key_push (memory d.buf) (key_of n d)) d) (omega arith)
        ∙ ap (λ l. record d { notices = l })
            (append_assoc d.notices
              (replicate d.num_observers (key_push (memory d.buf) (key_of n d))) (told n d))
        ∙ ap
            (λ keys. record d { notices = d.notices ++ pushes d.num_observers (memory d.buf) keys })
            (sym (
              ap (new_keys (drop 2 d.previous_buf)) (keys_of-suc n d h)
              ∙ new_keys-new (drop 2 d.previous_buf) (keys_of n d) (key_of n d) f))
  ]

contains-append :
    (k : ℕ) (xs ys : List ℕ) → contains k (xs ++ ys) ≡ (contains k xs || contains k ys)
contains-append k [] ys = refl
contains-append k (x ∷ xs) ys = ground (arith, contains-append k xs ys)

-- The keys of the report in the buffer of a keyboard.
abbrev pub keys_in : Bytes → Driver → List ℕ
keys_in memory d = bytes_at memory (d.buf + 2) 6

keyboard_rounds :
    (memory : Bytes) (d : Driver)
    → d.kind ≡ keyboard
    → on_data_received memory d ≡ push_keys memory 6 d
unfolding on_data_received
keyboard_rounds memory d h = ground (arith, h)

two_on : (buf : ℕ) → buf + 1 + 1 ≡ buf + 2
two_on buf = omega arith

or-false : (b : Bool) → (b || false) ≡ b
or-false true = refl
or-false false = refl

keyboard-told :
    (memory : Bytes) (d : Driver)
    → d.kind ≡ keyboard
    → on_data_received memory d ≡ record d {
      notices =
          d.notices
          ++ pushes d.num_observers
              (memory d.buf)
              (new_keys (drop 2 d.previous_buf) (keys_in memory d));
    }
unfolding told keys_of
keyboard-told memory d h = keyboard_rounds memory d h ∙ push_keys-told memory 6 d (omega arith)

-- The driver after a report of 8 bytes.
abbrev pub after_report : Bytes → Driver → Driver
after_report memory d = keep_buffer memory 8 (on_data_received memory d)

keyboard-after_report :
    (memory : Bytes) (d : Driver)
    → d.kind ≡ keyboard
    → after_report memory d ≡ record d {
      notices =
          d.notices
          ++ pushes d.num_observers
              (memory d.buf)
              (new_keys (drop 2 d.previous_buf) (keys_in memory d));
      previous_buf = bytes_at memory d.buf 8 ++ drop 8 d.previous_buf;
    }
keyboard-after_report memory d h = ap (keep_buffer memory 8) (keyboard-told memory d h)

-- What a report of 8 bytes leaves of keys to compare with.
previous_keys :
    (memory : Bytes) (buf k : ℕ) (previous : List ℕ)
    → contains k (drop 8 previous) ≡ false
    → contains k (drop 2 (bytes_at memory buf 8 ++ drop 8 previous))
      ≡ contains k (bytes_at memory (buf + 2) 6)
previous_keys memory buf k previous quiet =
    ap (λ p. contains k (bytes_at memory p 6 ++ drop 8 previous)) (two_on buf)
    ∙ contains-append k (bytes_at memory (buf + 2) 6) (drop 8 previous)
    ∙ rw quiet (or-false (contains k (bytes_at memory (buf + 2) 6)))

unless-zero :
    (k : ℕ) (b p q : Bool)
    → (k ≢ 0 → p ≡ q)
    → (not (k == 0) && (b && not p)) ≡ (not (k == 0) && (b && not q))
unless-zero k b p q same = elim (ℕ_discrete k 0) [
  | yes e ↦ ground (arith, e)
  | no ne ↦ ap (λ x. not (k == 0) && (b && not x)) (same ne)
]

-- Of two reports of a keyboard one after the other, the second tells the observers of the keys that
-- it has and the first did not have, and of no others, whatever was held before.
pub on_data_received-KeyPush :
    (memory memory' : Bytes) (d : Driver)
    → d.kind ≡ keyboard
    → ((k : ℕ) → k ≢ 0 → contains k (drop 8 d.previous_buf) ≡ false)
    → (keys : List ℕ) × ((after_report memory' (after_report memory d)).notices
        ≡ (after_report memory d).notices ++ pushes d.num_observers (memory' d.buf) keys)
      × ((k : ℕ)
          → contains k keys ≡ (
              not (k == 0)
              && (contains k (keys_in memory' d) && not (contains k (keys_in memory d)))))
on_data_received-KeyPush memory memory' d h quiet =
    let before = bytes_at memory d.buf 8 ++ drop 8 d.previous_buf in
    let first = keyboard-after_report memory d h in
    let seen : Driver = record d {
      notices = (after_report memory d).notices;
      previous_buf = before;
    } in
    let at_first : after_report memory d ≡ seen =
      first
      ∙ ap (λ l. record d { notices = l; previous_buf = before })
          (sym (ap (λ x. x.notices) first)) in
    (
      new_keys (drop 2 before) (keys_in memory' d),
      ap (λ x. (after_report memory' x).notices) at_first
          ∙ ap (λ x. x.notices) (keyboard-after_report memory' seen h),
      λ k.
          contains-new_keys (drop 2 before) (keys_in memory' d) k
          ∙ unless-zero k (contains k (keys_in memory' d)) (contains k (drop 2 before))
              (contains k (keys_in memory d))
              (λ ne. previous_keys memory d.buf k d.previous_buf (quiet k ne)),
    )
