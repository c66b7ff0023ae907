-- ===== src/Usb/ArrayMap/Entries.antt =====
-- kernel/usb/arraymap.hpp: `Put` and `Delete`, by what `Get` finds afterwards.
use uhyok_os.Base.{
  ℕ, suc, ◌≤◌, ◌≡◌, ◌≢◌, refl, sym, ◌∙◌, Bool, true, false, [], ◌∷◌, none, some, arith,
  if◌then◌else◌, Bool-cases, inl, inr,
}
use uhyok_os.Usb.ArrayMap.{ArrayMap, get, put, delete}

module _ {ℓ} {K : Type ℓ} (same : K → K → Bool) where
  -- `operator==` of the keys is their equality.
  pub record IsEquality : Type ℓ where
    pub sound : (a b : K) → same a b ≡ true → a ≡ b
    pub complete : (a : K) → same a a ≡ true

  differs : IsEquality → (a b c : K) → same a c ≡ true → b ≢ c → same a b ≡ false
  differs q a b c e ne = elim (Bool-cases (same a b)) [
    | inl t ↦ absurd (ne (sym (q.sound a b t) ∙ q.sound a c e))
    | inr f ↦ f
  ]

module _ {ℓ κ} {K : Type ℓ} {V : Type κ} (same : K → K → Bool) where
  -- How many entries have no key, and how many have a key.
  abbrev pub room : ArrayMap K V → ℕ
  room [] = 0
  room ((none, v) ∷ table) = suc (room table)
  room ((some k, v) ∷ table) = room table

  abbrev pub copies : K → ArrayMap K V → ℕ
  copies key [] = 0
  copies key ((none, v) ∷ table) = copies key table
  copies key ((some k, v) ∷ table) = if same k key then suc (copies key table) else copies key table

  get-absent : (key : K) (table : ArrayMap K V) → copies key table ≡ 0 → get same key table ≡ none
  unfolding get
  get-absent key [] h = refl
  get-absent key ((none, v) ∷ table) h = get-absent key table h
  get-absent key ((some k, v) ∷ table) h = ground (arith, get-absent key table, h)

  -- A key that the map does not have, put into a map with room for one more entry, is found with its
  -- value, and what is found for every other key does not change. Keys are the same when equal.
  pub get-put :
      (key other : K) (value : V) (table : ArrayMap K V)
      → IsEquality same
      → get same key table ≡ none
      → 1 ≤ room table
      → other ≢ key
      → (get same key (put same key value table) ≡ some value)
        × (get same other (put same key value table) ≡ get same other table)
  unfolding get put
  get-put key other value [] q h r ne = absurd (omega arith)
  get-put key other value ((none, v) ∷ table) q h r ne =
      ground (arith, q.complete key, differs same q key other key (q.complete key) ne)
  get-put key other value ((some k, v) ∷ table) q h r ne = elim (Bool-cases (same k key)) [
    | inl t ↦ absurd (ground (arith, h, t))
    | inr f ↦
        let (stored, kept) = get-put key other value table q (ground (arith, h, f)) r ne in
        ground (arith, f, stored, kept)
  ]

  -- Deleting a key leaves none of it, when it was there once, and every other key.
  pub get-delete :
      (key other : K) (table : ArrayMap K V)
      → IsEquality same
      → copies key table ≤ 1
      → other ≢ key
      → (get same key (delete same key table) ≡ none)
        × (get same other (delete same key table) ≡ get same other table)
  unfolding get delete
  get-delete key other [] q h ne = (refl, refl)
  get-delete key other ((none, v) ∷ table) q h ne = get-delete key other table q h ne
  get-delete key other ((some k, v) ∷ table) q h ne = elim (Bool-cases (same k key)) [
    | inl t ↦
        let gone = get-absent key table (ground (arith, h, t)) in
        ground (arith, t, gone, differs same q k other key t ne)
    | inr f ↦
        let (gone, kept) = get-delete key other table q (ground (arith, h, f)) ne in
        ground (arith, f, gone, kept)
  ]

  -- A key that is not found has no entry, and one put into the map has one.
  absent-copies :
      (key : K) (table : ArrayMap K V) → get same key table ≡ none → copies key table ≡ 0
  unfolding get
  absent-copies key [] h = refl
  absent-copies key ((none, v) ∷ table) h = absent-copies key table h
  absent-copies key ((some k, v) ∷ table) h = elim (Bool-cases (same k key)) [
    | inl t ↦ absurd (ground (arith, h, t))
    | inr f ↦ ground (arith, f, absent-copies key table (ground (arith, h, f)))
  ]

  pub copies-put :
      (key : K) (value : V) (table : ArrayMap K V)
      → get same key table ≡ none
      → copies key (put same key value table) ≤ 1
  unfolding get put
  copies-put key value [] h = omega arith
  copies-put key value ((none, v) ∷ table) h = ground (arith, absent-copies key table h)
  copies-put key value ((some k, v) ∷ table) h = elim (Bool-cases (same k key)) [
    | inl t ↦ absurd (ground (arith, h, t))
    | inr f ↦ ground (arith, f, copies-put key value table (ground (arith, h, f)))
  ]
