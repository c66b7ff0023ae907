-- ===== src/Usb/ArrayMap.antt =====
-- kernel/usb/arraymap.hpp: `ArrayMap`, a map in an array of a fixed length.
pub mod Entries
use uhyok_os.Base.{
  ℕ, suc, ◌+◌, ◌≤◌, ◌≡◌, ◌≢◌, refl, Bool, true, false, List, [], ◌∷◌, Option, none, some, arith,
  if◌then◌else◌, replicate, Bool-cases, inl, inr,
}

-- The entries; one with no key is free, and keeps its value.
abbrev pub ArrayMap {ℓ κ} : Type ℓ → Type κ → Type (ℓ ⊔ κ)
ArrayMap K V = List (Option K × V)

abbrev pub init {ℓ κ} : {K : Type ℓ} {V : Type κ} → ℕ → V → ArrayMap K V
init n default = replicate n (none, default)

module _ {ℓ κ} {K : Type ℓ} {V : Type κ} (same : K → K → Bool) where
  unfoldable pub get : K → ArrayMap K V → Option V
  get key [] = none
  get key ((none, v) ∷ table) = get key table
  get key ((some k, v) ∷ table) = if same k key then some v else get key table

  pub put : K → V → ArrayMap K V → ArrayMap K V
  put key value [] = []
  put key value ((none, v) ∷ table) = (some key, value) ∷ table
  put key value ((some k, v) ∷ table) = (some k, v) ∷ put key value table

  pub delete : K → ArrayMap K V → ArrayMap K V
  delete key [] = []
  delete key ((none, v) ∷ table) = (none, v) ∷ delete key table
  delete key ((some k, v) ∷ table) =
      let rest = delete key table in if same k key then (none, v) ∷ table else (some k, v) ∷ rest
