-- ===== src/Terminal/Tests.antt =====
-- kernel/terminal.cpp: the terminal at concrete keys.
use uhyok_os.Base.{ℕ, ◌≡◌, refl, List, [], ◌∷◌, some, arith}
use uhyok_os.Terminal.{Terminal, Listings}
use uhyok_os.Terminal.Cursor.{AreLines}
use uhyok_os.Terminal.Keys.{new}
use uhyok_os.Terminal.Validity.{IsValid}
use uhyok_os.Terminal.Session.{input_keys, input_keys-IsValid}

-- A directory with one file, "a".
abbrev one_file : Listings
one_file = record { devices = []; files = (97 ∷ 10 ∷ []) ∷ [] }

one_file-AreLines : AreLines one_file
one_file-AreLines = record {
  devices = tt;
  files =
      (record { text = 97 ∷ []; form = refl; no_zero = (λ e. absurd (omega (arith, e)), tt) }, tt);
}

-- "ls", a backspace, and the arrow up.
abbrev keys : List (ℕ × ℕ)
keys = (15, 108) ∷ (22, 115) ∷ (42, 8) ∷ (40, 10) ∷ (0x52, 0) ∷ []

input_keys-IsValid_example :
    (t : Terminal) × (input_keys one_file ((40, 10) ∷ keys) new ≡ some t) × IsValid t
input_keys-IsValid_example = input_keys-IsValid one_file 40 keys one_file-AreLines
