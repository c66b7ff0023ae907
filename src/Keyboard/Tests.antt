-- ===== src/Keyboard/Tests.antt =====
-- kernel/keyboard.cpp: keys at concrete modifiers.
use uhyok_os.Base.{◌≡◌, refl}
use uhyok_os.Keyboard.{ascii_of}

-- The key `a`, alone and with the right shift.
letter : ascii_of 0 4 ≡ 97
letter = refl

shifted : ascii_of 0x20 4 ≡ 65
shifted = refl

-- The key for the end of a line, and a key of no character.
enter : ascii_of 0x10 40 ≡ 10
enter = refl

no_character : ascii_of 0 0x52 ≡ 0
no_character = refl
