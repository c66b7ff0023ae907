-- ===== src/Keyboard.antt =====
-- kernel/keyboard.cpp: the characters of the keys, and the message for a key that is pushed.
mod Tests
use Prim.Native.Nat.{bit_and}
use uhyok_os.Base.{ℕ, Bool, not, ◌==◌, ◌+◌, if◌then◌else◌, List, [], ◌∷◌, get_or}
use uhyok_os.Message.{Message, key_push}

-- The tables of 256 characters; what is not listed is 0.
abbrev pub keycode_map : List ℕ
keycode_map =
    0 ∷ 0 ∷ 0 ∷ 0 ∷ 97 ∷ 98 ∷ 99 ∷ 100 ∷ 101 ∷ 102 ∷ 103 ∷ 104 ∷ 105 ∷ 106 ∷ 107 ∷ 108 ∷ 109 ∷ 110
    ∷ 111 ∷ 112 ∷ 113 ∷ 114 ∷ 115 ∷ 116 ∷ 117 ∷ 118 ∷ 119 ∷ 120 ∷ 121 ∷ 122 ∷ 49 ∷ 50 ∷ 51 ∷ 52 ∷ 53
    ∷ 54 ∷ 55 ∷ 56 ∷ 57 ∷ 48 ∷ 10 ∷ 8 ∷ 8 ∷ 9 ∷ 32 ∷ 45 ∷ 61 ∷ 91 ∷ 93 ∷ 92 ∷ 35 ∷ 59 ∷ 39 ∷ 96 ∷ 44
    ∷ 46 ∷ 47 ∷ 0 ∷ 0 ∷ 0 ∷ 0 ∷ 0 ∷ 0 ∷ 0 ∷ 0 ∷ 0 ∷ 0 ∷ 0 ∷ 0 ∷ 0 ∷ 0 ∷ 0 ∷ 0 ∷ 0 ∷ 0 ∷ 0 ∷ 0 ∷ 0
    ∷ 0 ∷ 0 ∷ 0 ∷ 0 ∷ 0 ∷ 0 ∷ 47 ∷ 42 ∷ 45 ∷ 43 ∷ 10 ∷ 49 ∷ 50 ∷ 51 ∷ 52 ∷ 53 ∷ 54 ∷ 55 ∷ 56 ∷ 57
    ∷ 48 ∷ 46 ∷ 92 ∷ 0 ∷ 0 ∷ 61 ∷ []

abbrev pub keycode_map_shifted : List ℕ
keycode_map_shifted =
    0 ∷ 0 ∷ 0 ∷ 0 ∷ 65 ∷ 66 ∷ 67 ∷ 68 ∷ 69 ∷ 70 ∷ 71 ∷ 72 ∷ 73 ∷ 74 ∷ 75 ∷ 76 ∷ 77 ∷ 78 ∷ 79 ∷ 80
    ∷ 81 ∷ 82 ∷ 83 ∷ 84 ∷ 85 ∷ 86 ∷ 87 ∷ 88 ∷ 89 ∷ 90 ∷ 33 ∷ 64 ∷ 35 ∷ 36 ∷ 37 ∷ 94 ∷ 38 ∷ 42 ∷ 40
    ∷ 41 ∷ 10 ∷ 8 ∷ 8 ∷ 9 ∷ 32 ∷ 95 ∷ 43 ∷ 123 ∷ 125 ∷ 124 ∷ 126 ∷ 58 ∷ 34 ∷ 126 ∷ 60 ∷ 62 ∷ 63 ∷ 0
    ∷ 0 ∷ 0 ∷ 0 ∷ 0 ∷ 0 ∷ 0 ∷ 0 ∷ 0 ∷ 0 ∷ 0 ∷ 0 ∷ 0 ∷ 0 ∷ 0 ∷ 0 ∷ 0 ∷ 0 ∷ 0 ∷ 0 ∷ 0 ∷ 0 ∷ 0 ∷ 0 ∷ 0
    ∷ 0 ∷ 0 ∷ 47 ∷ 42 ∷ 45 ∷ 43 ∷ 10 ∷ 49 ∷ 50 ∷ 51 ∷ 52 ∷ 53 ∷ 54 ∷ 55 ∷ 56 ∷ 57 ∷ 48 ∷ 46 ∷ 92 ∷ 0
    ∷ 0 ∷ 61 ∷ []

abbrev pub l_shift_bit_mask : ℕ
l_shift_bit_mask = 0x02

abbrev pub r_shift_bit_mask : ℕ
r_shift_bit_mask = 0x20

abbrev pub is_shift : ℕ → Bool
is_shift modifier = not (bit_and modifier (l_shift_bit_mask + r_shift_bit_mask) == 0)

abbrev pub ascii_of : ℕ → ℕ → ℕ
ascii_of modifier keycode =
    if is_shift modifier then get_or keycode_map_shifted keycode 0 else get_or keycode_map keycode 0

-- The observer of `InitializeKeyboard`: the task that the message is sent to, and the message.
abbrev pub on_key_push : ℕ → ℕ → ℕ × Message
on_key_push modifier keycode =
    (1, record { body = key_push modifier keycode (ascii_of modifier keycode); src_task = 0 })
