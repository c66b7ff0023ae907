-- ===== src/Console/Tests.antt =====
-- kernel/console.cpp: a line of text on a new console.
use uhyok_os.Base.{ℕ, List, [], ◌∷◌, ◌≡◌, refl}
use uhyok_os.Console.{init, put_string, put_char, newline}
use uhyok_os.Console.Bounds.{IsValid, put_string-IsValid, init-IsValid}

abbrev greeting : List ℕ
greeting = 104 ∷ 105 ∷ 10 ∷ 33 ∷ []

cursor_after : (put_string greeting init).cursor_row ≡ 1
unfolding put_string put_char newline init
cursor_after = refl

put_string-IsValid_example : IsValid (put_string greeting init)
put_string-IsValid_example = put_string-IsValid greeting init init-IsValid
