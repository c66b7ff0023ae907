-- ===== src/Fat/Listing.antt =====
-- kernel/terminal.cpp, fat.cpp: what `ls` prints are whole lines.
use uhyok_os.Base.{ℕ, ◌≢◌, refl, ◌==◌, List, [], ◌∷◌, ◌++◌, get_or, arith, All, if_cases}
use uhyok_os.Terminal.{c_string}
use uhyok_os.Terminal.Cursor.{IsLine}
use uhyok_os.Fat.{DirectoryEntry, read_base, read_ext, entry_line, list_directory, long_name}

NoZero : List ℕ → Type 0
NoZero = All (λ c. c ≢ 0)

c_string-NoZero : (s : List ℕ) → NoZero (c_string s)
unfolding NoZero
c_string-NoZero [] = tt
c_string-NoZero (c ∷ s) =
    if_cases (All (λ c. c ≢ 0)) (c == 0) (λ e. tt)
      (λ e. ((λ z. absurd (ground (arith, e, z))), c_string-NoZero s))

append-NoZero : (a b : List ℕ) → NoZero a → NoZero b → NoZero (a ++ b)
unfolding NoZero
append-NoZero [] b h k = k
append-NoZero (c ∷ a) b (ne, h) k = (ne, append-NoZero a b h k)

entry_line-IsLine : (e : DirectoryEntry) → IsLine (entry_line e)
unfolding NoZero
entry_line-IsLine e =
    let base = c_string (read_base e) in
    let ext = c_string (read_ext e) in
    if_cases IsLine (get_or (read_ext e) 0 0 == 0) {x = base ++ 10 ∷ []}
      {y = base ++ 46 ∷ ext ++ 10 ∷ []}
      (λ _. record { text = base; form = refl; no_zero = c_string-NoZero (read_base e) })
      (λ _. record {
        text = base ++ 46 ∷ ext;
        form = refl;
        no_zero =
            append-NoZero base (46 ∷ ext) (c_string-NoZero (read_base e))
              ((λ e. absurd (omega (arith, e))), c_string-NoZero (read_ext e));
      })

pub list_directory-IsLine : (entries : List DirectoryEntry) → All IsLine (list_directory entries)
unfolding list_directory
list_directory-IsLine [] = tt
list_directory-IsLine (e ∷ entries) =
    let rest = list_directory-IsLine entries in
    if_cases (All IsLine) (get_or (read_base e) 0 0 == 0) (λ _. tt)
      (λ _.
        if_cases (All IsLine) (get_or (read_base e) 0 0 == 0xe5) (λ _. rest)
          (λ _.
            if_cases (All IsLine) (e.attr == long_name) (λ _. rest)
              (λ _. (entry_line-IsLine e, rest))))
