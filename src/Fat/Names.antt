-- ===== src/Fat/Names.antt =====
-- kernel/fat.cpp: the names of directory entries without their padding.
use uhyok_os.Base.{
  ℕ, zero, suc, ◌≤◌, ◌≡◌, ◌≢◌, refl, sym, ap, ◌∙◌, subst, List, [], ◌∷◌, ◌++◌, get_or, set, take,
  drop, length, replicate, length-append, length-take, length-drop, arith, All, ℕ_discrete,
}
use uhyok_os.Terminal.{c_string}
use uhyok_os.Fat.{DirectoryEntry, trim, read_base, read_ext}

-- A list of some length by its last element.
last_of :
    (n : ℕ) (xs : List ℕ)
    → length xs ≡ suc n
    → (ys : List ℕ) × (y : ℕ) × (xs ≡ ys ++ y ∷ []) × (length ys ≡ n)
last_of n [] h = absurd (omega (arith, h))
last_of zero (x ∷ []) h = ([], x, refl, refl)
last_of zero (x ∷ y ∷ xs) h = absurd (omega (arith, h))
last_of (suc n) (x ∷ []) h = absurd (omega (arith, h))
last_of (suc n) (x ∷ y ∷ xs) h =
    let (ys, z, e, l) = last_of n (y ∷ xs) (omega (arith, h)) in
    (x ∷ ys, z, ap (λ k. x ∷ k) e, ap suc l)

append-one : (ys : List ℕ) (y : ℕ) (zs : List ℕ) → (ys ++ y ∷ []) ++ zs ≡ ys ++ y ∷ zs
append-one [] y zs = refl
append-one (x ∷ ys) y zs = ap (λ l. x ∷ l) (append-one ys y zs)

get_or-middle : (ys : List ℕ) (y : ℕ) (zs : List ℕ) → get_or (ys ++ y ∷ zs) (length ys) 0 ≡ y
get_or-middle [] y zs = refl
get_or-middle (x ∷ ys) y zs = get_or-middle ys y zs

set-middle : (ys : List ℕ) (y v : ℕ) (zs : List ℕ) → set (ys ++ y ∷ zs) (length ys) v ≡ ys ++ v ∷ zs
set-middle [] y v zs = refl
set-middle (x ∷ ys) y v zs = ap (λ l. x ∷ l) (set-middle ys y v zs)

c_string-zero : (xs zs : List ℕ) → All (λ c. c ≢ 0) xs → c_string (xs ++ 0 ∷ zs) ≡ xs
c_string-zero [] zs h = refl
c_string-zero (x ∷ xs) zs (ne, h) = ground (arith, ne, c_string-zero xs zs h)

All-front : (ys : List ℕ) (y : ℕ) → All (λ c. c ≢ 0) (ys ++ y ∷ []) → All (λ c. c ≢ 0) ys
All-front [] y h = tt
All-front (x ∷ ys) y (ne, h) = (ne, All-front ys y h)

abbrev pub spaces : ℕ → List ℕ
spaces n = replicate n 0x20

-- A text without its spaces at the end: with `count` of them it is the whole, and it ends in none.
pub record Trimmed (whole text : List ℕ) : Type 0 where
  pub count : ℕ
  pub padded : whole ≡ text ++ spaces count
  pub last : (ys : List ℕ) (y : ℕ) → text ≡ ys ++ y ∷ [] → y ≢ 0x20

last_or : List ℕ → ℕ
last_or [] = 0
last_or (x ∷ []) = x
last_or (x ∷ y ∷ xs) = last_or (y ∷ xs)

last_or-append : (ys : List ℕ) (y : ℕ) → last_or (ys ++ y ∷ []) ≡ y
unfolding last_or
last_or-append [] y = refl
last_or-append (x ∷ []) y = refl
last_or-append (x ∷ z ∷ ys) y = last_or-append (z ∷ ys) y

spaces-suc : (n : ℕ) → spaces n ++ 0x20 ∷ [] ≡ spaces (suc n)
spaces-suc zero = refl
spaces-suc (suc n) = ap (λ l. 0x20 ∷ l) (spaces-suc n)

append_assoc : (xs ys zs : List ℕ) → (xs ++ ys) ++ zs ≡ xs ++ (ys ++ zs)
append_assoc [] ys zs = refl
append_assoc (x ∷ xs) ys zs = ap (λ l. x ∷ l) (append_assoc xs ys zs)

append-none : (xs : List ℕ) → xs ++ [] ≡ xs
append-none [] = refl
append-none (x ∷ xs) = ap (λ l. x ∷ l) (append-none xs)

-- One round of the loop.
trim-space :
    (ys zs : List ℕ) → trim (suc (length ys)) (ys ++ 0x20 ∷ zs) ≡ trim (length ys) (ys ++ 0 ∷ zs)
unfolding trim
trim-space ys zs =
    let found = get_or-middle ys 0x20 zs in
    let cleared = ap (trim (length ys)) (set-middle ys 0x20 0 zs) in ground (arith, found, cleared)

trim-other :
    (ys : List ℕ) (y : ℕ) (zs : List ℕ)
    → y ≢ 0x20
    → trim (suc (length ys)) (ys ++ y ∷ zs) ≡ ys ++ y ∷ zs
unfolding trim
trim-other ys y zs ne = let found = get_or-middle ys y zs in ground (arith, found, ne)

-- A text with one more space behind it.
one_more : (whole text : List ℕ) → Trimmed whole text → Trimmed (whole ++ 0x20 ∷ []) text
one_more whole text t = record {
  count = suc t.count;
  padded =
      ap (λ l. l ++ 0x20 ∷ []) t.padded
      ∙ append_assoc text (spaces t.count) (0x20 ∷ [])
      ∙ ap (λ l. text ++ l) (spaces-suc t.count);
  last = t.last;
}

no_space : (ys : List ℕ) (y : ℕ) → y ≢ 0x20 → Trimmed (ys ++ y ∷ []) (ys ++ y ∷ [])
no_space ys y ne = record {
  count = 0;
  padded = sym (append-none (ys ++ y ∷ []));
  last =
      λ zs z e space. ne (sym (last_or-append ys y) ∙ ap last_or e ∙ last_or-append zs z ∙ space);
}

-- A round of the loop on the last character.
round-Trimmed :
    (ys : List ℕ) (y : ℕ) (zs : List ℕ)
    → All (λ c. c ≢ 0) (ys ++ y ∷ [])
    → Trimmed ys (c_string (trim (length ys) (ys ++ 0 ∷ 0 ∷ zs)))
    → Trimmed (ys ++ y ∷ []) (c_string (trim (suc (length ys)) (ys ++ y ∷ 0 ∷ zs)))
round-Trimmed ys y zs kept rest = elim (ℕ_discrete y 0x20) [
  | yes q ↦
      subst (λ v. Trimmed (ys ++ v ∷ []) (c_string (trim (suc (length ys)) (ys ++ v ∷ 0 ∷ zs))))
        (sym q)
        (subst (λ w. Trimmed (ys ++ 0x20 ∷ []) (c_string w)) (sym (trim-space ys (0 ∷ zs)))
          (one_more ys (c_string (trim (length ys) (ys ++ 0 ∷ 0 ∷ zs))) rest))
  | no ne ↦
      subst (Trimmed (ys ++ y ∷ []))
        (sym (
          ap c_string (trim-other ys y (0 ∷ zs) ne ∙ sym (append-one ys y (0 ∷ zs)))
          ∙ c_string-zero (ys ++ y ∷ []) zs kept))
        (no_space ys y ne)
]

trim-zero : (name : List ℕ) → trim 0 name ≡ name
unfolding trim
trim-zero name = refl

nothing-Trimmed : (zs : List ℕ) → Trimmed [] (c_string (trim 0 (0 ∷ zs)))
nothing-Trimmed zs =
    subst (Trimmed []) (sym (ap c_string (trim-zero (0 ∷ zs))))
      (record { count = 0; padded = refl; last = λ ys y e. absurd (nothing ys y e) })
  where
    nothing : (ys : List ℕ) (y : ℕ) → [] ≡ ys ++ y ∷ [] → ⊥
    nothing ys y e = omega (arith, ap length e, length-append ys (y ∷ []))

trim-Trimmed :
    (i : ℕ) (xs zs : List ℕ)
    → length xs ≡ i
    → All (λ c. c ≢ 0) xs
    → Trimmed xs (c_string (trim i (xs ++ 0 ∷ zs)))
trim-Trimmed zero [] zs h kept = nothing-Trimmed zs
trim-Trimmed zero (x ∷ xs) zs h kept = absurd (omega (arith, h))
trim-Trimmed (suc i) xs zs h kept =
    let (ys, y, e, l) = last_of i xs h in
    let all_kept = subst (All (λ c. c ≢ 0)) e kept in
    let rest =
      subst (λ k. Trimmed ys (c_string (trim k (ys ++ 0 ∷ 0 ∷ zs)))) (sym l)
        (trim-Trimmed i ys (0 ∷ zs) l (All-front ys y all_kept)) in
    let last =
      subst (λ w. Trimmed (ys ++ y ∷ []) (c_string (trim (suc (length ys)) w)))
        (sym (append-one ys y (0 ∷ zs))) (round-Trimmed ys y zs all_kept rest) in
    subst (λ w. Trimmed w (c_string (trim (suc i) (w ++ 0 ∷ zs)))) (sym e)
      (subst (λ k. Trimmed (ys ++ y ∷ []) (c_string (trim (suc k) ((ys ++ y ∷ []) ++ 0 ∷ zs)))) l
        last)

All-take : (n : ℕ) (xs : List ℕ) → All (λ c. c ≢ 0) xs → All (λ c. c ≢ 0) (take n xs)
All-take zero xs h = tt
All-take (suc n) [] h = tt
All-take (suc n) (x ∷ xs) (ne, h) = (ne, All-take n xs h)

All-drop : (n : ℕ) (xs : List ℕ) → All (λ c. c ≢ 0) xs → All (λ c. c ≢ 0) (drop n xs)
All-drop zero xs h = h
All-drop (suc n) [] h = tt
All-drop (suc n) (x ∷ xs) (ne, h) = All-drop n xs h

take-all : (n : ℕ) (xs : List ℕ) → length xs ≤ n → take n xs ≡ xs
take-all zero [] h = refl
take-all zero (x ∷ xs) h = absurd (omega (arith, h))
take-all (suc n) [] h = refl
take-all (suc n) (x ∷ xs) h = ap (λ l. x ∷ l) (take-all n xs (omega (arith, h)))

-- The two parts of a short name that has no zero byte: each with spaces behind it fills its field,
-- so that the name is read back from them, and neither ends in a space.
pub read_name-Trimmed :
    (e : DirectoryEntry)
    → length e.name ≡ 11
    → All (λ c. c ≢ 0) e.name
    → Trimmed (take 8 e.name) (c_string (read_base e))
      × Trimmed (drop 8 e.name) (c_string (read_ext e))
read_name-Trimmed e eleven kept =
    let of_ext = length-drop 8 e.name in
    let all_ext = take-all 3 (drop 8 e.name) (omega (arith, of_ext, eleven)) in
    (
      trim-Trimmed 8 (take 8 e.name) [] (omega (arith, length-take 8 e.name, eleven))
          (All-take 8 e.name kept),
      subst (λ w. Trimmed w (c_string (read_ext e))) all_ext
          (trim-Trimmed 3 (take 3 (drop 8 e.name)) []
            (omega (arith, length-take 3 (drop 8 e.name), of_ext, eleven))
            (All-take 3 (drop 8 e.name) (All-drop 8 e.name kept))),
    )
