-- ===== src/Queue/Bounded.antt =====
-- The specification of kernel/queue.hpp: a list, oldest first, of at most `size` elements.
use uhyok_os.Base.{ℕ, List, [], ◌∷◌, ◌++◌, length, ◌==◌, if◌then◌else◌}
use uhyok_os.Errors.{Code, success, full, empty}

unfoldable pub push {ℓ} : {A : Type ℓ} → ℕ → List A → A → Code × List A
push size l x = if length l == size then (full, l) else (success, l ++ x ∷ [])

unfoldable pub pop {ℓ} : {A : Type ℓ} → List A → Code × List A
pop [] = (empty, [])
pop (x ∷ l) = (success, l)

-- What a client asks of a queue.
pub data Request {ℓ} (A : Type ℓ) : Type ℓ where
  put : A → Request A
  drop : Request A

-- A client's requests in order: the code that each returns, and the list at the end.
unfoldable pub run {ℓ} : {A : Type ℓ} → ℕ → List A → List (Request A) → List Code × List A
run size l [] = ([], l)
run size l (put x ∷ rs) =
    let (c, l') = push size l x in let (cs, end) = run size l' rs in (c ∷ cs, end)
run size l (drop ∷ rs) = let (c, l') = pop l in let (cs, end) = run size l' rs in (c ∷ cs, end)
