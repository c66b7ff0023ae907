-- ===== src/Queue/Tests.antt =====
-- kernel/queue.hpp: the queue at a concrete storage, and the theorems at inputs that they cover.
use uhyok_os.Base.{ℕ, ◌≡◌, refl, List, [], ◌∷◌, arith}
use uhyok_os.Errors.{success, full, empty}
use uhyok_os.Queue.{ArrayQueue, push, pop}
use uhyok_os.Queue.Bounded
use uhyok_os.Queue.Bounded.{Request, put, drop}
use uhyok_os.Queue.Invariant.{IsValid}
use uhyok_os.Queue.Refinement.{Holds, run, run_refines}

-- 8, then 9, round the end of the storage.
abbrev wrapped : ArrayQueue ℕ
wrapped = record { buf = 9 ∷ 7 ∷ 8 ∷ []; read_pos = 2; write_pos = 1; count = 2; capacity = 3 }

abbrev script : List (Request ℕ)
script = put 1 ∷ put 2 ∷ drop ∷ put 3 ∷ drop ∷ drop ∷ drop ∷ drop ∷ []

wrapped-IsValid : IsValid wrapped
wrapped-IsValid = omega arith

wrapped-Holds : Holds wrapped (8 ∷ 9 ∷ [])
wrapped-Holds = record { window = (refl, (refl, tt)); counted = refl }

run-wrapped :
    (run wrapped script).0
    ≡ success ∷ full ∷ success ∷ success ∷ success ∷ success ∷ success ∷ empty ∷ []
unfolding run push pop
run-wrapped = refl

run_refines_example :
    ((run wrapped script).0 ≡ (Bounded.run 3 (8 ∷ 9 ∷ []) script).0)
    × Holds (run wrapped script).1 (Bounded.run 3 (8 ∷ 9 ∷ []) script).1
    × IsValid (run wrapped script).1
run_refines_example = run_refines script wrapped-IsValid wrapped-Holds
