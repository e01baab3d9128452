-- ===== src/Examples/Vectors.antt =====
-- The theorems on lxcd::vector at concrete arrays.
use ymir_project.Base.{ℕ, ◌≡◌, refl, some, [], ◌∷◌}
use ymir_project.VectorClass.{Vector, vector, push_back, erase_range}
use ymir_project.VectorClass.Erase.{erase_range-Holds}
use ymir_project.VectorClass.Growth.{IsVector, Holds, push_back-Holds}

-- Three elements in an array of four, and in a full one.
abbrev roomy : Vector ℕ
roomy = vector (5 ∷ 6 ∷ 7 ∷ 0 ∷ []) 3 4

abbrev full : Vector ℕ
full = vector (5 ∷ 6 ∷ 7 ∷ []) 3 3

roomy-IsVector : IsVector roomy (5 ∷ 6 ∷ 7 ∷ [])
roomy-IsVector = record { spare = 0 ∷ []; layout = refl; sized = refl; allocated = refl }

full-IsVector : IsVector full (5 ∷ 6 ∷ 7 ∷ [])
full-IsVector = record { spare = []; layout = refl; sized = refl; allocated = refl }

push_back-Holds_example : Holds (5 ∷ 6 ∷ 7 ∷ 8 ∷ []) (push_back 0 full 8)
push_back-Holds_example = push_back-Holds 0 full (5 ∷ 6 ∷ 7 ∷ []) 8 full-IsVector

erase_range-Holds_example :
    (w : Vector ℕ) × (erase_range 0 roomy 1 2 ≡ some (w, 1)) × IsVector w (5 ∷ 7 ∷ [])
erase_range-Holds_example = erase_range-Holds 0 roomy (5 ∷ []) (6 ∷ []) (7 ∷ []) roomy-IsVector
