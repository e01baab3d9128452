-- ===== src/Mounts/Reads.antt =====
-- What a loop over fgets reads.
use ymir_project.Base.{
  Option, some, none, arith, ℕ, zero, suc, ◌≤◌, ◌<◌, ◌≡◌, ◌≢◌, refl, ap, List, [], ◌∷◌, ◌++◌, ==_ne,
  length,
}
use ymir_project.Host.{ℤ, Text, minus_one}
use ymir_project.Buffer.Laws.{NoNul}
use ymir_project.Mounts.{fgets, up_to_nul}

-- Every buffer has a byte, and no more than there is room for.
abbrev pub AllWithin : ℕ → List Text → Type 0
AllWithin n [] = Unit {0}
AllWithin n (t ∷ ts) = (0 < length t) × (length t ≤ n) × AllWithin n ts

pub up_to_nul-NoNul : (t : Text) → NoNul t → up_to_nul t ≡ t
unfolding up_to_nul
up_to_nul-NoNul [] h = refl
up_to_nul-NoNul (c ∷ t) h = rw (==_ne c 0 (ground arith)) (ap (◌∷◌ c) (up_to_nul-NoNul t h.1))

-- What exec answers for the output and the code of a command; none is one that was not started.
abbrev pub answer_of : Option Text → ℤ → Text × ℤ
answer_of none code = ([], minus_one)
answer_of (some content) code = (content, code)

abbrev pub NoNulIn : Option Text → Type 0
NoNulIn none = Unit {0}
NoNulIn (some content) = NoNul content

-- No byte of the line ends it.
abbrev pub NoNewline : Text → Type 0
NoNewline [] = Unit {0}
NoNewline (c ∷ t) = (c ≢ 10) × NoNewline t

-- A line that the buffer has room for is read whole.
pub fgets-line :
    (n : ℕ) (l t : Text) → NoNewline l → length l < n → fgets n (l ++ 10 ∷ t) ≡ (l ++ 10 ∷ [], t)
unfolding fgets
fgets-line zero l t h lt = absurd (omega arith)
fgets-line (suc n) [] t h lt = refl
fgets-line (suc n) (c ∷ l) t h lt =
    let r = fgets-line n l t h.1 (omega arith) in
    rw (fgets, ==_ne c 10 h.0) (ap (λ z. (c ∷ z.0, z.1)) r)
