-- ===== src/Examples/Tools.antt =====
-- The theorems on the mounts, the command line tool and the copy of a file, on small inputs.
use ymir_project.Base.{arith, ◌≡◌, ◌≢◌, refl, ap, ℕ, ◌≤◌, none, some, List, [], ◌∷◌}
use ymir_project.StringClass.Split.{tokens}
use ymir_project.Host.{ℤ, pos, negsuc, Text, text, World, is_zero}
use ymir_project.Host.Laws.{Returns, opened, closed}
use ymir_project.Mounts.{Mount, parse_mounts, fields_at}
use ymir_project.Mounts.Fields.{file_of, Printed, fields_at-tokens, parse_mounts-file_of}
use ymir_project.DuManager.Options.{Setting, to_container, from_path}
use ymir_project.Amx.Entry.{main}
use ymir_project.Amx.Entry.Starts.{started, deleted, main-started}
use ymir_project.Units.Files.{copy_file}
use ymir_project.Units.Files.Copies.{Documented, copy_file-Closed}

-- A file of a line that a buffer has room for, and the rest of a line.
abbrev two_lines : Text
two_lines = 1 ∷ 10 ∷ 2 ∷ 3 ∷ []

-- The command answers code 5 and two lines.
abbrev listing : World
listing tr c = record { number = pos 5; string = some two_lines; texts = [] }

fields_at-tokens_example : fields_at 4 0 (97 ∷ 32 ∷ 98 ∷ []) ≡ tokens 32 (97 ∷ 32 ∷ 98 ∷ [])
fields_at-tokens_example = fields_at-tokens 4 0 (97 ∷ 32 ∷ 98 ∷ []) (omega arith)

abbrev disk : Mount
disk = record { device = 97 ∷ []; mount_point = 47 ∷ []; fs_type = 120 ∷ []; options = 114 ∷ [] }

disk-Printed : Printed ((disk, 48 ∷ []) ∷ [])
disk-Printed = (
  (
    ((λ e. absurd (omega arith)), tt),
    ((λ e. absurd (omega arith)), tt),
    ((λ e. absurd (omega arith)), tt),
    ((λ e. absurd (omega arith)), tt),
  ),
  (
    omega arith,
    (
      omega arith,
      (
        omega arith,
        (
          omega arith,
          (omega arith, (omega arith, (omega arith, (omega arith, (omega arith, tt))))),
        ),
      ),
    ),
  ),
  (
    (λ e. absurd (omega arith)),
    (
      (λ e. absurd (omega arith)),
      (
        (λ e. absurd (omega arith)),
        (
          (λ e. absurd (omega arith)),
          (
            (λ e. absurd (omega arith)),
            (
              (λ e. absurd (omega arith)),
              (
                (λ e. absurd (omega arith)),
                ((λ e. absurd (omega arith)), ((λ e. absurd (omega arith)), tt)),
              ),
            ),
          ),
        ),
      ),
    ),
  ),
  omega arith,
  tt,
)

parse_mounts-file_of_example : parse_mounts (file_of ((disk, 48 ∷ []) ∷ [])) ≡ disk ∷ []
parse_mounts-file_of_example = parse_mounts-file_of ((disk, 48 ∷ []) ∷ []) disk-Printed

abbrev settings : List Setting
settings = from_path (text "app.tar") ∷ to_container (text "box") ∷ []

-- Every call answers 0: the file is empty.
abbrev zeros : World
zeros tr c = record { number = pos 0; string = none; texts = [] }

pos_value : ℤ → ℕ
pos_value (pos n) = n
pos_value (negsuc n) = 0

pos_injective : {n : ℕ} → pos 0 ≡ pos n → 0 ≡ n
unfolding pos_value
pos_injective e = ap pos_value e

zero_below : (n count : ℕ) → 0 ≡ n → n ≤ count
zero_below n count e = omega arith

zeros-Documented : Documented zeros
zeros-Documented =
    ((λ tr target source count n e. zero_below n count (pos_injective e)), λ tr path mode. refl)

copy_file-Closed_example :
    Returns (λ o u. (o ≢ none) × (opened u ≡ closed u)) (copy_file (text "a") (text "b") zeros [])
copy_file-Closed_example = copy_file-Closed (text "a") (text "b") zeros [] zeros-Documented refl

main-started_example :
    Returns
      (λ r u.
        (is_zero r ≡ started u)
        × (deleted u ≡ text "config" ∷ text "dm" ∷ text "parser" ∷ deleted []))
      (main zeros [])
main-started_example = main-started zeros [] refl
