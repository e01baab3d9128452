-- ===== src/Mounts.antt =====
-- exec, parseProcMounts and getProcMountPoints of include_priv/utils/linux.h, on what fgets reads.
pub mod Reads
pub mod Fields
use ymir_project.Base.{
  ℕ, zero, suc, ◌+◌, ◌-◌, Bool, true, false, Option, none, some, List, [], ◌∷◌, ◌++◌, map, ◌==◌,
  if◌then◌else◌, length, take, drop,
}
use ymir_project.Host.{ℤ, minus_one, Text, M, ◌>>=◌, pure, ask, popen_cmd, null_read}

-- fgets with a buffer that has room for so many bytes and the terminator: the bytes up to the first
-- newline, and what is left of the file.
unfoldable pub fgets : (room : ℕ) → Text → Text × Text
fgets zero t = ([], t)
fgets (suc room) [] = ([], [])
fgets (suc room) (c ∷ t) =
    let rest = fgets room t in if c == 10 then (c ∷ [], t) else (c ∷ rest.0, rest.1)

-- The buffers of a loop over fgets, until the end of the file.
unfoldable pub reads : (fuel room : ℕ) → Text → List Text
reads zero room t = []
reads (suc fuel) room [] = []
reads (suc fuel) room (c ∷ t) = let r = fgets room (c ∷ t) in r.0 ∷ reads fuel room r.1

-- The text of a buffer ends at its terminator.
unfoldable pub up_to_nul : Text → Text
up_to_nul [] = []
up_to_nul (c ∷ t) = let rest = up_to_nul t in if c == 0 then [] else c ∷ rest

unfoldable pub concat : List Text → Text
concat [] = []
concat (t ∷ ts) = t ++ concat ts

-- The loop of exec.
unfoldable pub output_of : Text → Text
output_of content = concat (map up_to_nul (reads (length content) 127 content))

-- exec, for what popen gives: a command that cannot be started has no output to read, and -1 is its
-- code. The output is the text up to the terminator of the string.
unfoldable pub result_of : Option Text → ℤ → M (Text × ℤ)
result_of none code = pure ([], minus_one)
result_of (some content) code = pure (output_of content, code)

unfoldable pub exec : Text → M (Text × ℤ)
exec cmd = ask (popen_cmd cmd) >>= λ a. result_of a.string a.number

pub record Mount : Type 0 where
  pub device : Text
  pub mount_point : Text
  pub fs_type : Text
  pub options : Text

-- The first place of a byte.
unfoldable pub index_of : ℕ → Text → Option ℕ
index_of x [] = none
index_of x (c ∷ t) =
    let rest : Option ℕ = elim (index_of x t) [ none ↦ none | some i ↦ some (suc i) ] in
    if c == x then some 0 else rest

-- line.find(" ", pos)
unfoldable pub find_blank : (pos : ℕ) → Text → Option ℕ
find_blank pos line = elim (index_of 32 (drop pos line)) [ none ↦ none | some i ↦ some (pos + i) ]

-- The loop of parseProcMounts over the blanks of a line.
unfoldable pub fields_at : (fuel pos : ℕ) → Text → List Text
fields_at zero pos line = []
fields_at (suc fuel) pos line = elim (find_blank pos line) [
  | none ↦ drop pos line ∷ []
  | some next ↦ take (next - pos) (drop pos line) ∷ fields_at fuel (suc next) line
]

-- The entry that a line adds, if it has four fields.
unfoldable pub entry_of : List Text → List Mount
entry_of (d ∷ p ∷ f ∷ o ∷ ts) =
    record { device = d; mount_point = p; fs_type = f; options = o } ∷ []
entry_of _ = []

unfoldable pub entries : List Text → List Mount
entries [] = []
entries (buf ∷ bufs) =
    let line = up_to_nul buf in entry_of (fields_at (suc (length line)) 0 line) ++ entries bufs

unfoldable pub parse_mounts : Text → List Mount
parse_mounts content = entries (reads (length content) 1023 content)

-- parseProcMounts reads from a file that could not be opened all the same.
unfoldable pub parse_proc_mounts : Option Text → M (List Mount)
parse_proc_mounts none = null_read
parse_proc_mounts (some content) = pure (parse_mounts content)

-- getProcMountPoints
unfoldable pub get_proc_mount_points : Option Text → M (List Text)
get_proc_mount_points file = parse_proc_mounts file >>= λ ms. pure (map (λ m. m.mount_point) ms)
