-- ===== src/DuManager/Options.antt =====
-- The options of --install.
use Prim.Native.Nat.{max}
use ymir_project.Base.{length, ◌≡◌, false, some, List, [], ◌∷◌}
use ymir_project.StringClass.{text_eq}
use ymir_project.Host.{Text, text}
use ymir_project.DuManager.{InstallArgs}

-- An option with its value.
pub data Setting : Type 0 where
  to_container from_path with_uuid : Text → Setting

abbrev pub words : List Setting → List Text
words [] = []
words (to_container v ∷ ss) = text "-e" ∷ v ∷ words ss
words (from_path v ∷ ss) = text "-d" ∷ v ∷ words ss
words (with_uuid v ∷ ss) = text "-u" ∷ v ∷ words ss

-- What the options set: the last one of a kind wins, but the size that the identifier records is that of
-- the longest one.
abbrev pub applied : List Setting → InstallArgs → InstallArgs
applied [] s = s
applied (to_container v ∷ ss) s = applied ss (record s { container = some v })
applied (from_path v ∷ ss) s = applied ss (record s { path = some v })
applied (with_uuid v ∷ ss) s =
    applied ss (record s { uuid = v; uuid_size = max s.uuid_size (length v) })

-- A word that is none of the options.
abbrev pub Unknown : Text → Type 0
Unknown w =
    (text_eq w (text "-e") ≡ false)
    × (text_eq w (text "-d") ≡ false)
    × (text_eq w (text "-u") ≡ false)
