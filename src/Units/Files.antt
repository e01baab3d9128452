-- ===== src/Units/Files.antt =====
-- copy_file of liblxcd/deployment_unit.cpp, down to its calls; the unit's functions call it as one.
pub mod Copies
use ymir_project.Base.{
  ℕ, zero, suc, ◌-◌, Bool, true, false, not, Option, none, some, List, [], ◌∷◌, ltb, if◌then◌else◌,
}
use ymir_project.Host.{
  ℤ, pos, negsuc, is_minus_one, Text, text, M, ◌>>=◌, ◌>>◌, pure, number, perform, open_path,
  close_fd, file_size, send_file,
}

-- What the loop over sendfile does with an answer.
unfoldable pub when_sent : (again : ℕ → M (Option ℤ)) → ℤ → M (Option ℤ)
when_sent again (negsuc n) = pure (some (negsuc n))
when_sent again (pos n) = if ltb 0 n then again n else pure (some (pos n))

-- The loop, with `left` bytes to go: what the last call answered, if the fuel lasted.
unfoldable pub send_loop : (fuel : ℕ) → (target source : ℤ) → (left : ℕ) → M (Option ℤ)
send_loop zero target source left = pure none
send_loop (suc fuel) target source left =
    number (send_file target source left)
    >>= when_sent (λ n. send_loop fuel target source (left - n))

-- The size of a file that fstat answers, none for -1.
unfoldable pub size_of : ℤ → Option ℕ
size_of (pos n) = some n
size_of (negsuc n) = none

-- The two descriptors are open.
unfoldable pub copy_contents : (target source : ℤ) → (size : ℕ) → M (Option Bool)
copy_contents target source size = do
  last ← send_loop (suc size) target source size
  perform (close_fd source)
  perform (close_fd target)
  pure (elim last [ none ↦ none | some n ↦ some (not (is_minus_one n)) ])

-- What follows fstat.
unfoldable pub copy_to : (dst : Text) → (source : ℤ) → (size : Option ℕ) → M (Option Bool)
copy_to dst source none = do perform (close_fd source); pure (some false)
copy_to dst source (some size) = do
  target ← number (open_path dst (text "O_WRONLY|O_CREAT|O_TRUNC"))
  if is_minus_one target
      then (do perform (close_fd source); pure (some false))
      else copy_contents target source size

-- copy_file: none if the fuel did not last.
unfoldable pub copy_file : (src dst : Text) → M (Option Bool)
copy_file src dst = do
  source ← number (open_path src (text "O_RDONLY"))
  if is_minus_one source
      then pure (some false)
      else (number (file_size source) >>= λ st. copy_to dst source (size_of st))
