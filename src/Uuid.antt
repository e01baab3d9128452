-- ===== src/Uuid.antt =====
-- UUIDGenerator of include_priv/utils/uuid.h.
pub mod Layout
use ymir_project.Base.{
  ℕ, zero, suc, ◌-◌, ◌%◌, Bool, true, false, ◌||◌, Option, none, some, List, [], ◌∷◌, ◌++◌, ◌==◌,
  if◌then◌else◌, get_elem?, set, replicate,
}
use ymir_project.Host.{
  ℤ, pos, negsuc, is_negative, Text, text, M, ◌>>=◌, ◌>>◌, pure, number, perform, open_path,
  close_fd, read_int, value_read, null_read,
}

-- hexDigits, with its terminator.
unfoldable pub hex_digits : Text
hex_digits = text "0123456789abcdef" ++ 0 ∷ []

-- randomNumber % 16, which has the sign of the number.
unfoldable pub rem_16 : ℤ → ℤ
rem_16 (pos n) = pos (n % 16)
rem_16 (negsuc n) = let r = suc n % 16 in if r == 0 then pos 0 else negsuc (r - 1)

-- hexDigits[i]: an index outside of the array is a fault.
unfoldable pub hex_digit : ℤ → M ℕ
hex_digit (pos i) = elim (get_elem? hex_digits i) [ none ↦ null_read | some c ↦ pure c ]
hex_digit (negsuc n) = null_read

-- The digit of one position: none when /dev/random cannot be opened or read.
unfoldable pub random_digit : M (Option ℕ)
random_digit = do
  fd ← number (open_path (text "/dev/random") (text "r"))
  if is_negative fd then pure none else (do
    result ← number (read_int fd)
    if is_negative result then (do perform (close_fd fd); pure none) else (do
      n ← number (value_read fd)
      perform (close_fd fd)
      c ← hex_digit (rem_16 n)
      pure (some c)))

unfoldable pub is_dash : ℕ → Bool
is_dash i = i == 8 || i == 13 || i == 18 || i == 23

-- What the loop stores at position i.
unfoldable pub char_at : ℕ → M (Option ℕ)
char_at i = if is_dash i then pure (some 45) else if i == 14 then pure (some 52) else random_digit

-- data_[8] = data_[13] = data_[18] = data_[23] = '-'
unfoldable pub set_dashes : Text → Text
set_dashes t = set (set (set (set t 23 45) 18 45) 13 45) 8 45

-- The loop, with `left` positions to go, and the end of generate.
unfoldable pub fill : (left i : ℕ) → Text → M Text
fill zero i t = pure (set_dashes t)
fill (suc left) i t =
    char_at i >>= λ o. elim o [ none ↦ pure [] | some c ↦ fill left (suc i) (set t i c) ]

-- generate; resize fills the 36 positions with zero bytes.
unfoldable pub generate : M Text
generate = fill 36 0 (replicate 36 0)
