-- ===== src/Buffer.antt =====
-- Heap blocks of bytes and the C string functions of <string.h> that liblxcd/string.cpp calls.
-- A cell that was never written is `none`; reading it, or leaving the block, is a fault (`none`).
pub mod Laws
use ymir_project.Base.{
  ℕ, zero, suc, ◌+◌, ◌-◌, Bool, true, false, Option, none, some, List, [], ◌∷◌, ◌++◌, map, ◌==◌,
  leb, if◌then◌else◌, length, take, drop, replicate, min,
}

abbrev pub Cell : Type 0
Cell = Option ℕ

abbrev pub Block : Type 0
Block = List Cell

infixl 5 ◌>>=◌
abbrev pub ◌>>=◌ {ℓ κ} : {A : Type ℓ} {B : Type κ} → Option A → (A → Option B) → Option B
none >>= f = none
some a >>= f = f a

-- `new char[n]`: the bytes are indeterminate.
unfoldable pub fresh : ℕ → Block
fresh n = replicate n none

-- The bytes before the terminator, what strlen and every str* function walks over.
unfoldable pub cstr : Block → Option (List ℕ)
cstr [] = none
cstr (none ∷ b) = none
cstr (some c ∷ b) = let rest = cstr b >>= (λ t. some (c ∷ t)) in if c == 0 then some [] else rest

-- Stores `xs` from offset `i`.
unfoldable pub write_at : ℕ → List Cell → Block → Option Block
write_at i xs b =
    if leb (i + length xs) (length b)
    then some (take i b ++ (xs ++ drop (i + length xs) b))
    else none

-- The `n` cells from offset `i`; copying does not inspect them.
unfoldable pub slice : ℕ → ℕ → Block → Option (List Cell)
slice i n b = if leb (i + n) (length b) then some (take n (drop i b)) else none

abbrev pub terminated : List ℕ → List Cell
terminated t = map some t ++ some 0 ∷ []

-- strcpy(b + i, src)
unfoldable pub strcpy : ℕ → Block → Block → Option Block
strcpy i b src = do t ← cstr src; write_at i (terminated t) b

-- strcat(b, src)
unfoldable pub strcat : Block → Block → Option Block
strcat b src = do d ← cstr b; t ← cstr src; write_at (length d) (terminated t) b

-- The bytes that strncpy and strncat read from `src`: at most `n`, up to the terminator.
unfoldable pub cstr_upto : ℕ → Block → Option (List ℕ)
cstr_upto zero b = some []
cstr_upto (suc n) [] = none
cstr_upto (suc n) (none ∷ b) = none
cstr_upto (suc n) (some c ∷ b) =
    let rest = cstr_upto n b >>= (λ t. some (c ∷ t)) in if c == 0 then some [] else rest

-- strncpy(b, src, n) pads with zero bytes up to `n`.
unfoldable pub strncpy : Block → Block → ℕ → Option Block
strncpy b src n = do
  t ← cstr_upto n src
  write_at 0 (map some t ++ replicate (n - length t) (some 0)) b

-- strncat(b, src, n)
unfoldable pub strncat : Block → Block → ℕ → Option Block
strncat b src n = do d ← cstr b; t ← cstr_upto n src; write_at (length d) (terminated t) b

-- memcpy(b + i, src + j, n), and memmove when `b` and `src` are the same block.
unfoldable pub memcpy : ℕ → Block → ℕ → Block → ℕ → Option Block
memcpy i b j src n = do xs ← slice j n src; write_at i xs b
