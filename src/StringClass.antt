-- ===== src/StringClass.antt =====
-- lxcd::string of liblxcd/string.cpp and include_priv/utils/string.h: a block and a length. An
-- operation answers `none` when it reads or writes outside a block or reads an indeterminate byte.
pub mod Represents
pub mod Resize
pub mod Slices
pub mod Split
pub mod Compare
use ymir_project.Base.{
  ℕ, zero, suc, ◌+◌, ◌-◌, ◌*◌, ◌%◌, ◌^◌, ◌≤◌, Bool, true, false, not, ◌&&◌, ◌||◌, Option, none,
  some, List, [], ◌∷◌, ◌++◌, map, ◌==◌, ltb, leb, if◌then◌else◌, length, take, drop, replicate,
  get_elem?, set,
}
use ymir_project.Buffer.{
  Cell, Block, ◌>>=◌, fresh, cstr, write_at, slice, terminated, strcpy, strcat, strncpy, strncat,
  memcpy,
}

pub record CxxString : Type 0 where
  pub data_ : Block
  pub size_ : ℕ

abbrev pub cxx_string : Block → ℕ → CxxString
cxx_string b n = record { data_ = b; size_ = n }

-- Arithmetic on size_t.
abbrev pub size_mod : ℕ
size_mod = 2 ^ 64

abbrev pub npos : ℕ
npos = 2 ^ 64 - 1

abbrev pub sub_size : ℕ → ℕ → ℕ
sub_size a b = (a + size_mod - b) % size_mod

unfoldable pub text_eq : List ℕ → List ℕ → Bool
text_eq [] [] = true
text_eq [] (d ∷ u) = false
text_eq (c ∷ t) [] = false
text_eq (c ∷ t) (d ∷ u) = (c == d) && text_eq t u

-- strcmp(t, u) < 0
unfoldable pub text_lt : List ℕ → List ℕ → Bool
text_lt [] [] = false
text_lt [] (d ∷ u) = true
text_lt (c ∷ t) [] = false
text_lt (c ∷ t) (d ∷ u) = ltb c d || ((c == d) && text_lt t u)

unfoldable pub starts_with : List ℕ → List ℕ → Bool
starts_with [] t = true
starts_with (d ∷ u) [] = false
starts_with (d ∷ u) (c ∷ t) = (d == c) && starts_with u t

-- strstr and strchr, as offsets.
unfoldable pub strstr : List ℕ → List ℕ → Option ℕ
strstr [] u = if starts_with u [] then some 0 else none
strstr (c ∷ t) u =
    let later = strstr t u >>= (λ i. some (suc i)) in
    if starts_with u (c ∷ t) then some 0 else later

unfoldable pub strchr : List ℕ → ℕ → Option ℕ
strchr [] x = if x == 0 then some 0 else none
strchr (c ∷ t) x =
    let later = strchr t x >>= (λ i. some (suc i)) in if c == x then some 0 else later

-- string()
unfoldable pub empty_string : CxxString
empty_string = cxx_string (some 0 ∷ []) 0

-- string(const char*)
unfoldable pub from_cstr : Block → Option CxxString
from_cstr str = do
  t ← cstr str
  b ← strcpy 0 (fresh (length t + 1)) str
  some (cxx_string b (length t))

-- string(const string&)
unfoldable pub copy : CxxString → Option CxxString
copy other = do b ← strcpy 0 (fresh (other.size_ + 1)) other.data_; some (cxx_string b other.size_)

-- string(const char*, size_t), the private constructor: `str` is where the bytes start.
unfoldable pub from_range : Block → ℕ → Option CxxString
from_range str size = do
  b ← strncpy (fresh (size + 1)) str size
  b ← write_at size (some 0 ∷ []) b
  some (cxx_string b size)

-- operator=(const string&); `same` says that both sides are one object.
unfoldable pub assign : Bool → CxxString → CxxString → Option CxxString
assign same s other =
    if same
    then some s
    else do b ← strcpy 0 (fresh (other.size_ + 1)) other.data_; some (cxx_string b other.size_)

-- operator=(string&&): the new value of `this` and of the source.
unfoldable pub move_assign : Bool → CxxString → CxxString → CxxString × CxxString
move_assign same s other = if same then (s, s) else (other, cxx_string [] 0)

-- operator=(const char*)
unfoldable pub assign_cstr : CxxString → Block → Option CxxString
assign_cstr s str = do
  t ← cstr str
  let r = if ltb s.size_ (length t) then cxx_string (fresh (length t + 1)) (length t) else s
  b ← strcpy 0 r.data_ str
  some (record r { data_ = b })

-- operator[]
unfoldable pub char_at : CxxString → ℕ → Option ℕ
char_at s i = do c ← get_elem? s.data_ i; c

-- operator==(const char*), operator==(const string&), operator!=, operator<
unfoldable pub eq_cstr : CxxString → Block → Option Bool
eq_cstr s str = do t ← cstr s.data_; u ← cstr str; some (text_eq t u)

-- && does not compare the bytes when the lengths differ.
unfoldable pub eq : CxxString → CxxString → Option Bool
eq s other = if s.size_ == other.size_ then eq_cstr s other.data_ else some false

unfoldable pub ne : CxxString → CxxString → Option Bool
ne s other = do b ← eq s other; some (not b)

unfoldable pub lt : CxxString → CxxString → Option Bool
lt s other = do t ← cstr s.data_; u ← cstr other.data_; some (text_lt t u)

-- operator+(const string&)
unfoldable pub plus : CxxString → CxxString → Option CxxString
plus s other = do
  let n = s.size_ + other.size_
  b ← strcpy 0 (fresh (n + 1)) s.data_
  b ← strcat b other.data_
  some (cxx_string b n)

-- operator+=(const string&) and append(const string&), whose bodies are the same.
unfoldable pub append : CxxString → CxxString → Option CxxString
append s other = do
  let n = s.size_ + other.size_
  b ← strcpy 0 (fresh (n + 1)) s.data_
  b ← strcat b other.data_
  some (cxx_string b n)

-- append(const char*, size_t)
unfoldable pub append_n : CxxString → Block → ℕ → Option CxxString
append_n s str len = do
  let n = s.size_ + len
  b ← strcpy 0 (fresh (n + 1)) s.data_
  b ← strncat b str len
  some (cxx_string b n)

-- append(const char*)
unfoldable pub append_cstr : CxxString → Block → Option CxxString
append_cstr s str = do other ← from_cstr str; append s other

-- resize(size_t), which reserve(size_t) calls. The lower branch clears what follows `size_`.
unfoldable pub resize : CxxString → ℕ → Option CxxString
resize s n =
    if leb n s.size_
    then (do b ← write_at n (some 0 ∷ []) s.data_; some (record s { data_ = b }))
    else (do
      b ← write_at s.size_ (replicate (n - s.size_ + 1) (some 0)) (fresh (n + 1))
      b ← strcpy 0 b s.data_
      some (cxx_string b n))

-- operator+=(const char*)
unfoldable pub append_assign_cstr : CxxString → Block → Option CxxString
append_assign_cstr s other = do
  t ← cstr other
  r ← resize s (s.size_ + length t)
  b ← strcat r.data_ other
  some (cxx_string b (r.size_ + length t))

-- operator+=(char)
unfoldable pub append_assign_char : CxxString → ℕ → Option CxxString
append_assign_char s c = append_assign_cstr s (some c ∷ some 0 ∷ [])

-- The loop of split: `n` indices are left, `i` is the current one, `start` begins the token.
unfoldable pub split_loop : Block → ℕ → ℕ → ℕ → ℕ → Option (List CxxString)
split_loop b x zero i start = some []
split_loop b x (suc n) i start =
    let more = split_loop b x n (suc i) start in
    let rest = split_loop b x n (suc i) (suc i) in
    do
      cell ← get_elem? b i
      c ← cell
      if (c == x) || (c == 0)
          then (do
            token ← from_range (drop start b) (i - start)
            tokens ← rest
            some (token ∷ tokens))
          else more

-- split(char)
unfoldable pub split : CxxString → ℕ → Option (List CxxString)
split s x = split_loop s.data_ x (s.size_ + 1) 0 0

-- erase(size_t, size_t); `pos + count` is computed modulo 2^64.
unfoldable pub erase : CxxString → ℕ → ℕ → Option CxxString
erase s pos count =
    if leb s.size_ pos
    then some s
    else if (count == npos) || leb s.size_ ((pos + count) % size_mod)
    then (do b ← write_at pos (some 0 ∷ []) s.data_; some (cxx_string b pos))
    else (do
      b ←
          memcpy pos s.data_ (pos + count) s.data_
            ((sub_size (sub_size s.size_ pos) count + 1) % size_mod)
      some (cxx_string b (sub_size s.size_ count)))

-- find(const string&, size_t)
unfoldable pub find : CxxString → CxxString → ℕ → Option ℕ
find s substr pos =
    if leb pos (length s.data_)
    then (do
      t ← cstr (drop pos s.data_)
      u ← cstr substr.data_
      some (elim (strstr t u) [ none ↦ npos | some i ↦ pos + i ]))
    else none

-- find(char, size_t)
unfoldable pub find_char : CxxString → ℕ → ℕ → Option ℕ
find_char s x pos =
    if leb pos (length s.data_)
    then (do
      t ← cstr (drop pos s.data_)
      some (elim (strchr t x) [ none ↦ npos | some i ↦ pos + i ]))
    else none

-- contains(const string&)
unfoldable pub contains : CxxString → CxxString → Option Bool
contains s str = do i ← find s str 0; some (not (i == npos))

-- empty(), and size() or length()
unfoldable pub is_empty : CxxString → Bool
is_empty s = s.size_ == 0

-- substr(size_t, size_t)
unfoldable pub substr : CxxString → ℕ → ℕ → Option CxxString
substr s pos len =
    let p = if ltb s.size_ pos then s.size_ else pos in
    let n = if ltb (s.size_ - p) len then s.size_ - p else len in from_range (drop p s.data_) n

-- insert(size_t, const string&); `size_ - pos` is a size_t.
unfoldable pub insert : CxxString → ℕ → CxxString → Option CxxString
insert s pos str = do
  let n = s.size_ + str.size_
  b ← memcpy 0 (fresh (n + 1)) 0 s.data_ pos
  b ← memcpy pos b 0 str.data_ str.size_
  b ← memcpy (pos + str.size_) b pos s.data_ (sub_size s.size_ pos)
  b ← write_at n (some 0 ∷ []) b
  some (cxx_string b n)

-- replace(size_t, size_t, const char*)
unfoldable pub replace : CxxString → ℕ → ℕ → Block → Option CxxString
replace s pos count str = if ltb s.size_ pos then some s else (do
  let c = if ltb s.size_ ((pos + count) % size_mod) then s.size_ - pos else count
  u ← cstr str
  let n = (sub_size s.size_ c + length u) % size_mod
  b ← strncpy (fresh (n + 1)) s.data_ pos
  b ← strcpy pos b str
  b ← strcpy (pos + length u) b (drop (pos + c) s.data_)
  some (cxx_string b n))
