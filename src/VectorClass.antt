-- ===== src/VectorClass.antt =====
-- lxcd::vector of include_priv/utils/vector.h and impl_vector.hpp. Iterators are indices into the
-- array. An operation answers `none` when it reads or writes outside the array.
pub mod Arrays
pub mod Growth
pub mod Erase
use ymir_project.Base.{
  ℕ, zero, suc, ◌+◌, ◌-◌, ◌*◌, Bool, true, false, Option, none, some, List, [], ◌∷◌, ◌++◌, ◌==◌,
  ltb, leb, if◌then◌else◌, length, get_elem?, set, replicate,
}
use ymir_project.Buffer.{◌>>=◌}

module _ {ℓ} {A : Type ℓ} where
  -- cells[i] = x
  unfoldable pub store : List A → ℕ → A → Option (List A)
  store cells i x = if ltb i (length cells) then some (set cells i x) else none

  -- for (k = 0; k < n; ++k) dst[i + k] = src[j + k], upwards; `dst` and `src` are two arrays.
  unfoldable pub copy_loop : ℕ → ℕ → List A → List A → Option (List A)
  copy_loop zero i dst src = some dst
  copy_loop (suc n) i dst src = do
    x ← get_elem? src i
    dst ← store dst i x
    copy_loop n (suc i) dst src

  -- The loop of erase: elements move down within one array, `n` of them, from `j` to `i`.
  unfoldable pub shift_loop : ℕ → ℕ → ℕ → List A → Option (List A)
  shift_loop zero i j cells = some cells
  shift_loop (suc n) i j cells = do
    x ← get_elem? cells j
    cells ← store cells i x
    shift_loop n (suc i) (suc j) cells

  -- Fills the cells from `i`.
  unfoldable pub fill_loop : ℕ → ℕ → A → List A → Option (List A)
  fill_loop zero i x cells = some cells
  fill_loop (suc n) i x cells = do cells ← store cells i x; fill_loop n (suc i) x cells

  -- memmove(cells + i + 1, cells + i, n): downwards, so that no cell is overwritten before it moved.
  unfoldable pub move_up : ℕ → ℕ → List A → Option (List A)
  move_up zero i cells = some cells
  move_up (suc n) i cells = do
    x ← get_elem? cells (i + n)
    cells ← store cells (i + n + 1) x
    move_up n i cells

pub record Vector {ℓ} (A : Type ℓ) : Type ℓ where
  pub data_ : List A
  pub size_ : ℕ
  pub capacity_ : ℕ

abbrev pub vector {ℓ} : {A : Type ℓ} → List A → ℕ → ℕ → Vector A
vector xs n c = record { data_ = xs; size_ = n; capacity_ = c }

-- `blank` is T(), which `new T[n]` puts into each cell of a class type.
module _ {ℓ} {A : Type ℓ} (blank : A) where
  -- vector(): the null array has no cell.
  unfoldable pub empty_vector : Vector A
  empty_vector = vector [] 0 0

  -- vector(size_t) and vector(size_t, const T&)
  unfoldable pub sized_vector : ℕ → Vector A
  sized_vector n = vector (replicate n blank) n n

  unfoldable pub filled_vector : ℕ → A → Option (Vector A)
  filled_vector n x = do cells ← fill_loop n 0 x (replicate n blank); some (vector cells n n)

  -- vector(T*, size_t)
  unfoldable pub from_array : List A → ℕ → Option (Vector A)
  from_array arr n = do
    cells ← copy_loop n 0 (replicate (n * 2) blank) arr
    some (vector cells n (n * 2))

  -- vector(const vector<T>&)
  unfoldable pub copy : Vector A → Option (Vector A)
  copy v = do
    cells ← copy_loop v.size_ 0 (replicate v.capacity_ blank) v.data_
    some (vector cells v.size_ v.capacity_)

  -- operator=; `same` says that both sides are one object.
  unfoldable pub assign : Bool → Vector A → Vector A → Option (Vector A)
  assign same v other = if same then some v else do
    cells ← copy_loop other.size_ 0 (replicate other.capacity_ blank) other.data_
    some (vector cells other.size_ other.capacity_)

  -- operator[]
  unfoldable pub at : Vector A → ℕ → Option A
  at v i = get_elem? v.data_ i

  unfoldable pub reserve : Vector A → ℕ → Option (Vector A)
  reserve v capacity =
      if ltb v.capacity_ capacity
      then (do
        cells ← copy_loop v.size_ 0 (replicate capacity blank) v.data_
        some (vector cells v.size_ capacity))
      else some v

  -- The argument is an object outside the vector, since the growth deletes the cells.
  unfoldable pub push_back : Vector A → A → Option (Vector A)
  push_back v x = do
    v ←
        if v.size_ == v.capacity_
        then reserve v (if v.capacity_ == 0 then 1 else v.capacity_ * 2)
        else some v
    cells ← store v.data_ v.size_ x
    some (record v { data_ = cells; size_ = v.size_ + 1 })

  -- push_back(v[i]): a growth deletes the element before it is read.
  unfoldable push_back_element : Vector A → ℕ → Option (Vector A)
  push_back_element v i = if v.size_ == v.capacity_ then none else (do x ← at v i; push_back v x)

  unfoldable pub pop_back : Vector A → Vector A
  pop_back v = if ltb 0 v.size_ then record v { size_ = v.size_ - 1 } else v

  unfoldable pub pop_times : ℕ → Vector A → Vector A
  pop_times zero v = v
  pop_times (suc n) v = pop_times n (pop_back v)

  -- empty()
  unfoldable pub is_empty : Vector A → Bool
  is_empty v = v.size_ == 0

  unfoldable pub resize : Vector A → ℕ → Option (Vector A)
  resize v n =
      if ltb v.size_ n
      then (do
        r ← reserve v n
        cells ← fill_loop (n - r.size_) r.size_ blank r.data_
        some (record r { data_ = cells; size_ = n }))
      else some (record v { size_ = n })

  -- erase(pos): the new vector and the iterator that it returns.
  unfoldable pub erase : Vector A → ℕ → Option (Vector A × ℕ)
  erase v pos = if pos == v.size_ then some (v, v.size_) else (do
    cells ← shift_loop (v.size_ - (pos + 1)) pos (pos + 1) v.data_
    some (pop_back (record v { data_ = cells }), pos + 1))

  -- erase(first, last)
  unfoldable pub erase_range : Vector A → ℕ → ℕ → Option (Vector A × ℕ)
  erase_range v first last = if first == last then some (v, last) else (do
    cells ← shift_loop (v.size_ - last) first last v.data_
    some (pop_times (last - first) (record v { data_ = cells }), first))

  -- insert(pos, value)
  unfoldable pub insert : Vector A → ℕ → A → Option (Vector A)
  insert v index x = do
    v ← if v.size_ == v.capacity_ then reserve v (v.capacity_ * 2) else some v
    cells ← move_up (v.size_ - index) index v.data_
    cells ← store cells index x
    some (record v { data_ = cells; size_ = v.size_ + 1 })

  unfoldable pub clear : Vector A → Vector A
  clear v = record v { size_ = 0 }
