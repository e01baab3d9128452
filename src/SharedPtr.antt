-- ===== src/SharedPtr.antt =====
-- SharedPtr, makeShared and MmapSharedPtr of include_priv/utils/sharedptr.h, on a store of counters
-- and objects. A pointer is the number of its cell; null is none.
pub mod Owners
pub mod Counters
pub mod Variables
pub mod Assignments
pub mod Steps
pub mod Mapped
use ymir_project.Base.{
  ℕ, zero, suc, ◌+◌, ◌^◌, Bool, true, false, Option, none, some, List, [], ◌∷◌, ◌++◌, ◌==◌, ltb,
  if◌then◌else◌, length, get_elem?, set,
}
use ymir_project.Buffer.{◌>>=◌}

pub record SharedPtr : Type 0 where
  pub count : Option ℕ
  pub data_ : Option ℕ

-- A counter that was deleted is none, an object that was deleted is false.
pub record Store : Type 0 where
  pub counts : List (Option ℕ)
  pub objects : List Bool

-- SharedPtr()
unfoldable pub null_ptr : SharedPtr
null_ptr = record { count = none; data_ = none }

-- SharedPtr(T* ptr): a new counter that is 1.
unfoldable pub from_pointer : Option ℕ → Store → SharedPtr × Store
from_pointer ptr st = (
  record { count = some (length st.counts); data_ = ptr },
  record st { counts = st.counts ++ some 1 ∷ [] },
)

-- makeShared: a new object, and a pointer to it.
unfoldable pub make_shared : Store → SharedPtr × Store
make_shared st =
    from_pointer (some (length st.objects)) (record st { objects = st.objects ++ true ∷ [] })

-- The value of a counter: reading a deleted one is a fault.
unfoldable pub value_at : ℕ → Store → Option ℕ
value_at c st = get_elem? st.counts c >>= λ cell. cell

-- if(count) (*count)++, where an int that grows beyond its range is a fault.
unfoldable pub share : SharedPtr → Store → Option Store
share p st = elim p.count [
  | none ↦ some st
  | some c ↦ do
    n ← value_at c st
    if ltb (suc n) (2 ^ 31)
        then some (record st { counts = set st.counts c (some (suc n)) })
        else none
]

-- delete data: null is let alone, and an object must not be deleted twice.
unfoldable pub delete_object : Option ℕ → Store → Option Store
delete_object none st = some st
delete_object (some d) st = do
  alive ← get_elem? st.objects d
  if alive then some (record st { objects = set st.objects d false }) else none

-- (*count)--, and what reset deletes when it became 0. A counter below 0 is a fault here.
unfoldable pub drop_one : ℕ → Option ℕ → ℕ → Store → Option Store
drop_one c d zero st = none
drop_one c d (suc zero) st = delete_object d (record st { counts = set st.counts c none })
drop_one c d (suc (suc n)) st = some (record st { counts = set st.counts c (some (suc n)) })

-- SharedPtr::reset, which the destructor calls: what is left of the pointer, and the store.
unfoldable pub reset : SharedPtr → Store → Option (SharedPtr × Store)
reset p st = elim p.count [
  | none ↦ some (p, st)
  | some c ↦ do n ← value_at c st; st' ← drop_one c p.data_ n st; some (null_ptr, st')
]

unfoldable pub is_null : SharedPtr → Bool
is_null p = elim p.data_ [ none ↦ true | some d ↦ false ]

-- use_count
unfoldable pub use_count : SharedPtr → Store → Option ℕ
use_count p st = elim p.count [ none ↦ some 0 | some c ↦ value_at c st ]

-- The variables of a program that hold shared pointers, the newest first, and the store.
pub record Memory : Type 0 where
  pub vars : List SharedPtr
  pub store : Store

-- SharedPtr(const SharedPtr& other), as a new variable.
unfoldable pub copy_construct : ℕ → Memory → Option Memory
copy_construct j m = do
  other ← get_elem? m.vars j
  st ← share other m.store
  some (record { vars = other ∷ m.vars; store = st })

-- SharedPtr(SharedPtr&& other), as a new variable.
unfoldable pub move_construct : ℕ → Memory → Option Memory
move_construct j m = do
  other ← get_elem? m.vars j
  some (record m { vars = other ∷ set m.vars j null_ptr })

-- reset on the i-th variable.
unfoldable pub reset_var : ℕ → Memory → Option Memory
reset_var i m = do
  p ← get_elem? m.vars i
  r ← reset p m.store
  some (record { vars = set m.vars i r.0; store = r.1 })

-- operator=(const SharedPtr& other): other is read after the reset.
unfoldable pub copy_assign : ℕ → ℕ → Memory → Option Memory
copy_assign i j m = if i == j then some m else (do
  m' ← reset_var i m
  other ← get_elem? m'.vars j
  st ← share other m'.store
  some (record { vars = set m'.vars i other; store = st }))

-- operator=(SharedPtr&& other)
unfoldable pub move_assign : ℕ → ℕ → Memory → Option Memory
move_assign i j m = if i == j then some m else (do
  m' ← reset_var i m
  other ← get_elem? m'.vars j
  some (record m' { vars = set (set m'.vars i other) j null_ptr }))

-- What a program does with its variables. `make i` is `v = makeShared<T>(...)`, whose temporary is
-- moved; `leave` is the end of the newest variable.
pub data Step : Type 0 where
  declare leave : Step
  make copy move clear : ℕ → Step
  assign assign_move : (i j : ℕ) → Step

unfoldable pub step : Step → Memory → Option Memory
step declare m = some (record m { vars = null_ptr ∷ m.vars })
step (make i) m = do
  m' ← reset_var i (record m { store = (make_shared m.store).1 })
  some (record m' { vars = set m'.vars i (make_shared m.store).0 })
step (copy j) m = copy_construct j m
step (move j) m = move_construct j m
step (assign i j) m = copy_assign i j m
step (assign_move i j) m = move_assign i j m
step (clear i) m = reset_var i m
step leave m = elim m.vars [
  | [] ↦ none
  | p ∷ ps ↦ do r ← reset p m.store; some (record { vars = ps; store = r.1 })
]

unfoldable pub steps : List Step → Memory → Option Memory
steps [] m = some m
steps (s ∷ ss) m = step s m >>= steps ss

-- MmapSharedPtr(): the mapping is an object. When mmap fails, the counter is deleted, and the throw
-- runs the destructor of the base class on what was set so far, whose object is no mapping.
unfoldable pub construct_mapped : (mapped : Bool) → Store → Option (Option SharedPtr × Store)
construct_mapped mapped st =
    if mapped
    then (let made = make_shared st in some (some made.0, made.1))
    else (let c = length st.counts in
        let deleted : Store = record st { counts = st.counts ++ none ∷ [] } in
        do
          r ← reset (record { count = some c; data_ = some (length st.objects) }) deleted
          some (none, r.1))

-- MmapSharedPtr::reset, which also clears a pointer that has no counter.
unfoldable pub reset_mapped : SharedPtr → Store → Option (SharedPtr × Store)
reset_mapped p st = do r ← reset p st; some (null_ptr, r.1)
