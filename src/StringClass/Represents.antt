-- ===== src/StringClass/Represents.antt =====
-- When a string object stands for a text, and the constructors, copies and concatenations that
-- yield such an object.
use ymir_project.Base.{
  ℕ, ◌+◌, ◌≡◌, refl, Bool, true, false, Option, none, some, List, [], ◌∷◌, ◌++◌, map, arith,
  append_assoc, map-append, length, drop, length-append, length-drop,
}
use ymir_project.Buffer.{Block, ◌>>=◌, fresh, cstr, terminated, strcpy, strcat}
use ymir_project.Buffer.Laws.{
  NoNul, NoNul-append, length-fresh, cstr-terminated, strcpy-fresh, strcpy_room, strcat_room,
}
use ymir_project.StringClass.{CxxString, cxx_string, from_cstr, copy, assign, plus, append}

-- The block starts with `t` and a terminator, and `size_` is the length of `t`.
pub record Represents (s : CxxString) (t : List ℕ) : Type 0 where
  pub rest : Block
  pub layout : s.data_ ≡ map some t ++ some 0 ∷ rest
  pub sized : s.size_ ≡ length t
  pub clean : NoNul t

-- The computation does not fault, and its result has the property.
abbrev pub Yields : {A : Type 0} → (A → Type 0) → Option A → Type 0
Yields P none = ⊥
Yields P (some a) = P a

-- A result that is only wrapped keeps its property.
pub Yields-wrap :
    {A B : Type 0} (Q : B → Type 0) (g : A → B) (m : Option A)
    → Yields (λ a. Q (g a)) m
    → Yields Q (m >>= λ a. some (g a))
Yields-wrap Q g none h = h
Yields-wrap Q g (some a) h = h

abbrev pub Stands : List ℕ → Option CxxString → Type 0
Stands t = Yields (λ s. Represents s t)

pub cstr-data_ : {s : CxxString} {t : List ℕ} → Represents s t → cstr s.data_ ≡ some t
cstr-data_ {s} {t} r = rw r.layout (cstr-terminated t r.rest r.clean)

pub Represents-terminated :
    (t : List ℕ) (n : ℕ) → n ≡ length t → NoNul t → Represents (cxx_string (terminated t) n) t
Represents-terminated t n e clean = record { rest = []; layout = refl; sized = e; clean = clean }

pub from_cstr-Stands :
    (t : List ℕ) (str : Block) → NoNul t → cstr str ≡ some t → Stands t (from_cstr str)
unfolding from_cstr
from_cstr-Stands t str clean e =
    rw (e, strcpy-fresh (length t + 1) t str e refl) (Represents-terminated t (length t) refl clean)

-- string(const string&) and operator=(const string&): the new object stands for the same text,
-- and so it does when an object is assigned to itself.
pub assign-Stands :
    (same : Bool) (s other : CxxString) (t : List ℕ)
    → Represents other t
    → (same ≡ true → s ≡ other)
    → Stands t (copy other) × Stands t (assign same s other)
unfolding assign copy
assign-Stands true s other t r alias =
    rw
      (
        strcpy-fresh (other.size_ + 1) t other.data_ (cstr-data_ r) (omega (arith, r.sized)),
        alias refl,
      )
      (Represents-terminated t other.size_ r.sized r.clean, r)
assign-Stands false s other t r alias =
    rw (strcpy-fresh (other.size_ + 1) t other.data_ (cstr-data_ r) (omega (arith, r.sized))) (
      Represents-terminated t other.size_ r.sized r.clean,
      Represents-terminated t other.size_ r.sized r.clean,
    )

pub joined :
    (t u : List ℕ) (r : Block) → map some t ++ (terminated u ++ r) ≡ map some (t ++ u) ++ some 0 ∷ r
joined t u r = simp (map-append, append_assoc)

module _ {a b : CxxString} {t u : List ℕ} (r : Represents a t) (q : Represents b u) where
  first :
      strcpy 0 (fresh (a.size_ + b.size_ + 1)) a.data_
      ≡ some (map some t ++ some 0 ∷ drop (length t + 1) (fresh (a.size_ + b.size_ + 1)))
  first =
      strcpy_room t (fresh (a.size_ + b.size_ + 1)) a.data_ (cstr-data_ r)
        (omega (arith, length-fresh (a.size_ + b.size_ + 1), r.sized))

  second :
      strcat (map some t ++ some 0 ∷ drop (length t + 1) (fresh (a.size_ + b.size_ + 1))) b.data_
      ≡ some (
          map some t
          ++ (terminated u
              ++ drop (length u) (drop (length t + 1) (fresh (a.size_ + b.size_ + 1)))))
  second =
      strcat_room t u (drop (length t + 1) (fresh (a.size_ + b.size_ + 1))) b.data_ r.clean
        (cstr-data_ q)
        (omega (
          arith,
          length-fresh (a.size_ + b.size_ + 1),
          r.sized,
          q.sized,
          length-drop (length t + 1) (fresh (a.size_ + b.size_ + 1)),
        ))

  -- operator+ and append of two objects do not fault, and yield an object that stands for the one
  -- text followed by the other.
  pub plus-Stands : Stands (t ++ u) (plus a b) × Stands (t ++ u) (append a b)
  unfolding plus append
  plus-Stands = rw (first, second) (both, both)
    where
      both :
          Represents
            (cxx_string
              (map some t
                ++ (terminated u
                    ++ drop (length u) (drop (length t + 1) (fresh (a.size_ + b.size_ + 1)))))
              (a.size_ + b.size_))
            (t ++ u)
      both = record {
        rest = drop (length u) (drop (length t + 1) (fresh (a.size_ + b.size_ + 1)));
        layout = joined t u _;
        sized = omega (arith, length-append t u, r.sized, q.sized);
        clean = NoNul-append t u r.clean q.clean;
      }
