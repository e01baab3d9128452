-- ===== src/Host/Laws.antt =====
-- Reading a trace: the descriptors that were opened and closed, and the commands that were run.
use ymir_project.Base.{◌≡◌, refl, Option, none, some, List, [], ◌∷◌, ◌++◌, if◌then◌else◌}
use ymir_project.Host.{
  M, ◌>>=◌, cstring_of, text_or_null, ℤ, is_negative, Text, Call, open_path, close_fd, system_cmd,
  Trace, World, Outcome, ret, exited, fault, and_then,
}

abbrev pub opened_by : Call → ℤ → List ℤ
opened_by (open_path p m) fd = if is_negative fd then [] else fd ∷ []
opened_by _ fd = []

-- The descriptors that open answered, newest first.
abbrev pub opened : Trace → List ℤ
opened [] = []
opened ((c, a) ∷ tr) = opened_by c a.number ++ opened tr

abbrev pub closed_by : Call → List ℤ
closed_by (close_fd fd) = fd ∷ []
closed_by _ = []

-- The descriptors that were given to close, newest first.
abbrev pub closed : Trace → List ℤ
closed [] = []
closed ((c, a) ∷ tr) = closed_by c ++ closed tr

abbrev pub command_of : Call → List Text
command_of (system_cmd c) = c ∷ []
command_of _ = []

-- The commands that were handed to system(), newest first.
abbrev pub commands : Trace → List Text
commands [] = []
commands ((c, a) ∷ tr) = command_of c ++ commands tr

-- A postcondition of the runs that return; an exit or a null read has none.
abbrev pub Post : {A : Type 0} → (A → Trace → Type 0) → Outcome A → Type 0
Post P (ret a tr) = P a tr
Post P (exited tr) = Unit
Post P (fault tr) = Unit

pub Post-bind :
    {A B : Type 0} (Q : A → Trace → Type 0) (P : B → Trace → Type 0) (w : World) (o : Outcome A)
    (k : A → World → Trace → Outcome B)
    → Post Q o
    → ((a : A) (tr : Trace) → Q a tr → Post P (k a w tr))
    → Post P (and_then w o k)
Post-bind Q P w (ret a tr) k q step = step a tr q
Post-bind Q P w (exited tr) k q step = tt
Post-bind Q P w (fault tr) k q step = tt

pub Post-map :
    {A : Type 0} (Q P : A → Trace → Type 0) (o : Outcome A)
    → Post Q o
    → ((a : A) (tr : Trace) → Q a tr → P a tr)
    → Post P o
Post-map Q P (ret a tr) q next = next a tr q
Post-map Q P (exited tr) q next = tt
Post-map Q P (fault tr) q next = tt

-- Whatever came before, the rest of the run establishes the postcondition.
pub Post-last :
    {A B : Type 0} (P : B → Trace → Type 0) (w : World) (o : Outcome A)
    (k : A → World → Trace → Outcome B)
    → ((a : A) (tr : Trace) → Post P (k a w tr))
    → Post P (and_then w o k)
Post-last P w (ret a tr) k step = step a tr
Post-last P w (exited tr) k step = tt
Post-last P w (fault tr) k step = tt

-- A text that is read for a string: the rest runs only if it is not null.
pub Post-cstring :
    {A : Type 0} (P : A → Trace → Type 0) (c : Call) (w : World) (tr : Trace) (k : Text → M A)
    → ((t : Text) → (w tr c).string ≡ some t → Post P (k t w ((c, w tr c) ∷ tr)))
    → Post P ((cstring_of c >>= k) w tr)
Post-cstring {A} P c w tr k step = go (w tr c).string refl
  where
    go :
        (o : Option Text)
        → (w tr c).string ≡ o
        → Post P (and_then w (text_or_null o w ((c, w tr c) ∷ tr)) k)
    go none e = tt
    go (some t) e = step t e

-- The run does not read through a null pointer, and a result has the property.
abbrev pub Sound : {A : Type 0} → (A → Type 0) → Outcome A → Type 0
Sound P (ret a tr) = P a
Sound P (exited tr) = Unit
Sound P (fault tr) = ⊥

pub Sound-bind :
    {A B : Type 0} (Q : A → Type 0) (P : B → Type 0) (w : World) (o : Outcome A)
    (k : A → World → Trace → Outcome B)
    → Sound Q o
    → ((a : A) (tr : Trace) → Q a → Sound P (k a w tr))
    → Sound P (and_then w o k)
Sound-bind Q P w (ret a tr) k q step = step a tr q
Sound-bind Q P w (exited tr) k q step = tt
Sound-bind Q P w (fault tr) k q step = absurd q

-- The run returns, and its result and its trace have the property.
abbrev pub Returns : {A : Type 0} → (A → Trace → Type 0) → Outcome A → Type 0
Returns P (ret a tr) = P a tr
Returns P (exited tr) = ⊥
Returns P (fault tr) = ⊥

pub Returns-bind :
    {A B : Type 0} (Q : A → Trace → Type 0) (P : B → Trace → Type 0) (w : World) (o : Outcome A)
    (k : A → World → Trace → Outcome B)
    → Returns Q o
    → ((a : A) (tr : Trace) → Q a tr → Returns P (k a w tr))
    → Returns P (and_then w o k)
Returns-bind Q P w (ret a tr) k q step = step a tr q
Returns-bind Q P w (exited tr) k q step = absurd q
Returns-bind Q P w (fault tr) k q step = absurd q

pub Returns-map :
    {A : Type 0} (Q P : A → Trace → Type 0) (o : Outcome A)
    → Returns Q o
    → ((a : A) (tr : Trace) → Q a tr → P a tr)
    → Returns P o
Returns-map Q P (ret a tr) q next = next a tr q
Returns-map Q P (exited tr) q next = q
Returns-map Q P (fault tr) q next = q
