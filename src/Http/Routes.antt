-- ===== src/Http/Routes.antt =====
-- What registering a handler does to the requests.
use ymir_project.Base.{
  ◌≡◌, refl, sym, ap, subst, ◌∙◌, inl, inr, true, false, ◌&&◌, Option, none, some, [], ◌∷◌,
  if◌then◌else◌, Bool-cases, Option-cases,
}
use mathlib.Core.Option.{some-injective}
use ymir_project.Host.{Text}
use ymir_project.StringClass.{text_eq, text_lt}
use ymir_project.StringClass.Compare.{text_eq_self, text_eq-eq}
use ymir_project.MapClass.{Pair}
use ymir_project.MapClass.AssocList.{with_entry, lookup}
use ymir_project.MapClass.Texts.{text_order}
use ymir_project.Http.{
  replace_double_slashes, is_match, Handler, Methods, Routes, add_to_path, register_handler,
  find_path, route_of,
}
use ymir_project.Http.Matching.{is_match-normal}
use ymir_project.Http.MethodLists.{or_else, Ascending, lookup-with_entry}

-- No other registered path matches the requests for `path`, and the methods are in order.
abbrev pub Apart : Text → Routes → Type 0
Apart path [] = Unit {0}
Apart path (r ∷ rs) =
    (is_match r.key path ≡ true → r.key ≡ path) × Ascending r.value × Apart path rs

normal : (p u : Text) → is_match p u ≡ true → replace_double_slashes p ≡ replace_double_slashes u
normal p u m =
    text_eq-eq (replace_double_slashes p) (replace_double_slashes u) (sym (is_match-normal p u) ∙ m)

-- Two paths that match one request match one another.
is_match_join : (p q u : Text) → is_match p u ≡ true → is_match q u ≡ true → is_match p q ≡ true
is_match_join p q u a b =
    is_match-normal p q
    ∙ subst (λ z. text_eq (replace_double_slashes p) z ≡ true) (normal p u a ∙ sym (normal q u b))
        (text_eq_self (replace_double_slashes p))

-- A route that is not the path's does not match a request that the path matches.
other_path :
    (path u key : Text)
    → (is_match key path ≡ true → key ≡ path)
    → text_eq key path ≡ false
    → is_match key u ≡ true
    → is_match path u ≡ false
other_path path u key unique ne m = elim (Bool-cases (is_match path u)) [
  | inr n ↦ n
  | inl y ↦
      absurd (
        cc
          (ne, ap (λ z. text_eq z path) (unique (is_match_join key path u m y)), text_eq_self path))
]

-- The handler of a request, when `old` was its handler before the registration.
abbrev pub updated : Text → Text → Handler → Text → Text → Option Handler → Option Handler
updated path method h u k old =
    if is_match path u && text_eq method k then some (or_else old h) else old

updated-other :
    (path method : Text) (h : Handler) (u k : Text) (old : Option Handler)
    → is_match path u ≡ false
    → updated path method h u k old ≡ old
updated-other path method h u k old n = rw n refl

hit :
    (r : Pair Text Methods) (rs : Routes) (u k : Text)
    → is_match r.key u ≡ true
    → route_of (r ∷ rs) u k ≡ lookup text_order k r.value
unfolding route_of find_path
hit r rs u k m = rw (route_of, m) refl

miss :
    (r : Pair Text Methods) (rs : Routes) (u k : Text)
    → is_match r.key u ≡ false
    → route_of (r ∷ rs) u k ≡ route_of rs u k
unfolding route_of find_path
miss r rs u k m = rw (route_of, m) refl

-- What stands behind a route that does not match stays as it is.
behind :
    (path method : Text) (h : Handler) (u k : Text) (r : Pair Text Methods) (rs rs' : Routes)
    → (is_match r.key path ≡ true → r.key ≡ path)
    → text_eq r.key path ≡ false
    → route_of rs' u k ≡ updated path method h u k (route_of rs u k)
    → route_of (r ∷ rs') u k ≡ updated path method h u k (route_of (r ∷ rs) u k)
behind path method h u k r rs rs' unique ne ih = elim (Bool-cases (is_match r.key u)) [
  | inl m ↦
      hit r rs' u k m
      ∙ sym (hit r rs u k m)
      ∙ sym (
          updated-other path method h u k (route_of (r ∷ rs) u k)
            (other_path path u r.key unique ne m))
  | inr m ↦ miss r rs' u k m ∙ ih ∙ ap (updated path method h u k) (sym (miss r rs u k m))
]

-- The path's own route gets the handler.
at_path :
    (method : Text) (h : Handler) (u k : Text) (r : Pair Text Methods) (rs : Routes)
    → Ascending r.value
    → route_of
        (record {
          key = r.key;
          value = with_entry text_order (record { key = method; value = h }) r.value;
        }
          ∷ rs)
        u
        k
      ≡ updated r.key method h u k (route_of (r ∷ rs) u k)
at_path method h u k r rs s =
    let r' : Pair Text Methods = record {
      key = r.key;
      value = with_entry text_order (record { key = method; value = h }) r.value;
    } in
    elim (Bool-cases (is_match r.key u)) [
      | inl m ↦
          hit r' rs u k m
          ∙ lookup-with_entry k method h r.value s
          ∙ sym (
              ap
                (λ b.
                  if b && text_eq method k
                  then some (or_else (lookup text_order k r.value) h)
                  else lookup text_order k r.value)
                m)
          ∙ ap (updated r.key method h u k) (sym (hit r rs u k m))
      | inr m ↦
          miss r' rs u k m
          ∙ sym (miss r rs u k m)
          ∙ sym (updated-other r.key method h u k (route_of (r ∷ rs) u k) m)
    ]

added :
    (path method : Text) (h : Handler) (u k : Text) (rs rs' : Routes)
    → Apart path rs
    → add_to_path path method h rs ≡ some rs'
    → route_of rs' u k ≡ updated path method h u k (route_of rs u k)
unfolding add_to_path
added path method h u k [] rs' a e = cc
added path method h u k (r ∷ rs) rs' a e = elim (Bool-cases (text_eq r.key path)) [
  | inl y ↦
      subst (λ z. route_of z u k ≡ updated path method h u k (route_of (r ∷ rs) u k))
        (some-injective _ rs' (rw y at e))
        (subst
          (λ p.
            route_of
              (record {
                key = r.key;
                value = with_entry text_order (record { key = method; value = h }) r.value;
              }
                ∷ rs)
              u k
            ≡ updated p method h u k (route_of (r ∷ rs) u k))
          (text_eq-eq r.key path y) (at_path method h u k r rs a.1))
  | inr n ↦ elim (Option-cases (add_to_path path method h rs)) [
    | inl none_there ↦ cc (rw (n, none_there) at e)
    | inr there ↦
        subst (λ z. route_of z u k ≡ updated path method h u k (route_of (r ∷ rs) u k))
          (some-injective _ rs' (rw (n, there.1) at e))
          (behind path method h u k r rs there.0 a.0 n
            (added path method h u k rs there.0 a.2 there.1))
  ]
]

-- No route is the path's.
abbrev Missing : Text → Routes → Type 0
Missing path [] = Unit {0}
Missing path (r ∷ rs) = (text_eq r.key path ≡ false) × Missing path rs

add_to_path-Missing :
    (path method : Text) (h : Handler) (rs : Routes)
    → add_to_path path method h rs ≡ none
    → Missing path rs
unfolding add_to_path
add_to_path-Missing path method h [] e = tt
add_to_path-Missing path method h (r ∷ rs) e = elim (Bool-cases (text_eq r.key path)) [
  | inl y ↦ cc (rw y at e)
  | inr n ↦ elim (Option-cases (add_to_path path method h rs)) [
    | inl there ↦ (n, add_to_path-Missing path method h rs there)
    | inr there ↦ cc (rw (n, there.1) at e)
  ]
]

Missing-unrouted :
    (path u k : Text) (rs : Routes)
    → Apart path rs
    → Missing path rs
    → is_match path u ≡ true
    → route_of rs u k ≡ none
unfolding route_of find_path
Missing-unrouted path u k [] a n m = refl
Missing-unrouted path u k (r ∷ rs) a n m = elim (Bool-cases (is_match r.key u)) [
  | inl y ↦ absurd (cc (m, other_path path u r.key a.0 n.0 y))
  | inr z ↦ miss r rs u k z ∙ Missing-unrouted path u k rs a.2 n.1 m
]

-- The route that a registration inserts.
new_route : Text → Text → Handler → Pair Text Methods
new_route path method h = record {
  key = path;
  value = with_entry text_order (record { key = method; value = h }) [];
}

in_front :
    (path method : Text) (h : Handler) (u k : Text) (rs : Routes)
    → Apart path rs
    → Missing path rs
    → route_of (new_route path method h ∷ rs) u k ≡ updated path method h u k (route_of rs u k)
unfolding new_route with_entry lookup
in_front path method h u k rs a n = elim (Bool-cases (is_match path u)) [
  | inl m ↦
      let old = Missing-unrouted path u k rs a n m in
      hit (new_route path method h) rs u k m
      ∙ lookup-with_entry k method h [] tt
      ∙ sym (ap (λ b. if b && text_eq method k then some h else none) m)
      ∙ ap (updated path method h u k) (sym old)
  | inr m ↦
      miss (new_route path method h) rs u k m
      ∙ sym (updated-other path method h u k (route_of rs u k) m)
]

inserted :
    (path method : Text) (h : Handler) (u k : Text) (rs : Routes)
    → Apart path rs
    → Missing path rs
    → route_of (with_entry text_order (new_route path method h) rs) u k
      ≡ updated path method h u k (route_of rs u k)
unfolding new_route with_entry
inserted path method h u k [] a n = in_front path method h u k [] a n
inserted path method h u k (r ∷ rs) a n = elim (Bool-cases (text_lt r.key path)) [
  | inl lt ↦ rw lt (
      behind path method h u k r rs (with_entry text_order (new_route path method h) rs) a.0 n.0
        (inserted path method h u k rs a.2 n.1))
  | inr ge ↦ rw (ge, n.0) (in_front path method h u k (r ∷ rs) a n)
]

-- Registering a handler changes exactly the requests with its method for a path that is the same but
-- for double slashes: they reach it, unless a handler was registered for them before, which stays.
-- The registered paths are to differ by more than double slashes, and the methods of each to be in
-- the order of the map.
pub route_of-register_handler :
    (path method : Text) (h : Handler) (rs : Routes) (u k : Text)
    → Apart path rs
    → route_of (register_handler path method h rs) u k ≡ (
        if is_match path u && text_eq method k
        then some (or_else (route_of rs u k) h)
        else route_of rs u k)
unfolding register_handler new_route
route_of-register_handler path method h rs u k a =
    elim (Option-cases (add_to_path path method h rs)) [
      | inl e ↦
          rw (register_handler, e)
            (inserted path method h u k rs a (add_to_path-Missing path method h rs e))
      | inr there ↦ rw (register_handler, there.1) (added path method h u k rs there.0 a there.1)
    ]
