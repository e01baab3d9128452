-- ===== src/MapClass/Texts.antt =====
-- operator< and operator== of lxcd::string order the keys of the maps of the daemon.
use ymir_project.Base.{ℕ, ◌≡◌, refl, true, false, List, [], ◌∷◌, arith, ==_self, ltb_ge, subst}
use ymir_project.StringClass.{text_eq, text_lt}
use ymir_project.StringClass.Compare.{text_eq-eq, text_eq_self}
use ymir_project.MapClass.Order.{KeyOrder}

pub text_lt_irrefl : (t : List ℕ) → text_lt t t ≡ false
unfolding text_lt
text_lt_irrefl [] = refl
text_lt_irrefl (c ∷ t) = rw (ltb_ge c c (omega arith), ==_self c) (text_lt_irrefl t)

pub text_lt_trans : (t u v : List ℕ) → text_lt t u ≡ true → text_lt u v ≡ true → text_lt t v ≡ true
unfolding text_lt
text_lt_trans [] [] v h k = cc
text_lt_trans [] (d ∷ u) [] h k = cc
text_lt_trans [] (d ∷ u) (e ∷ v) h k = refl
text_lt_trans (c ∷ t) [] v h k = cc
text_lt_trans (c ∷ t) (d ∷ u) [] h k = cc
text_lt_trans (c ∷ t) (d ∷ u) (e ∷ v) h k = ground (arith, text_lt_trans t u v)

pub text_lt_total : (t u : List ℕ) → text_lt t u ≡ false → text_eq t u ≡ false → text_lt u t ≡ true
unfolding text_lt text_eq
text_lt_total [] [] h k = cc
text_lt_total [] (d ∷ u) h k = cc
text_lt_total (c ∷ t) [] h k = refl
text_lt_total (c ∷ t) (d ∷ u) h k = ground (arith, text_lt_total t u)

abbrev pub text_order : KeyOrder (List ℕ)
text_order = record {
  lt = text_lt;
  eq = text_eq;
  lt_irrefl = text_lt_irrefl;
  lt_trans = text_lt_trans;
  lt_total = text_lt_total;
  eq_iff = λ t u. (text_eq-eq t u, λ e. subst (λ v. text_eq t v ≡ true) e (text_eq_self t));
}
