-- ===== src/MapClass/Order.antt =====
-- What lxcd::map asks of its keys: operator< and operator==.
use ymir_project.Base.{◌≡◌, ◌↔◌, Bool, true, false}

pub record KeyOrder (K : Type 0) : Type 0 where
  pub lt : K → K → Bool
  pub eq : K → K → Bool
  pub lt_irrefl : (a : K) → lt a a ≡ false
  pub lt_trans : (a b c : K) → lt a b ≡ true → lt b c ≡ true → lt a c ≡ true
  pub lt_total : (a b : K) → lt a b ≡ false → eq a b ≡ false → lt b a ≡ true
  pub eq_iff : (a b : K) → (eq a b ≡ true) ↔ (a ≡ b)
