-- ===== src/Uint256/Order.antt =====
-- Equality of identifiers, and `ChainWorkGe` of light_checkpoints.cpp as an order of numbers.
use mvclight.Base.{◌≡◌, refl, ◌↔◌, true, [], ◌∷◌, arith}
use mvclight.Uint256.{Uint256, eq}

eq-eq : (x y : Uint256) → eq x y ≡ true → x ≡ y
unfolding eq
eq-eq [] [] h = refl
eq-eq [] (y ∷ ys) h = ground arith
eq-eq (x ∷ xs) [] h = ground arith
eq-eq (x ∷ xs) (y ∷ ys) h = ground (arith, eq-eq xs ys)

pub eq_self : (x : Uint256) → eq x x ≡ true
unfolding eq
eq_self [] = refl
eq_self (x ∷ xs) = ground (arith, eq_self xs)

-- `==` on identifiers holds exactly for equal bytes.
pub eq_iff : (x y : Uint256) → (eq x y ≡ true) ↔ (x ≡ y)
eq_iff x y = (eq-eq x y, λ e. rw e (eq_self y))
