-- ===== src/WatchStore/Index.antt =====
-- The index of addresses: its keys in LevelDB and its entries in memory.
use mvclight.Base.{
  ℕ, ◌≡◌, ◌≢◌, refl, ap, ◌∙◌, ◌==◌, arith, Bool, true, false, ◌||◌, List, [], ◌∷◌, ◌++◌, All,
  Bool-cases, inl, inr,
}
use mvclight.Base.Assoc.{uint256_key}
use mvclight.Wire.{Bytes}
use mvclight.Uint256.{Uint256, eq}
use mvclight.Uint256.Order.{eq_iff}
use mvclight.WatchStore.{Pair, pair_lt, pair_eq, place, listed}

-- An address is a C string.
abbrev pub IsAddress : Bytes → Type 0
IsAddress addr = All (λ (c : ℕ). c ≢ 0) addr

pub addr_key_eq :
    (a b : Bytes) (t u : Uint256)
    → IsAddress a
    → IsAddress b
    → eq (a ++ 0 ∷ t) (b ++ 0 ∷ u) ≡ pair_eq (a, t) (b, u)
unfolding pair_eq eq
addr_key_eq [] [] t u h k = refl
addr_key_eq [] (y ∷ b) t u h k = ground (arith, k.0)
addr_key_eq (x ∷ a) [] t u h k = ground (arith, h.0)
addr_key_eq (x ∷ a) (y ∷ b) t u h k = elim (Bool-cases (x == y)) [
  | inl e ↦ rw e (addr_key_eq a b t u h.1 k.1)
  | inr e ↦ rw e refl
]

pair_eq-eq : (j k : Pair) → pair_eq j k ≡ true → j ≡ k
unfolding pair_eq
pair_eq-eq (a, t) (b, u) h = elim (Bool-cases (eq a b)) [
  | inl e ↦ λ i. ((eq_iff a b).0 e i, (eq_iff t u).0 (rw e at h) i)
  | inr e ↦ absurd (grind (arith, h, e))
]

or_again : (a b : Bool) → (a || b) ≡ (a || (a || b))
or_again true b = refl
or_again false b = refl

or_swap : (a b c : Bool) → (a || (b || c)) ≡ (b || (a || c))
or_swap true true c = refl
or_swap true false c = refl
or_swap false b c = refl

pub listed-place : (j k : Pair) (m : List Pair) → listed k (place j m) ≡ (pair_eq j k || listed k m)
unfolding listed place
listed-place j k [] = refl
listed-place j k (i ∷ m) = elim (Bool-cases (pair_lt j i)) [
  | inl e ↦ rw e refl
  | inr e ↦ elim (Bool-cases (pair_eq i j)) [
    | inl f ↦
        rw (e, f)
          (or_again (pair_eq i k) (listed k m)
            ∙ ap (λ (p : Pair). pair_eq p k || (pair_eq i k || listed k m)) (pair_eq-eq i j f))
    | inr f ↦
        rw (e, f)
          (ap (λ (b : Bool). pair_eq i k || b) (listed-place j k m)
            ∙ or_swap (pair_eq i k) (pair_eq j k) (listed k m))
  ]
]
