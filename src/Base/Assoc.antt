-- ===== src/Base/Assoc.antt =====
-- The maps of the program (`std::map`, `std::unordered_map`) as association lists over keys with a
-- Boolean equality. Where the program walks an unordered map, the walk is in the list's order.
pub mod Unique
use mvclight.Base.{
  ℕ, ◌≡◌, refl, ◌↔◌, Bool, true, false, List, [], ◌∷◌, Option, none, some, if◌then◌else◌, arith,
  ◌==◌ as nat_beq, ==_iff,
}
use mvclight.Uint256.{Uint256}
use mvclight.Uint256
use mvclight.Uint256.Order.{eq_iff}
use mvclight.Base.Int.{ℤ, ==ℤ_iff, eqb_ℤ}

pub record Key {ℓ} (K : Type ℓ) : Type ℓ where
  pub beq : K → K → Bool
  pub beq_iff : (j k : K) → (beq j k ≡ true) ↔ (j ≡ k)

instance abbrev pub uint256_key : Key Uint256
uint256_key = record { beq = Uint256.eq; beq_iff = eq_iff }

instance abbrev pub int_key : Key ℤ
int_key = record { beq = eqb_ℤ; beq_iff = ==ℤ_iff }

instance abbrev pub nat_key : Key ℕ
nat_key = record { beq = nat_beq; beq_iff = ==_iff }

module _ {ℓ κ} {K : Type ℓ} {V : Type κ} ⦃e : Key K⦄ where
  -- `find`: none stands for `end()`.
  unfoldable pub find : K → List (K × V) → Option V
  find k [] = none
  find k ((j, w) ∷ m) = if e.beq j k then some w else find k m

  -- `m[k] = v`.
  unfoldable pub assign : K → V → List (K × V) → List (K × V)
  assign k v [] = (k, v) ∷ []
  assign k v ((j, w) ∷ m) = if e.beq j k then (k, v) ∷ m else (j, w) ∷ assign k v m

  -- `emplace(k, v)`: an entry that is there stays.
  unfoldable pub emplace : K → V → List (K × V) → List (K × V)
  emplace k v [] = (k, v) ∷ []
  emplace k v ((j, w) ∷ m) = if e.beq j k then (j, w) ∷ m else (j, w) ∷ emplace k v m

  unfoldable pub erase : K → List (K × V) → List (K × V)
  erase k [] = []
  erase k ((j, w) ∷ m) = if e.beq j k then erase k m else (j, w) ∷ erase k m

  unfoldable pub contains : K → List (K × V) → Bool
  contains k [] = false
  contains k ((j, w) ∷ m) = if e.beq j k then true else contains k m

  pub find-assign :
      (j k : K) (v : V) (m : List (K × V))
      → find j (assign k v m) ≡ (if e.beq k j then some v else find j m)
  unfolding find assign
  find-assign j k v [] = refl
  find-assign j k v ((i, w) ∷ m) =
      ground (arith, e.beq_iff i k, e.beq_iff i j, e.beq_iff k j, find-assign j k v m)

  pub find-erase :
      (j k : K) (m : List (K × V)) → find j (erase k m) ≡ (if e.beq k j then none else find j m)
  unfolding find erase
  find-erase j k [] = ground arith
  find-erase j k ((i, w) ∷ m) =
      ground (arith, e.beq_iff i k, e.beq_iff i j, e.beq_iff k j, find-erase j k m)

  pub find-emplace :
      (j k : K) (v : V) (m : List (K × V))
      → find j (emplace k v m)
        ≡ (if contains k m then find j m else (if e.beq k j then some v else find j m))
  unfolding find emplace contains
  find-emplace j k v [] = refl
  find-emplace j k v ((i, w) ∷ m) =
      ground (arith, e.beq_iff i k, e.beq_iff i j, e.beq_iff k j, find-emplace j k v m)

  pub contains-find : (k : K) (m : List (K × V)) → contains k m ≡ false → find k m ≡ none
  unfolding find contains
  contains-find k [] h = refl
  contains-find k ((i, w) ∷ m) h = ground (arith, contains-find k m)

  pub find-contains : (k : K) (m : List (K × V)) → find k m ≡ none → contains k m ≡ false
  unfolding find contains
  find-contains k [] h = refl
  find-contains k ((i, w) ∷ m) h = ground (arith, find-contains k m)
