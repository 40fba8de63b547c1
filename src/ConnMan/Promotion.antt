-- ===== src/ConnMan/Promotion.antt =====
-- Which slot becomes the primary one.
use mvclight.Base.{
  ℕ, zero, suc, ◌≡◌, ◌≢◌, refl, sym, ap, ◌==◌, arith, Bool, true, false, [], ◌∷◌, Option, none,
  some, get_elem?, set, get_elem?-set_ne, Bool-cases, inl, inr,
}
use mvclight.ConnMan.{Slot, ConnMan, connected_at, is_connected, swap_slots, promote_to_primary}

-- What a promotion leaves.
abbrev pub Promoted : ConnMan → ℕ → ConnMan × Bool → Type 0
Promoted m idx (k, true) =
    (is_connected k 0 ≡ true)
    × (get_elem? k 0 ≡ get_elem? m idx)
    × (get_elem? k idx ≡ get_elem? m 0)
    × ((i : ℕ) → i ≢ 0 → i ≢ idx → get_elem? k i ≡ get_elem? m i)
Promoted m idx (k, false) = (k ≡ m) × (is_connected m idx ≡ false)

get-set_at :
    (m : ConnMan) (j : ℕ) (a b : Slot) → get_elem? m j ≡ some b → get_elem? (set m j a) j ≡ some a
get-set_at [] j a b e = absurd (grind (arith, e))
get-set_at (s ∷ m) zero a b e = refl
get-set_at (s ∷ m) (suc j) a b e = get-set_at m j a b e

kept : (m : ConnMan) (b : Bool) → is_connected m 0 ≡ b → Promoted m 0 (m, b)
kept m true e = (e, refl, refl, λ i h k. refl)
kept m false e = (refl, e)

swapped :
    (a : Slot) (m : ConnMan) (j : ℕ) (o : Option Slot)
    → get_elem? m j ≡ o
    → connected_at o ≡ true
    → Promoted (a ∷ m) (suc j) (swap_slots (a ∷ m) (suc j) (some a) o, true)
unfolding swap_slots is_connected connected_at
swapped a m j none e c = absurd (grind (arith, c))
swapped a m j (some b) e c = (c, sym e, get-set_at m j a b e, others)
  where
    others : (i : ℕ) → i ≢ 0 → i ≢ suc j → get_elem? (b ∷ set m j a) i ≡ get_elem? (a ∷ m) i
    others zero h k = absurd (h refl)
    others (suc i) h k = get_elem?-set_ne m a (λ e. k (ap suc (sym e)))

not_first : (j : ℕ) → (suc j == 0) ≡ false
not_first j = ground arith

-- `PromoteToPrimary` succeeds exactly for a slot that is connected. It then swaps that slot with the
-- first, which so is connected, and leaves the others; a failure changes nothing.
pub promote_to_primary-Promoted :
    (m : ConnMan) (idx : ℕ) → Promoted m idx (promote_to_primary m idx)
unfolding promote_to_primary
promote_to_primary-Promoted m zero = kept m (is_connected m 0) refl
promote_to_primary-Promoted [] (suc j) =
    rw (not_first j) (unfold is_connected connected_at in (refl, refl))
promote_to_primary-Promoted (a ∷ m) (suc j) = elim (Bool-cases (is_connected (a ∷ m) (suc j))) [
  | inl e ↦ rw (not_first j, e) (swapped a m j (get_elem? m j) refl (unfold is_connected in e))
  | inr e ↦ rw (not_first j, e) (refl, e)
]
