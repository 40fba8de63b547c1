-- ===== src/Base/Assoc/Unique.antt =====
-- Association lists with each key once, as every map of the program is.
use mvclight.Base.{
  ◌≡◌, refl, sym, ap, ◌∙◌, true, false, List, [], ◌∷◌, some, if◌then◌else◌, arith, All, Bool-cases,
  inl, inr,
}
use mvclight.Base.Assoc.{Key, find, assign, erase, contains, contains-find}

module _ {ℓ κ} {K : Type ℓ} {V : Type κ} ⦃e : Key K⦄ where
  unfoldable pub Unique : List (K × V) → Type 0
  Unique [] = Unit
  Unique ((k, v) ∷ m) = (contains k m ≡ false) × Unique m

  contains-assign :
      (j k : K) (v : V) (m : List (K × V))
      → contains j (assign k v m) ≡ (if e.beq k j then true else contains j m)
  unfolding contains assign
  contains-assign j k v [] = refl
  contains-assign j k v ((i, w) ∷ m) =
      ground (arith, e.beq_iff i k, e.beq_iff i j, e.beq_iff k j, contains-assign j k v m)

  contains-erase :
      (j k : K) (m : List (K × V)) → contains j m ≡ false → contains j (erase k m) ≡ false
  unfolding contains erase
  contains-erase j k [] h = refl
  contains-erase j k ((i, w) ∷ m) h =
      ground (arith, e.beq_iff i k, e.beq_iff i j, contains-erase j k m)

  pub assign-Unique : (k : K) (v : V) (m : List (K × V)) → Unique m → Unique (assign k v m)
  unfolding assign Unique contains
  assign-Unique k v [] u = (refl, tt)
  assign-Unique k v ((j, w) ∷ m) u = elim (Bool-cases (e.beq j k)) [
    | inl f ↦ rw f (ap (λ (z : K). contains z m) (sym ((e.beq_iff j k).0 f)) ∙ u.0, u.1)
    | inr f ↦ rw f (contains-assign j k v m ∙ other f, assign-Unique k v m u.1)
  ]
    where
      other : e.beq j k ≡ false → (if e.beq k j then true else contains j m) ≡ false
      other f = ground (arith, e.beq_iff j k, e.beq_iff k j, u.0)

  pub erase-Unique : (k : K) (m : List (K × V)) → Unique m → Unique (erase k m)
  unfolding erase Unique
  erase-Unique k [] u = tt
  erase-Unique k ((j, w) ∷ m) u = elim (Bool-cases (e.beq j k)) [
    | inl f ↦ rw f (erase-Unique k m u.1)
    | inr f ↦ rw f (contains-erase j k m u.0, erase-Unique k m u.1)
  ]

  -- Every entry is the one that is found under its key.
  find_below :
      (k : K) (v : V) (m es : List (K × V))
      → contains k m ≡ false
      → All (λ (p : K × V). find p.0 m ≡ some p.1) es
      → All (λ (p : K × V). find p.0 ((k, v) ∷ m) ≡ some p.1) es
  unfolding find
  find_below k v m [] c h = tt
  find_below k v m ((j, w) ∷ es) c h = elim (Bool-cases (e.beq k j)) [
    | inl f ↦ absurd (
        grind
          (arith, h.0, ap (λ (z : K). find z m) (sym ((e.beq_iff k j).0 f)) ∙ contains-find k m c))
    | inr f ↦ (rw f h.0, find_below k v m es c h.1)
  ]

  pub find_each : (m : List (K × V)) → Unique m → All (λ (p : K × V). find p.0 m ≡ some p.1) m
  unfolding find Unique
  find_each [] u = tt
  find_each ((k, v) ∷ m) u =
      (rw ((e.beq_iff k k).1 refl) refl, find_below k v m m u.0 (find_each m u.1))
