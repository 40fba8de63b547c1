-- ===== src/Validation/Rules.antt =====
-- What an accepted header satisfies, and when each rule refuses.
use mvclight.Base.{
  ℕ, ◌/◌, ◌^◌, ◌<◌, ◌≤◌, ◌≡◌, ◌↔◌, true, false, Option, none, some, arith, refl, sym, ap, subst,
  ◌∙◌, ◌-◌, leb, leb→le, le→leb, inl, inr,
}
use mvclight.Base.Int.{ℤ, pos, negsuc, ◌≤ℤ◌, ◌+ℤ◌, to_u32, signed32}
use mvclight.Wire.{Bytes, read_le}
use mvclight.Header.{LightBlockHeader, get_hash, serialize}
use mvclight.Validation.{
  Verdict, accepted, TargetResult, target, no_target, fault, target_from_bits, hash_le_target,
  validate_header, check_pow, check_times, prev_ok, min_time,
}
use mvclight.Validation.Compact.{hash_le_target_lem}
use mvclight.Validation.Target.{compact_number, Denotes, Means, target_from_bits-Means}
use mvclight.Uint256.Order.{eq_iff}
use mvclight.Sha256.Digest.{sha256d_shape}

-- The rules of a header above the checkpoint, as the code reads them.
record Passed (h : LightBlockHeader) (prev : Option LightBlockHeader)
    (height adjusted_time_now mtp : ℤ) : Type 0 where
  height_ok : pos 0 ≤ℤ height
  linked : prev_ok h prev height ≡ true
  pow :
      (t : Bytes) × (target_from_bits h.n_bits ≡ target t) × (hash_le_target (get_hash h) t ≡ true)
  after_median : min_time prev mtp < h.n_time
  not_ahead : h.n_time ≤ to_u32 (adjusted_time_now +ℤ pos 7200)
  version_ok : pos 4 ≤ℤ signed32 h.n_version

check_times_iff :
    (h : LightBlockHeader) (lowest : ℕ) (now : ℤ)
    → (check_times h lowest now ≡ accepted) ↔ (
        (lowest < h.n_time)
        × (h.n_time ≤ to_u32 (now +ℤ pos 7200))
        × (pos 4 ≤ℤ signed32 h.n_version))
unfolding check_times
check_times_iff h lowest now = ground arith

check_pow_iff :
    (h : LightBlockHeader) (r : TargetResult) (rest : Verdict)
    → (check_pow h r rest ≡ accepted) ↔ (
        ((t : Bytes) × (r ≡ target t) × (hash_le_target (get_hash h) t ≡ true)) × (rest ≡ accepted))
unfolding check_pow
check_pow_iff h no_target rest = (λ e. cc, λ ((t, e, _), _). cc)
check_pow_iff h fault rest = (λ e. cc, λ ((t, e, _), _). cc)
check_pow_iff h (target t) rest = (λ e. ((t, refl, ground arith), ground arith), back)
  where
    back :
        ((t' : Bytes) × (target t ≡ target t') × (hash_le_target (get_hash h) t' ≡ true))
          × (rest ≡ accepted)
        → check_pow h (target t) rest ≡ accepted
    back ((t', e, k), r) = let same : t ≡ t' = cc in ground arith

validate_header-Passed :
    (h : LightBlockHeader) (prev : Option LightBlockHeader) (height adjusted_time_now mtp : ℤ)
    → (validate_header h prev height false adjusted_time_now mtp ≡ accepted)
      ↔ Passed h prev height adjusted_time_now mtp
unfolding validate_header
validate_header-Passed h prev height now mtp = (there, back)
  where
    pow_part :
        (check_pow h (target_from_bits h.n_bits) (check_times h (min_time prev mtp) now) ≡ accepted)
        ↔ (((t : Bytes) × (target_from_bits h.n_bits ≡ target t)
              × (hash_le_target (get_hash h) t ≡ true))
            × (check_times h (min_time prev mtp) now ≡ accepted))
    pow_part = check_pow_iff h (target_from_bits h.n_bits) (check_times h (min_time prev mtp) now)

    times :
        validate_header h prev height false now mtp ≡ accepted
        → (min_time prev mtp < h.n_time)
          × (h.n_time ≤ to_u32 (now +ℤ pos 7200))
          × (pos 4 ≤ℤ signed32 h.n_version)
    times e = (check_times_iff h (min_time prev mtp) now).0 (pow_part.0 (ground arith)).1

    there : validate_header h prev height false now mtp ≡ accepted → Passed h prev height now mtp
    there e = record {
      height_ok = ground arith;
      linked = ground arith;
      pow = (pow_part.0 (ground arith)).0;
      after_median = (times e).0;
      not_ahead = (times e).1;
      version_ok = (times e).2;
    }

    back : Passed h prev height now mtp → validate_header h prev height false now mtp ≡ accepted
    back v =
        let inner = pow_part.1 (
          v.pow,
          (check_times_iff h (min_time prev mtp) now).1 (v.after_median, v.not_ahead, v.version_ok),
        ) in
        ground (arith, v.height_ok, v.linked, inner)

-- The header before it: its hash is the one that the header names. Only height 0 has none.
abbrev pub Linked : LightBlockHeader → Option LightBlockHeader → ℤ → Type 0
Linked h none height = height ≤ℤ pos 0
Linked h (some prev) height = h.hash_prev_block ≡ get_hash prev

-- The time is after `mtp`, the median that the caller has computed; if that is negative, after the time
-- of the previous header, or after 0.
abbrev pub Later : LightBlockHeader → Option LightBlockHeader → ℤ → Type 0
Later h prev (pos median) = median < h.n_time
Later h (some prev) (negsuc n) = prev.n_time < h.n_time
Later h none (negsuc n) = 0 < h.n_time

-- A header that may stand above the checkpoint. Its compact form is a positive number below 2 ^ 256,
-- and its hash, a little-endian number, does not exceed it.
pub record Valid (h : LightBlockHeader) (prev : Option LightBlockHeader)
    (height adjusted_time_now mtp : ℤ) : Type 0 where
  pub height_ok : pos 0 ≤ℤ height
  pub linked : Linked h prev height
  pub target_positive : 0 < compact_number h.n_bits
  pub exponent_ok : h.n_bits / 2 ^ 24 ≤ 32
  pub pow : read_le (get_hash h) ≤ compact_number h.n_bits
  pub after_median : Later h prev mtp
  pub not_ahead : pos h.n_time ≤ℤ adjusted_time_now +ℤ pos 7200
  pub version_ok : (4 ≤ h.n_version) × (h.n_version < 2 ^ 31)

-- The times that fit an unsigned number of 32 bits.
abbrev pub TimeFits : Option LightBlockHeader → Type 0
TimeFits none = Unit
TimeFits (some prev) = prev.n_time < 2 ^ 32

pub prev_ok_iff :
    (h : LightBlockHeader) (prev : Option LightBlockHeader) (height : ℤ)
    → (prev_ok h prev height ≡ true) ↔ Linked h prev height
unfolding prev_ok
prev_ok_iff h none height = ground arith
prev_ok_iff h (some prev) height = eq_iff h.hash_prev_block (get_hash prev)

min_time_iff :
    (h : LightBlockHeader) (prev : Option LightBlockHeader) (mtp : ℤ)
    → TimeFits prev
    → mtp ≤ℤ pos (2 ^ 32 - 1)
    → (min_time prev mtp < h.n_time) ↔ Later h prev mtp
unfolding min_time to_u32
min_time_iff h none (pos m) f k = ground arith
min_time_iff h none (negsuc m) f k = ground arith
min_time_iff h (some prev) (pos m) f k = ground arith
min_time_iff h (some prev) (negsuc m) f k = ground arith

to_u32_pos : (z : ℤ) → pos 0 ≤ℤ z → z ≤ℤ pos (2 ^ 32 - 1) → pos (to_u32 z) ≡ z
unfolding to_u32
to_u32_pos (pos n) h k = ap pos (omega arith)
to_u32_pos (negsuc n) h k = absurd (omega arith)

-- A target that the hash does not exceed.
Worked : LightBlockHeader → Type 0
Worked h =
    (t : Bytes) × (target_from_bits h.n_bits ≡ target t) × (hash_le_target (get_hash h) t ≡ true)

hash_le :
    (h : LightBlockHeader) (t : Bytes)
    → Denotes (compact_number h.n_bits) (target t)
    → hash_le_target (get_hash h) t ≡ leb (read_le (get_hash h)) (compact_number h.n_bits)
unfolding get_hash
hash_le h t d =
    hash_le_target_lem (get_hash h) t (sha256d_shape (serialize h)) d.0 d.1
    ∙ ap (λ (n : ℕ). leb (read_le (get_hash h)) n) d.2

Worked-low :
    (h : LightBlockHeader)
    → Worked h
    → (0 < compact_number h.n_bits)
      × (h.n_bits / 2 ^ 24 ≤ 32)
      × (read_le (get_hash h) ≤ compact_number h.n_bits)
unfolding Worked
Worked-low h (t, e, k) = (m.1, m.2, leb→le _ _ (sym (hash_le h t m.0) ∙ k))
  where
    m : Means h.n_bits (target t)
    m = subst (Means h.n_bits) e (target_from_bits-Means h.n_bits)

low-Worked :
    (h : LightBlockHeader)
    → 0 < compact_number h.n_bits
    → h.n_bits / 2 ^ 24 ≤ 32
    → read_le (get_hash h) ≤ compact_number h.n_bits
    → Worked h
unfolding Worked
low-Worked h c e k = by_result (target_from_bits h.n_bits) refl (target_from_bits-Means h.n_bits)
  where
    by_result : (r : TargetResult) → target_from_bits h.n_bits ≡ r → Means h.n_bits r → Worked h
    by_result (target t) f m = (t, f, hash_le h t m.0 ∙ le→leb _ _ k)
    by_result no_target f (inl z) = absurd (omega arith)
    by_result no_target f (inr z) = absurd (omega arith)
    by_result fault f m = absurd (omega (arith, m.1))

-- Outside the historical segment a header is accepted exactly if its height is not negative; it names
-- the hash of its predecessor, or has none and height 0; its compact form, a mantissa of 23 bits
-- shifted by bytes, is positive with an exponent of at most 32, and the hash as a little-endian number
-- does not exceed it; its time is after `mtp`, the median that the caller passes, or if that is
-- negative after its predecessor's; its time is at most two hours ahead; and its version, as a signed
-- number, is at least 4. The header's and the given times fit 32 bits.
pub validate_header_iff :
    (h : LightBlockHeader) (prev : Option LightBlockHeader) (height adjusted_time_now mtp : ℤ)
    → TimeFits prev
    → mtp ≤ℤ pos (2 ^ 32 - 1)
    → pos 0 ≤ℤ adjusted_time_now +ℤ pos 7200
    → adjusted_time_now +ℤ pos 7200 ≤ℤ pos (2 ^ 32 - 1)
    → h.n_version < 2 ^ 32
    → (validate_header h prev height false adjusted_time_now mtp ≡ accepted)
      ↔ Valid h prev height adjusted_time_now mtp
validate_header_iff h prev height now mtp fp fm lo hi fv = (
  λ e. there ((validate_header-Passed h prev height now mtp).0 e),
  λ v. (validate_header-Passed h prev height now mtp).1 (back v),
)
  where
    ahead : pos (to_u32 (now +ℤ pos 7200)) ≡ now +ℤ pos 7200
    ahead = to_u32_pos (now +ℤ pos 7200) lo hi

    there : Passed h prev height now mtp → Valid h prev height now mtp
    there p =
        let w = Worked-low h (unfold Worked in p.pow) in
        record {
          height_ok = p.height_ok;
          linked = (prev_ok_iff h prev height).0 p.linked;
          target_positive = w.0;
          exponent_ok = w.1;
          pow = w.2;
          after_median = (min_time_iff h prev mtp fp fm).0 p.after_median;
          not_ahead = subst (λ (z : ℤ). pos h.n_time ≤ℤ z) ahead (omega (arith, p.not_ahead));
          version_ok = ground (arith, p.version_ok, fv);
        }

    back : Valid h prev height now mtp → Passed h prev height now mtp
    back v = record {
      height_ok = v.height_ok;
      linked = (prev_ok_iff h prev height).1 v.linked;
      pow = unfold Worked in low-Worked h v.target_positive v.exponent_ok v.pow;
      after_median = (min_time_iff h prev mtp fp fm).1 v.after_median;
      not_ahead = below (subst (λ (z : ℤ). pos h.n_time ≤ℤ z) (sym ahead) v.not_ahead);
      version_ok = ground (arith, v.version_ok);
    }
      where
        below : {a b : ℕ} → pos a ≤ℤ pos b → a ≤ b
        below k = omega (arith, k)
