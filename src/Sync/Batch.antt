-- ===== src/Sync/Batch.antt =====
-- All headers of one HEADERS message.
use mvclight.Base.{
  ℕ, zero, suc, ◌*◌, ◌<◌, ◌≤◌, ◌≡◌, refl, sym, ap, subst, ◌∙◌, arith, true, Option, none, some, ltb,
  if◌then◌else◌, length, drop, Bool-cases, inl, inr, ltb_false→le,
}
use mvclight.Base.Int.{ℤ, pos, ◌+ℤ◌, ◌-ℤ◌, ltb_ℤ, +ℤ_parts, -ℤ_parts, eq_of_parts}
use mvclight.Wire.{Bytes, read_compact_size}
use mvclight.Header.{LightBlockHeader}
use mvclight.Chain.{ChainStore}
use mvclight.Validation.{LightCheckpoint, prev_ok}
use mvclight.Sync.{
  Checked, stop, undefined, passed, previous, check_header, SyncResult, processed, failed,
  undefined_result, advance, accept_headers, accept_counted, accept_message,
}
use mvclight.Sync.Chained.{
  Names, check_header-Names, Linked, previous-Linked, Frame, Chained, stored, stored-other,
  stored-same,
}

-- The previous header is the same in a store that agrees below.
previous-Frame :
    (s t : ChainStore) (height : ℤ) → Frame s height t → previous t height ≡ previous s height
unfolding previous
previous-Frame s t height f =
    ap (λ (o : Option LightBlockHeader). if ltb_ℤ (pos 0) height then o else none)
      (f (height -ℤ pos 1) (omega (arith, -ℤ_parts height (pos 1))))

-- The header that has just been stored stays linked.
first-Linked :
    (s t : ChainStore) (h : LightBlockHeader) (height : ℤ)
    → prev_ok h (previous s height) height ≡ true
    → Frame (stored s h height) (height +ℤ pos 1) t
    → Linked t height
first-Linked s t h height e f =
    previous-Linked t height h
      (f height (omega (arith, +ℤ_parts height (pos 1))) ∙ stored-same s h height)
      (ap (λ (o : Option LightBlockHeader). prev_ok h o height)
          (previous-Frame s t height
            (λ k b. f k (omega (arith, b, +ℤ_parts height (pos 1))) ∙ stored-other s h height k b))
        ∙ e)

at_first : (height : ℤ) → height +ℤ pos 0 ≡ height
at_first height = eq_of_parts (height +ℤ pos 0) height (omega (arith, +ℤ_parts height (pos 0)))

at_next : (height : ℤ) (i : ℕ) → height +ℤ pos 1 +ℤ pos i ≡ height +ℤ pos (suc i)
at_next height i = eq_of_parts (height +ℤ pos 1 +ℤ pos i) (height +ℤ pos (suc i)) (
    omega (
      arith,
      +ℤ_parts height (pos 1),
      +ℤ_parts (height +ℤ pos 1) (pos i),
      +ℤ_parts height (pos (suc i)),
    ))

-- One more header in front of a chained batch.
Chained-more :
    (n done : ℕ) (s : ChainStore) (h : LightBlockHeader) (height : ℤ) (r : ChainStore × SyncResult)
    → prev_ok h (previous s height) height ≡ true
    → Frame (stored s h height) (height +ℤ pos 1) r.0
    → Chained n (height +ℤ pos 1) (suc done) r
    → Chained (suc n) height done r
Chained-more n done s h height (t, processed d) e f c = (omega (arith, c.0), all)
  where
    all : (i : ℕ) → i < suc n → Linked t (height +ℤ pos i)
    all zero b = subst (Linked t) (sym (at_first height)) (first-Linked s t h height e f)
    all (suc i) b = subst (Linked t) (at_next height i) (c.1 i (omega arith))
Chained-more n done s h height (t, failed reason) e f c = tt
Chained-more n done s h height (t, undefined_result) e f c = tt

advance-Chained :
    (n done : ℕ) (c : Checked) (s : ChainStore) (height : ℤ)
    (next : ChainStore → ChainStore × SyncResult)
    → Names (previous s height) height c
    → ((u : ChainStore)
        → Frame u (height +ℤ pos 1) (next u).0 × Chained n (height +ℤ pos 1) (suc done) (next u))
    → Frame s height (advance c s height next).0
      × Chained (suc n) height done (advance c s height next)
unfolding advance
advance-Chained n done (stop reason) s height next g k = (λ j b. refl, tt)
advance-Chained n done undefined s height next g k = (λ j b. refl, tt)
advance-Chained n done (passed h) s height next g k = (
  λ j b.
      (k (stored s h height)).0 j (omega (arith, b, +ℤ_parts height (pos 1)))
      ∙ stored-other s h height j b,
  Chained-more n done s h height (next (stored s h height)) g (k (stored s h height)).0
      (k (stored s h height)).1,
)

accept_headers-Chained :
    (n : ℕ) (s : ChainStore) (cp : LightCheckpoint) (height now : ℤ) (p : Bytes) (done : ℕ)
    → Frame s height (accept_headers n s cp height now p done).0
      × Chained n height done (accept_headers n s cp height now p done)
unfolding accept_headers
accept_headers-Chained zero s cp height now p done =
    (λ j b. refl, (omega arith, λ i b. absurd (omega arith)))
accept_headers-Chained (suc n) s cp height now p done =
    advance-Chained n done (check_header s cp height now p) s height
      (λ u. accept_headers n u cp (height +ℤ pos 1) now (drop 81 p) (suc done))
      (check_header-Names s cp height now p)
      (λ u. accept_headers-Chained n u cp (height +ℤ pos 1) now (drop 81 p) (suc done))

-- What a message leaves: nothing changes below its first height; if it is accepted, it held at most
-- 2000 headers, and each is stored and names the one below it.
abbrev pub Accepted : ChainStore → ℤ → ChainStore × SyncResult → Type 0
Accepted s height (t, processed n) =
    Frame s height t × (n ≤ 2000) × ((i : ℕ) → i < n → Linked t (height +ℤ pos i))
Accepted s height (t, failed reason) = Frame s height t
Accepted s height (t, undefined_result) = Frame s height t

Chained-Accepted :
    (n : ℕ) (s : ChainStore) (height : ℤ) (r : ChainStore × SyncResult)
    → n ≤ 2000
    → Frame s height r.0
    → Chained n height 0 r
    → Accepted s height r
Chained-Accepted n s height (t, processed d) b f c =
    (f, omega (arith, c.0), λ i j. c.1 i (omega (arith, c.0)))
Chained-Accepted n s height (t, failed reason) b f c = f
Chained-Accepted n s height (t, undefined_result) b f c = f

accept_counted-Accepted :
    (o : Option (ℕ × Bytes)) (s : ChainStore) (cp : LightCheckpoint) (height now : ℤ)
    → Accepted s height (accept_counted o s cp height now)
unfolding accept_counted
accept_counted-Accepted none s cp height now = λ k b. refl
accept_counted-Accepted (some (count, p)) s cp height now = elim (Bool-cases (ltb 2000 count)) [
  | inl e ↦ rw e (λ k b. refl)
  | inr e ↦ elim (Bool-cases (ltb (length p) (count * 81))) [
    | inl f ↦ rw (e, f) (λ k b. refl)
    | inr f ↦
        rw (e, f)
          (Chained-Accepted count s height (accept_headers count s cp height now p 0)
            (ltb_false→le 2000 count e) (accept_headers-Chained count s cp height now p 0).0
            (accept_headers-Chained count s cp height now p 0).1)
  ]
]

-- Whatever a HEADERS message holds, it changes no header below its first height. If it is accepted
-- with a count, this is at most 2000, and at each of that many heights from the first on the store
-- has a header which, above height 0, names the hash of the header stored one height below.
pub accept_message-Accepted :
    (s : ChainStore) (cp : LightCheckpoint) (height now : ℤ) (payload : Bytes)
    → Accepted s height (accept_message s cp height now payload)
unfolding accept_message
accept_message-Accepted s cp height now payload =
    accept_counted-Accepted (read_compact_size payload) s cp height now
