-- ===== src/PendingTx/Stranded.antt =====
-- What `EnforceFifo` of light_pendingtx.cpp leaves behind.
use mvclight.Base.{
  ◌≡◌, refl, sym, subst, ◌∙◌, Bool, true, false, List, [], ◌∷◌, Option, none, some, All, All-append,
  ltb, length, if◌then◌else◌, zero, suc, ℕ,
}
use mathlib.Core.Option.{bind}
use mvclight.Base.Int.{ℤ}
use mvclight.Base.Assoc.{
  find, contains, emplace, erase, uint256_key, find-assign, find-erase, find-emplace,
}
use mvclight.Uint256.{Uint256}
use mvclight.Uint256
use mvclight.Uint256.Order.{eq_self}
use mvclight.PendingTx.{
  PendingEntry, PendingTxMap, max_pending, add_tx, remove, erase_fifo, pop_fifo, enforce_loop,
  enforce_fifo, insert, mark_new, evict,
}
use mvclight.PendingTx.Pairing.{evict_takes_two}

-- The entry stands in the map and its identifier is not in the deque.
pub record Stranded (k : Uint256) (e : PendingEntry) (p : PendingTxMap) : Type 0 where
  pub stays : find k p.m_map ≡ some e
  pub unlisted : All (λ j. Uint256.eq j k ≡ false) p.m_fifo

-- The same of a result, which is `none` where the deque is empty and its front undefined.
abbrev pub StrandedIn : Uint256 → PendingEntry → Option PendingTxMap → Type 0
StrandedIn k e none = Unit
StrandedIn k e (some p) = Stranded k e p

evicted-Stranded :
    (k : Uint256) (e : PendingEntry) (p : PendingTxMap) (front : Uint256) (ts : List Uint256)
    → Uint256.eq front k ≡ false
    → Stranded k e p
    → All (λ j. Uint256.eq j k ≡ false) ts
    → Stranded k e (record { m_map = erase front p.m_map; m_fifo = ts })
evicted-Stranded k e p front ts n s h = record {
  stays = find-erase k front p.m_map ∙ rw n s.stays;
  unlisted = h;
}

evict-StrandedIn :
    (k : Uint256) (e : PendingEntry) (p : PendingTxMap) (fifo : List Uint256)
    → p.m_fifo ≡ fifo
    → Stranded k e p
    → StrandedIn k e (evict p fifo)
unfolding evict pop_fifo remove erase_fifo
evict-StrandedIn k e p [] f s = tt
evict-StrandedIn k e p (front ∷ []) f s = rw f (rw (eq_self front) tt)
evict-StrandedIn k e p (front ∷ t ∷ ts) f s =
    subst (λ (q : List Uint256). StrandedIn k e (evict p q)) f
      (subst (StrandedIn k e) (sym (evict_takes_two p front t ts f))
        (evicted-Stranded k e p front ts listed.0 s listed.1.1))
  where
    listed : All (λ j. Uint256.eq j k ≡ false) (front ∷ t ∷ ts)
    listed = subst (All (λ j. Uint256.eq j k ≡ false)) f s.unlisted

bind-StrandedIn :
    (k : Uint256) (e : PendingEntry) (o : Option PendingTxMap)
    (next : PendingTxMap → Option PendingTxMap)
    → StrandedIn k e o
    → ((q : PendingTxMap) → Stranded k e q → StrandedIn k e (next q))
    → StrandedIn k e (bind o next)
unfolding bind
bind-StrandedIn k e none next h go = tt
bind-StrandedIn k e (some q) next h go = go q h

enforce_loop-StrandedIn :
    (k : Uint256) (e : PendingEntry) (n : ℕ) (p : PendingTxMap)
    → Stranded k e p
    → StrandedIn k e (enforce_loop n p)
unfolding enforce_loop
enforce_loop-StrandedIn k e zero p s = by_test (ltb max_pending (length p.m_map))
  where
    by_test : (b : Bool) → StrandedIn k e (if b then none else some p)
    by_test true = tt
    by_test false = s
enforce_loop-StrandedIn k e (suc n) p s =
    by_test (ltb max_pending (length p.m_map)) (bind (evict p p.m_fifo) (enforce_loop n)) (
      bind-StrandedIn k e (evict p p.m_fifo) (enforce_loop n)
        (evict-StrandedIn k e p p.m_fifo refl s) (λ q h. enforce_loop-StrandedIn k e n q h))
  where
    by_test :
        (b : Bool) (o : Option PendingTxMap)
        → StrandedIn k e o
        → StrandedIn k e (if b then o else some p)
    by_test true o h = h
    by_test false o h = s

insert-StrandedIn :
    (k : Uint256) (e new : PendingEntry) (p : PendingTxMap)
    → Uint256.eq new.txid k ≡ false
    → Stranded k e p
    → StrandedIn k e (insert p new)
unfolding insert enforce_fifo
insert-StrandedIn k e new p n s =
    enforce_loop-StrandedIn k e (length (emplace new.txid new p.m_map)) _ (record {
      stays = kept (contains new.txid p.m_map) refl;
      unlisted = All-append _ p.m_fifo (new.txid ∷ []) s.unlisted (n, tt);
    })
  where
    kept :
        (b : Bool) → contains new.txid p.m_map ≡ b → find k (emplace new.txid new p.m_map) ≡ some e
    kept true c = find-emplace k new.txid new p.m_map ∙ rw c s.stays
    kept false c = find-emplace k new.txid new p.m_map ∙ rw (c, n) s.stays

-- `AddTx` of one transaction after the other.
pub add_all : PendingTxMap → List (Uint256 × ℤ) → Option PendingTxMap
add_all p [] = some p
add_all p ((txid, now_ms) ∷ later) = bind (add_tx p txid now_ms) (λ r. add_all r.0 later)

marked-StrandedIn :
    (k : Uint256) (e : PendingEntry) (o : Option PendingTxMap)
    (next : PendingTxMap → Option PendingTxMap)
    → StrandedIn k e o
    → ((q : PendingTxMap) → Stranded k e q → StrandedIn k e (next q))
    → StrandedIn k e (bind (mark_new o) (λ r. next r.0))
unfolding bind mark_new
marked-StrandedIn k e none next h go = tt
marked-StrandedIn k e (some q) next h go = go q h

add_tx-StrandedIn :
    (k : Uint256) (e : PendingEntry) (p : PendingTxMap) (txid : Uint256) (now_ms : ℤ)
    (next : PendingTxMap → Option PendingTxMap)
    → Uint256.eq txid k ≡ false
    → Stranded k e p
    → ((q : PendingTxMap) → Stranded k e q → StrandedIn k e (next q))
    → StrandedIn k e (bind (add_tx p txid now_ms) (λ r. next r.0))
unfolding add_tx bind
add_tx-StrandedIn k e p txid now_ms next n s go = by_find (find txid p.m_map) refl
  where
    by_find :
        (o : Option PendingEntry)
        → find txid p.m_map ≡ o
        → StrandedIn k e (bind (add_tx p txid now_ms) (λ r. next r.0))
    by_find none f = rw f (marked-StrandedIn k e _ next (insert-StrandedIn k e _ p n s) go)
    by_find (some old) f = rw f (
        go _ (record {
          stays = find-assign k txid (record old { has_tx = true }) p.m_map ∙ rw n s.stays;
          unlisted = s.unlisted;
        }))

add_all-StrandedIn :
    (k : Uint256) (e : PendingEntry) (later : List (Uint256 × ℤ)) (p : PendingTxMap)
    → All (λ m. Uint256.eq m.0 k ≡ false) later
    → Stranded k e p
    → StrandedIn k e (add_all p later)
unfolding add_all
add_all-StrandedIn k e [] p h s = s
add_all-StrandedIn k e ((txid, now_ms) ∷ later) p h s =
    add_tx-StrandedIn k e p txid now_ms (λ q. add_all q later) h.0 s
      (λ q t. add_all-StrandedIn k e later q h.1 t)

-- One turn of `EnforceFifo` takes the oldest identifier out of the map, and with it the next one out of
-- the deque, whose entry is not the oldest, stands in the map, and is listed once. That entry then
-- stays in the map, whatever other transactions are added later: it is never evicted by age.
pub evict_strands :
    (p : PendingTxMap) (oldest next : Uint256) (ts : List Uint256) (e : PendingEntry)
    (later : List (Uint256 × ℤ))
    → p.m_fifo ≡ oldest ∷ next ∷ ts
    → Uint256.eq oldest next ≡ false
    → find next p.m_map ≡ some e
    → All (λ j. Uint256.eq j next ≡ false) ts
    → All (λ m. Uint256.eq m.0 next ≡ false) later
    → (q : PendingTxMap) × (evict p p.m_fifo ≡ some q)
      × (find oldest q.m_map ≡ none)
      × (find next q.m_map ≡ some e)
      × StrandedIn next e (add_all q later)
evict_strands p oldest next ts e later f n h u l = (
  q,
  evict_takes_two p oldest next ts f,
  find-erase oldest oldest p.m_map ∙ rw (eq_self oldest) refl,
  left.stays,
  add_all-StrandedIn next e later q l left,
)
  where
    q : PendingTxMap
    q = record { m_map = erase oldest p.m_map; m_fifo = ts }

    left : Stranded next e q
    left = record { stays = find-erase next oldest p.m_map ∙ rw n h; unlisted = u }
