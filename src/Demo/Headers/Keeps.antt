-- ===== src/Demo/Headers/Keeps.antt =====
-- What a HEADERS message keeps: a predicate on the chain and the flag `reached` that the storing of
-- one header keeps.
use mvclight.Base.{
  ℕ, zero, suc, ◌*◌, ◌==◌, Bool, true, false, ◌||◌, Option, none, some, ltb, if◌then◌else◌, length,
  drop,
}
use mvclight.Base.Int.{ℤ, pos, eqb_ℤ}
use mvclight.Wire.{Bytes, read_compact_size}
use mvclight.Header.{LightBlockHeader}
use mvclight.Chain.{ChainStore, add_header, add_work, get_tip}
use mvclight.Demo.Headers.{
  checkpoint_height, next_height, Check, check_header, SyncError, Progress, store_header,
  accept_turn, accept_headers, relocated, relocate, counted, headers_message,
}

-- What holds of the values of an option.
abbrev pub OnSome {ℓ} : {A : Type ℓ} → (A → Type 0) → Option A → Type 0
OnSome P none = Unit
OnSome P (some a) = P a

module _ (Q : ChainStore → Bool → Type 0)
    (storing : (c : ChainStore) (reached : Bool) (h : LightBlockHeader)
      → Q c reached
      → Q
          (add_work (add_header c h (next_height c)) h.n_bits)
          (reached || eqb_ℤ (next_height c) (pos checkpoint_height))) where
  abbrev pub Kept : Progress → Type 0
  Kept g = Q g.chain g.reached

  accept_headers-Kept :
      (n : ℕ) (time : ℤ) (p : Bytes) (g : Progress)
      → Kept g
      → OnSome Kept (accept_headers n time p g)
  unfolding accept_headers accept_turn
  accept_headers-Kept zero time p g q = q
  accept_headers-Kept (suc n) time p g q = turn (check_header g.chain time p) (λ h.
      accept_headers-Kept n time (drop 81 p) (store_header g h)
        (unfold store_header in storing g.chain g.reached h q))
    where
      turn :
          (k : Check)
          → ((h : LightBlockHeader)
              → OnSome Kept (accept_headers n time (drop 81 p) (store_header g h)))
          → OnSome Kept (accept_turn k g (λ s. accept_headers n time (drop 81 p) s))
      turn (Check.bad e) ih = q
      turn Check.undefined ih = tt
      turn (Check.good h) ih = ih h

  abbrev pub KeptPair : Progress × Bool → Type 0
  KeptPair r = Kept r.0

  relocate-Kept :
      (count : ℕ) (o : Option Progress) → OnSome Kept o → OnSome KeptPair (relocate count o)
  unfolding relocate relocated
  relocate-Kept count none q = tt
  relocate-Kept count (some g) q = located (get_tip g.chain)
    where
      located : (o : Option LightBlockHeader) → Kept (relocated count g o)
      located none = q
      located (some tip) = q

  pub headers_message-Kept :
      (time : ℤ) (g : Progress) (payload : Bytes)
      → Kept g
      → OnSome KeptPair (headers_message time g payload)
  unfolding headers_message counted
  headers_message-Kept time g payload q = parts (read_compact_size payload)
    where
      parts : (o : Option (ℕ × Bytes)) → OnSome KeptPair (counted time g o)
      parts none = q
      parts (some (count, p)) =
          by_tests (ltb 2000 count || ltb (length p) (count * 81)) (count == 0)
        where
          by_tests :
              (a b : Bool)
              → OnSome KeptPair (
                  if a
                  then some (record g { err = some SyncError.bad_headers_format }, false)
                  else (if b
                      then some (record g { finished = true }, true)
                      else relocate count (accept_headers count time p g)))
          by_tests true b = q
          by_tests false true = q
          by_tests false false =
              relocate-Kept count (accept_headers count time p g)
                (accept_headers-Kept count time p g q)
