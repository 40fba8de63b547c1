-- ===== src/Demo/FilterLoad/Matched.antt =====
-- The filter that is sent matches every supported address.
use mvclight.Base.{arith, ℕ, suc, ◌≡◌, subst, true, List, [], ◌∷◌, Option, none, some, length}
use mvclight.Wire.{Bytes}
use mvclight.Filter.{BloomFilter, insert_item, contains_item}
use mvclight.Filter.Found.{contains_item-insert_item, contains_item_kept}
use mvclight.Filter.Room.{HasRoom, insert_item-HasRoom}
use mvclight.Demo.Base58.{address_to_script_pubkey}
use mvclight.Demo.FilterLoad.{insert_script, insert_all}

insert_all-keeps :
    (f : BloomFilter) (addrs : List Bytes) (y : Bytes)
    → contains_item f y ≡ true
    → contains_item (insert_all f addrs) y ≡ true
unfolding insert_all
insert_all-keeps f [] y h = h
insert_all-keeps f (a ∷ addrs) y h =
    insert_all-keeps (insert_script f (address_to_script_pubkey a)) addrs y
      (scripted (address_to_script_pubkey a))
  where
    scripted : (o : Option Bytes) → contains_item (insert_script f o) y ≡ true
    scripted none = unfold insert_script in h
    scripted (some spk) = unfold insert_script in contains_item_kept f spk y h

insert_script-HasRoom :
    (n : ℕ) (f : BloomFilter) (o : Option Bytes) → HasRoom (suc n) f → HasRoom n (insert_script f o)
unfolding insert_script
insert_script-HasRoom n f none h = record {
  few = omega (arith, h.few);
  has_bytes = h.has_bytes;
  has_funcs = h.has_funcs;
}
insert_script-HasRoom n f (some spk) h = (insert_item-HasRoom n f spk h).1

-- That the filter matches the script of each address that has one.
abbrev pub MatchesAll : BloomFilter → List Bytes → Type 0
MatchesAll f [] = Unit
MatchesAll f (a ∷ addrs) =
    ((spk : Bytes) → address_to_script_pubkey a ≡ some spk → contains_item f spk ≡ true)
    × MatchesAll f addrs

-- The filter that `RebuildFilter` fills, from a sized one with room for all the addresses, contains
-- the script of every watched address that is supported, so that no payment to it is held back.
pub insert_all-MatchesAll :
    (f : BloomFilter) (addrs : List Bytes)
    → HasRoom (length addrs) f
    → MatchesAll (insert_all f addrs) addrs
unfolding insert_all
insert_all-MatchesAll f [] h = tt
insert_all-MatchesAll f (a ∷ addrs) h = (
  λ spk e.
      insert_all-keeps (insert_script f (address_to_script_pubkey a)) addrs spk
        (scripted (address_to_script_pubkey a) spk e),
  insert_all-MatchesAll (insert_script f (address_to_script_pubkey a)) addrs
      (insert_script-HasRoom (length addrs) f (address_to_script_pubkey a) h),
)
  where
    scripted :
        (o : Option Bytes) (spk : Bytes)
        → o ≡ some spk
        → contains_item (insert_script f o) spk ≡ true
    scripted none spk e = absurd (cc)
    scripted (some t) spk e =
        unfold insert_script in
        subst (λ (s : Bytes). contains_item (insert_item f t).0 s ≡ true) same
          (contains_item-insert_item f t (insert_item-HasRoom (length addrs) f t h).0)
      where
        same : t ≡ spk
        same = cc
