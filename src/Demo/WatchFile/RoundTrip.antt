-- ===== src/Demo/WatchFile/RoundTrip.antt =====
-- The watched addresses are read back.
use mvclight.Base.{◌≡◌, refl, ap, ◌∙◌, ◌==◌, false, List, [], ◌∷◌, ◌++◌, some, All}
use mvclight.Wire.{Bytes}
use mvclight.Demo.WatchFile.{save_watch_list, drop_return, keep, put_char, lines, load_watch_list}

-- An address: not empty, on one line, and with no carriage return.
abbrev pub IsLine : Bytes → Type 0
IsLine [] = Unit
IsLine (c ∷ cs) = ((c == b'\n') ≡ false) × ((c == b'\r') ≡ false) × IsLine cs

abbrev pub IsEntry : Bytes → Type 0
IsEntry [] = ⊥
IsEntry (c ∷ cs) = IsLine (c ∷ cs)

lines-append :
    (a rest : Bytes)
    → IsLine a
    → lines (a ++ b'\n' ∷ rest) ≡ (a, keep (drop_return (lines rest).0) (lines rest).1)
unfolding lines put_char
lines-append [] rest h = refl
lines-append (c ∷ a) rest h = rw (h.0, lines-append a rest h.2) refl

drop_return-IsLine : (a : Bytes) → IsLine a → drop_return a ≡ a
unfolding drop_return
drop_return-IsLine [] h = refl
drop_return-IsLine (c ∷ []) h = rw h.1 refl
drop_return-IsLine (c ∷ d ∷ cs) h = ap (λ (t : Bytes). c ∷ t) (drop_return-IsLine (d ∷ cs) h.2)

keep-IsEntry : (a : Bytes) (rest : List Bytes) → IsEntry a → keep (drop_return a) rest ≡ a ∷ rest
keep-IsEntry [] rest h = absurd h
keep-IsEntry (c ∷ cs) rest h = rw (drop_return-IsLine (c ∷ cs) h) (unfold keep in refl)

entry-IsLine : (a : Bytes) → IsEntry a → IsLine a
entry-IsLine [] h = absurd h
entry-IsLine (c ∷ cs) h = h

lines-save_watch_list :
    (addrs : List Bytes)
    → All IsEntry addrs
    → keep (drop_return (lines (save_watch_list addrs)).0) (lines (save_watch_list addrs)).1 ≡ addrs
unfolding save_watch_list
lines-save_watch_list [] h = unfold lines drop_return keep in refl
lines-save_watch_list (a ∷ addrs) h =
    rw (lines-append a (save_watch_list addrs) (entry-IsLine a h.0)) (
      keep-IsEntry a
        (keep (drop_return (lines (save_watch_list addrs)).0) (lines (save_watch_list addrs)).1) h.0
      ∙ ap (λ (t : List Bytes). a ∷ t) (lines-save_watch_list addrs h.1))

-- `LoadWatchList` appends to the list the addresses that `SaveWatchList` wrote, each not empty and
-- without the chars that end a line.
pub load_watch_list-save_watch_list :
    (before addrs : List Bytes)
    → All IsEntry addrs
    → load_watch_list before (some (save_watch_list addrs)) ≡ before ++ addrs
unfolding load_watch_list
load_watch_list-save_watch_list before addrs h =
    ap (λ (t : List Bytes). before ++ t) (lines-save_watch_list addrs h)
