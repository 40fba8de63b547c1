-- ===== src/Demo/WatchFile.antt =====
-- demo/demo_win32.cpp: the text file of the watched addresses, one to a line. The bytes are those that
-- the streams see: `getline` takes a line up to its end, and the last one also without it.
pub mod RoundTrip
use mvclight.Base.{ℕ, ◌==◌, List, [], ◌∷◌, ◌++◌, Option, none, some, if◌then◌else◌}
use mvclight.Wire.{Bytes}

unfoldable pub save_watch_list : List Bytes → Bytes
save_watch_list [] = []
save_watch_list (a ∷ addrs) = a ++ b'\n' ∷ save_watch_list addrs

-- `if (!line.empty() && line.back() == '\r') line.pop_back();`
unfoldable pub drop_return : Bytes → Bytes
drop_return [] = []
drop_return (c ∷ []) = if c == b'\r' then [] else c ∷ []
drop_return (c ∷ d ∷ cs) = c ∷ drop_return (d ∷ cs)

-- A line that is not empty is appended.
keep : Bytes → List Bytes → List Bytes
keep [] rest = rest
keep (c ∷ cs) rest = (c ∷ cs) ∷ rest

-- The char `c` in front of what `getline` takes next: the line, and whether there is one.
put_char : ℕ → Bytes × List Bytes → Bytes × List Bytes
put_char c (line, rest) = (c ∷ line, rest)

-- The first line, and the lines behind it that are kept.
unfoldable pub lines : Bytes → Bytes × List Bytes
unfolding keep put_char
lines [] = ([], [])
lines (c ∷ cs) =
    let rest = lines cs in
    if c == b'\n' then ([], keep (drop_return rest.0) rest.1) else put_char c rest

-- The lines of the file, appended to the addresses.
unfoldable pub load_watch_list : List Bytes → Option Bytes → List Bytes
unfolding lines
load_watch_list addrs none = addrs
load_watch_list addrs (some file) =
    let found = lines file in addrs ++ keep (drop_return found.0) found.1
