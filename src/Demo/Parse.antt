-- ===== src/Demo/Parse.antt =====
-- demo/demo_win32.cpp: the identifier of a raw transaction, and the transactions of a raw block that
-- pay a watched script. A cursor with its end is the list of the bytes that are not read yet. A
-- cursor that is moved by 2^63 bytes or more, which no pointer can be, is undefined behaviour.
pub mod Wired
pub mod Block
use mvclight.Base.{
  ℕ, zero, suc, ◌+◌, ◌-◌, ◌^◌, ◌==◌, Bool, true, false, ◌&&◌, ◌||◌, List, [], ◌∷◌, ◌++◌, Option,
  none, some, ltb, leb, if◌then◌else◌, length, take, drop,
}
use mvclight.Wire
use mvclight.Wire.{Bytes}
use mvclight.Uint256.{Uint256, eq as bytes_eq}
use mvclight.Sha256.{sha256d}

pub data Outcome {ℓ} (A : Type ℓ) : Type ℓ where
  done : A → Outcome A
  refused : Outcome A
  undefined : Outcome A

infixl 5 ◌>>=◌
abbrev pub ◌>>=◌ {ℓ κ} : {A : Type ℓ} {B : Type κ} → Outcome A → (A → Outcome B) → Outcome B
done a >>= f = f a
refused >>= f = refused
undefined >>= f = undefined

abbrev pub of_option {ℓ} : {A : Type ℓ} → Option A → Outcome A
of_option none = refused
of_option (some a) = done a

-- `if (p + n > end) return false; p += n;`
unfoldable pub advance : ℕ → Bytes → Outcome Bytes
advance n p =
    if leb (2 ^ 63) n then undefined else (if ltb (length p) n then refused else done (drop n p))

-- `ReadCompactSize`, whose `ok` is false for `refused`.
unfoldable pub read_compact_size : Bytes → Outcome (ℕ × Bytes)
read_compact_size p = of_option (Wire.read_compact_size p)

-- One input: the previous output, the script and the sequence number.
unfoldable pub skip_input : Bytes → Outcome Bytes
skip_input p = do q ← advance 36 p; (slen, r) ← read_compact_size q; advance (slen + 4) r

unfoldable pub skip_inputs : ℕ → Bytes → Outcome Bytes
skip_inputs zero p = done p
skip_inputs (suc n) p = skip_input p >>= λ q. skip_inputs n q

-- One output of `ParseTxid`: the amount and the script.
unfoldable pub skip_output : Bytes → Outcome Bytes
skip_output p = do q ← advance 8 p; (slen, r) ← read_compact_size q; advance slen r

unfoldable pub skip_outputs : ℕ → Bytes → Outcome Bytes
skip_outputs zero p = done p
skip_outputs (suc n) p = skip_output p >>= λ q. skip_outputs n q

-- The last part of `ParseTxid`: the lock time ends the bytes.
unfoldable pub hash_whole : Bytes → Bytes → Outcome Uint256
hash_whole whole p = if length p == 4 then done (sha256d whole) else refused

unfoldable pub parse_txid : Bytes → Outcome Uint256
unfolding skip_inputs skip_outputs hash_whole
parse_txid p =
    let body = do
      (vin, q) ← read_compact_size (drop 4 p)
      r ← skip_inputs vin q
      (vout, s) ← read_compact_size r
      t ← skip_outputs vout s
      hash_whole p t
    in if ltb (length p) 10 then refused else body

unfoldable pub any_equal : List Bytes → Bytes → Bool
any_equal [] script = false
any_equal (spk ∷ spks) script = bytes_eq spk script || any_equal spks script

-- One output of a block: whether its script is watched, and the cursor behind it.
unfoldable pub scan_output : List Bytes → Bytes → Outcome (Bool × Bytes)
unfolding any_equal
scan_output spks p = do
  q ← advance 8 p
  (slen, r) ← read_compact_size q
  s ← advance slen r
  done (any_equal spks (take slen r), s)

unfoldable pub scan_outputs : ℕ → List Bytes → Bool → Bytes → Outcome (Bool × Bytes)
scan_outputs zero spks matched p = done (matched, p)
scan_outputs (suc n) spks matched p =
    scan_output spks p >>= λ r. scan_outputs n spks (matched || r.0) r.1

-- One transaction of a block.
unfoldable pub scan_tx : List Bytes → Bytes → Outcome (Bool × Bytes)
scan_tx spks p = do
  q ← advance 4 p
  (vin, r) ← read_compact_size q
  s ← skip_inputs vin r
  (vout, t) ← read_compact_size s
  u ← scan_outputs vout spks false t
  v ← advance 4 u.1
  done (u.0, v)

-- The identifiers committed so far, and how the walk ended.
abbrev pub Scan : Type 0
Scan = List Uint256 × Outcome (Unit {0})

with_txid : Outcome Uint256 → Scan → Scan
with_txid (done txid) (found, ended) = (txid ∷ found, ended)
with_txid refused rest = rest
with_txid undefined rest = ([], undefined)

unfoldable pub scan_turn : Bytes → Outcome (Bool × Bytes) → (Bytes → Scan) → Scan
unfolding with_txid
scan_turn p refused next = ([], refused)
scan_turn p undefined next = ([], undefined)
scan_turn p (done (matched, q)) next =
    if matched then with_txid (parse_txid (take (length p - length q) p)) (next q) else next q

unfoldable pub scan_txs : ℕ → List Bytes → Bytes → Scan
scan_txs zero spks p = ([], done tt)
scan_txs (suc n) spks p = scan_turn p (scan_tx spks p) (λ q. scan_txs n spks q)

scan_counted : List Bytes → Outcome (ℕ × Bytes) → Scan
scan_counted spks refused = ([], refused)
scan_counted spks undefined = ([], undefined)
scan_counted spks (done (ntx, p)) = scan_txs ntx spks p

-- `ParseBlockAndMatch`, with the identifiers that it commits in their order.
unfoldable pub parse_block_and_match : Bytes → List Bytes → Scan
unfolding scan_counted
parse_block_and_match block watch_spks =
    if ltb (length block) 81
    then ([], refused)
    else scan_counted watch_spks (read_compact_size (drop 80 block))
