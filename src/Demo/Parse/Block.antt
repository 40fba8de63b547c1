-- ===== src/Demo/Parse/Block.antt =====
-- Blocks on the wire, and the transactions that `ParseBlockAndMatch` commits.
use mvclight.Base.{
  ◌-◌, ◌^◌, ◌<◌, ◌≡◌, refl, ap, ◌∙◌, arith, Bool, true, false, ◌||◌, List, [], ◌∷◌, ◌++◌, ltb,
  length, take, All, append_assoc, append-nil, length-append, drop-append_exact, take-append_exact,
  if◌then◌else◌,
}
use mvclight.Wire.{Bytes, write_compact_size}
use mvclight.Uint256.{Uint256}
use mvclight.Sha256.{sha256d}
use mvclight.Demo.Parse.{
  done, any_equal, scan_output, scan_outputs, scan_tx, Scan, with_txid, scan_turn, scan_txs,
  scan_counted, parse_block_and_match,
}
use mvclight.Demo.Parse.Wired.{
  WireIn, WireOut, WireTx, wire_input, wire_inputs, wire_output, wire_outputs, wire_tx, IsWireOut,
  IsWireTx, advance-append, read_compact_size-wired, skip_inputs-wired, outputs_part, inputs_part,
  parse_txid-wire_tx, one_or_more,
}

-- The bytes of some transactions before `rest`.
unfoldable pub wire_txs : List WireTx → Bytes → Bytes
wire_txs [] rest = rest
wire_txs (tx ∷ txs) rest = wire_tx tx (wire_txs txs rest)

-- Whether an output has a watched script.
unfoldable pub pays : List Bytes → List WireOut → Bool
pays spks [] = false
pays spks (o ∷ os) = any_equal spks o.script_pubkey || pays spks os

-- The identifiers of the transactions that pay a watched script, in their order.
unfoldable pub paying : List Bytes → List WireTx → List Uint256
paying spks [] = []
paying spks (tx ∷ txs) =
    if pays spks tx.vout then sha256d (wire_tx tx []) ∷ paying spks txs else paying spks txs

scan_output-wired :
    (spks : List Bytes) (o : WireOut) (rest : Bytes)
    → IsWireOut o
    → scan_output spks (wire_output o rest) ≡ done (any_equal spks o.script_pubkey, rest)
unfolding scan_output wire_output
scan_output-wired spks o rest h =
    rw
      (
        advance-append 8 o.amount
            (write_compact_size (length o.script_pubkey) ++ (o.script_pubkey ++ rest)) h.0
            (omega arith),
        read_compact_size-wired (length o.script_pubkey) (o.script_pubkey ++ rest) (omega arith),
        advance-append (length o.script_pubkey) o.script_pubkey rest refl (omega arith),
        take-append_exact (length o.script_pubkey) o.script_pubkey rest refl,
      )
      refl

or_assoc : (a b c : Bool) → ((a || b) || c) ≡ (a || (b || c))
or_assoc true b c = refl
or_assoc false b c = refl

or_false : (a : Bool) → a ≡ (a || false)
or_false true = refl
or_false false = refl

scan_outputs-wired :
    (spks : List Bytes) (matched : Bool) (os : List WireOut) (rest : Bytes)
    → All IsWireOut os
    → scan_outputs (length os) spks matched (wire_outputs os rest)
      ≡ done (matched || pays spks os, rest)
unfolding scan_outputs wire_outputs pays
scan_outputs-wired spks matched [] rest h = ap (λ (m : Bool). done (m, rest)) (or_false matched)
scan_outputs-wired spks matched (o ∷ os) rest h =
    rw (scan_output-wired spks o (wire_outputs os rest) h.0) (
      scan_outputs-wired spks (matched || any_equal spks o.script_pubkey) os rest h.1
      ∙ ap (λ (m : Bool). done (m, rest))
          (or_assoc matched (any_equal spks o.script_pubkey) (pays spks os)))

scan_tx-wired :
    (spks : List Bytes) (tx : WireTx) (rest : Bytes)
    → IsWireTx tx
    → scan_tx spks (wire_tx tx rest) ≡ done (pays spks tx.vout, rest)
unfolding scan_tx wire_tx
scan_tx-wired spks tx rest h =
    rw
      (
        advance-append 4 tx.version (inputs_part tx h rest) h.version_four (omega arith),
        read_compact_size-wired (length tx.vin) (wire_inputs tx.vin (outputs_part tx h rest))
            h.inputs_few,
        skip_inputs-wired tx.vin (outputs_part tx h rest) h.inputs,
        read_compact_size-wired (length tx.vout) (wire_outputs tx.vout (tx.lock_time ++ rest))
            h.outputs_few,
        scan_outputs-wired spks false tx.vout (tx.lock_time ++ rest) h.outputs,
        advance-append 4 tx.lock_time rest h.lock_time_four (omega arith),
      )
      refl

-- The bytes of a transaction end where the rest begins.
wire_inputs-append :
    (is : List WireIn) (a b : Bytes) → wire_inputs is (a ++ b) ≡ wire_inputs is a ++ b
unfolding wire_inputs wire_input
wire_inputs-append [] a b = refl
wire_inputs-append (i ∷ is) a b = simp (wire_inputs-append is a b, append_assoc)

wire_outputs-append :
    (os : List WireOut) (a b : Bytes) → wire_outputs os (a ++ b) ≡ wire_outputs os a ++ b
unfolding wire_outputs wire_output
wire_outputs-append [] a b = refl
wire_outputs-append (o ∷ os) a b = simp (wire_outputs-append os a b, append_assoc)

wire_tx-append : (tx : WireTx) (rest : Bytes) → wire_tx tx rest ≡ wire_tx tx [] ++ rest
unfolding wire_tx
wire_tx-append tx rest = simp (append-nil, wire_outputs-append, wire_inputs-append, append_assoc)

taken :
    (tx : WireTx) (rest : Bytes)
    → take (length (wire_tx tx rest) - length rest) (wire_tx tx rest) ≡ wire_tx tx []
taken tx rest = rw (wire_tx-append tx rest) (
    take-append_exact (length (wire_tx tx [] ++ rest) - length rest) (wire_tx tx []) rest
      (omega (arith, length-append (wire_tx tx []) rest)))

abbrev joined : List Uint256 → Scan
joined found = (found, done tt)

scan_turn-wired :
    (spks : List Bytes) (tx : WireTx) (rest : Bytes) (found : List Uint256)
    → IsWireTx tx
    → (next : Bytes → Scan) → next rest ≡ (found, done tt)
    → scan_turn (wire_tx tx rest) (scan_tx spks (wire_tx tx rest)) next
      ≡ joined (if pays spks tx.vout then sha256d (wire_tx tx []) ∷ found else found)
unfolding scan_turn with_txid
scan_turn-wired spks tx rest found h next e =
    rw (scan_tx-wired spks tx rest h, taken tx rest, parse_txid-wire_tx tx h, e)
      (branch (pays spks tx.vout))
  where
    branch :
        (b : Bool)
        → (if b then joined (sha256d (wire_tx tx []) ∷ found) else joined found)
          ≡ joined (if b then sha256d (wire_tx tx []) ∷ found else found)
    branch true = refl
    branch false = refl

scan_txs-wired :
    (spks : List Bytes) (txs : List WireTx) (rest : Bytes)
    → All IsWireTx txs
    → scan_txs (length txs) spks (wire_txs txs rest) ≡ (paying spks txs, done tt)
unfolding scan_txs wire_txs paying
scan_txs-wired spks [] rest h = refl
scan_txs-wired spks (tx ∷ txs) rest h =
    scan_turn-wired spks tx (wire_txs txs rest) (paying spks txs) h.0
      (λ q. scan_txs (length txs) spks q) (scan_txs-wired spks txs rest h.1)

-- From a block of a header of 80 bytes and transactions whose fields have their widths, with scripts
-- below 2^62 bytes and whatever behind them, `ParseBlockAndMatch` commits exactly the transactions with
-- an output that pays a watched script, each once and in their order, and ends with true.
pub parse_block_and_match-wire_txs :
    (header : Bytes) (txs : List WireTx) (watch_spks : List Bytes) (rest : Bytes)
    → length header ≡ 80
    → length txs < 2 ^ 64
    → All IsWireTx txs
    → parse_block_and_match
        (header ++ (write_compact_size (length txs) ++ wire_txs txs rest))
        watch_spks
      ≡ (paying watch_spks txs, done tt)
unfolding parse_block_and_match scan_counted
parse_block_and_match-wire_txs header txs watch_spks rest h few wired =
    rw
      (
        long,
        drop-append_exact 80 header (write_compact_size (length txs) ++ wire_txs txs rest) h,
        read_compact_size-wired (length txs) (wire_txs txs rest) few,
      )
      (scan_txs-wired watch_spks txs rest wired)
  where
    long :
        ltb (length (header ++ (write_compact_size (length txs) ++ wire_txs txs rest))) 81 ≡ false
    long = ground (
      arith,
      h,
      length-append header (write_compact_size (length txs) ++ wire_txs txs rest),
      one_or_more (length txs) (wire_txs txs rest),
    )
