-- ===== src/Demo/Parse/Wired.antt =====
-- Transactions on the wire, an independent description, and what `ParseTxid` makes of them.
use mvclight.Base.{
  ℕ, suc, ◌+◌, ◌^◌, ◌<◌, ◌≤◌, ◌≡◌, refl, sym, arith, List, [], ◌∷◌, ◌++◌, ltb, length, drop, All,
  append_assoc, length-append, drop-append_exact, true, false, ◌==◌,
}
use mvclight.Wire.{Bytes, write_compact_size, write_le}
use mvclight.Wire.CompactSize.{read_compact_size-write_compact_size}
use mvclight.Sha256.{sha256d}
use mvclight.Demo.Parse.{
  done, undefined, advance, read_compact_size, skip_input, skip_inputs, skip_output, skip_outputs,
  hash_whole, parse_txid,
}

pub record WireIn : Type 0 where
  pub prevout : Bytes
  pub script_sig : Bytes
  pub sequence : Bytes

pub record WireOut : Type 0 where
  pub amount : Bytes
  pub script_pubkey : Bytes

pub record WireTx : Type 0 where
  pub version : Bytes
  pub vin : List WireIn
  pub vout : List WireOut
  pub lock_time : Bytes

-- The bytes of a transaction before `rest`.
unfoldable pub wire_input : WireIn → Bytes → Bytes
wire_input i rest =
    i.prevout
    ++ (write_compact_size (length i.script_sig) ++ (i.script_sig ++ (i.sequence ++ rest)))

unfoldable pub wire_inputs : List WireIn → Bytes → Bytes
wire_inputs [] rest = rest
wire_inputs (i ∷ is) rest = wire_input i (wire_inputs is rest)

unfoldable pub wire_output : WireOut → Bytes → Bytes
wire_output o rest =
    o.amount ++ (write_compact_size (length o.script_pubkey) ++ (o.script_pubkey ++ rest))

unfoldable pub wire_outputs : List WireOut → Bytes → Bytes
wire_outputs [] rest = rest
wire_outputs (o ∷ os) rest = wire_output o (wire_outputs os rest)

unfoldable pub wire_tx : WireTx → Bytes → Bytes
wire_tx tx rest =
    tx.version
    ++ (write_compact_size (length tx.vin)
        ++ wire_inputs tx.vin
            (write_compact_size (length tx.vout) ++ wire_outputs tx.vout (tx.lock_time ++ rest)))

-- The widths of the fields, and scripts that fit a memory.
abbrev pub IsWireIn : WireIn → Type 0
IsWireIn i = (length i.prevout ≡ 36) × (length i.script_sig < 2 ^ 62) × (length i.sequence ≡ 4)

abbrev pub IsWireOut : WireOut → Type 0
IsWireOut o = (length o.amount ≡ 8) × (length o.script_pubkey < 2 ^ 62)

pub record IsWireTx (tx : WireTx) : Type 0 where
  pub version_four : length tx.version ≡ 4
  pub inputs : All IsWireIn tx.vin
  pub inputs_few : length tx.vin < 2 ^ 64
  pub outputs : All IsWireOut tx.vout
  pub outputs_few : length tx.vout < 2 ^ 64
  pub lock_time_four : length tx.lock_time ≡ 4

pub advance-append :
    (n : ℕ) (xs rest : Bytes) → length xs ≡ n → n < 2 ^ 63 → advance n (xs ++ rest) ≡ done rest
unfolding advance
advance-append n xs rest h k =
    rw (drop-append_exact n xs rest h) (ground (arith, length-append xs rest))

pub read_compact_size-wired :
    (v : ℕ) (rest : Bytes)
    → v < 2 ^ 64
    → read_compact_size (write_compact_size v ++ rest) ≡ done (v, rest)
unfolding read_compact_size
read_compact_size-wired v rest h = rw (read_compact_size-write_compact_size v rest h) refl

skip_input-wired :
    (i : WireIn) (rest : Bytes) → IsWireIn i → skip_input (wire_input i rest) ≡ done rest
unfolding skip_input wire_input
skip_input-wired i rest h =
    rw
      (
        advance-append 36 i.prevout
            (write_compact_size (length i.script_sig) ++ (i.script_sig ++ (i.sequence ++ rest))) h.0
            (omega arith),
        read_compact_size-wired (length i.script_sig) (i.script_sig ++ (i.sequence ++ rest))
            (omega arith),
        sym (append_assoc i.script_sig i.sequence rest),
      )
      (advance-append (length i.script_sig + 4) (i.script_sig ++ i.sequence) rest
        (omega (arith, length-append i.script_sig i.sequence)) (omega arith))

pub skip_inputs-wired :
    (is : List WireIn) (rest : Bytes)
    → All IsWireIn is
    → skip_inputs (length is) (wire_inputs is rest) ≡ done rest
unfolding skip_inputs wire_inputs
skip_inputs-wired [] rest h = refl
skip_inputs-wired (i ∷ is) rest h =
    rw (skip_input-wired i (wire_inputs is rest) h.0) (skip_inputs-wired is rest h.1)

skip_output-wired :
    (o : WireOut) (rest : Bytes) → IsWireOut o → skip_output (wire_output o rest) ≡ done rest
unfolding skip_output wire_output
skip_output-wired o rest h =
    rw
      (
        advance-append 8 o.amount
            (write_compact_size (length o.script_pubkey) ++ (o.script_pubkey ++ rest)) h.0
            (omega arith),
        read_compact_size-wired (length o.script_pubkey) (o.script_pubkey ++ rest) (omega arith),
      )
      (advance-append (length o.script_pubkey) o.script_pubkey rest refl (omega arith))

skip_outputs-wired :
    (os : List WireOut) (rest : Bytes)
    → All IsWireOut os
    → skip_outputs (length os) (wire_outputs os rest) ≡ done rest
unfolding skip_outputs wire_outputs
skip_outputs-wired [] rest h = refl
skip_outputs-wired (o ∷ os) rest h =
    rw (skip_output-wired o (wire_outputs os rest) h.0) (skip_outputs-wired os rest h.1)

behind : (xs rest : Bytes) → length rest ≤ length (xs ++ rest)
behind xs rest = omega (arith, length-append xs rest)

wire_inputs-ge : (is : List WireIn) (rest : Bytes) → length rest ≤ length (wire_inputs is rest)
unfolding wire_inputs wire_input
wire_inputs-ge [] rest = omega arith
wire_inputs-ge (i ∷ is) rest = omega (
  arith,
  wire_inputs-ge is rest,
  behind i.sequence (wire_inputs is rest),
  behind i.script_sig (i.sequence ++ wire_inputs is rest),
  behind (write_compact_size (length i.script_sig))
      (i.script_sig ++ (i.sequence ++ wire_inputs is rest)),
  behind i.prevout (
      write_compact_size (length i.script_sig)
      ++ (i.script_sig ++ (i.sequence ++ wire_inputs is rest))),
)

wire_outputs-ge : (os : List WireOut) (rest : Bytes) → length rest ≤ length (wire_outputs os rest)
unfolding wire_outputs wire_output
wire_outputs-ge [] rest = omega arith
wire_outputs-ge (o ∷ os) rest = omega (
  arith,
  wire_outputs-ge os rest,
  behind o.script_pubkey (wire_outputs os rest),
  behind (write_compact_size (length o.script_pubkey)) (o.script_pubkey ++ wire_outputs os rest),
  behind o.amount
      (write_compact_size (length o.script_pubkey) ++ (o.script_pubkey ++ wire_outputs os rest)),
)

pub one_or_more : (v : ℕ) (rest : Bytes) → suc (length rest) ≤ length (write_compact_size v ++ rest)
unfolding write_compact_size write_le
one_or_more v rest = ground (
  arith,
  length-append (write_le 2 v) rest,
  length-append (write_le 4 v) rest,
  length-append (write_le 8 v) rest,
)

module _ (tx : WireTx) (h : IsWireTx tx) (rest : Bytes) where
  -- The bytes behind the inputs, and those behind the version.
  abbrev pub outputs_part : Bytes
  outputs_part = write_compact_size (length tx.vout) ++ wire_outputs tx.vout (tx.lock_time ++ rest)

  abbrev pub inputs_part : Bytes
  inputs_part = write_compact_size (length tx.vin) ++ wire_inputs tx.vin outputs_part

  ten_or_more : length rest + 10 ≤ length (wire_tx tx rest)
  unfolding wire_tx
  ten_or_more = omega (
    arith,
    h.version_four,
    h.lock_time_four,
    length-append tx.version inputs_part,
    length-append tx.lock_time rest,
    one_or_more (length tx.vin) (wire_inputs tx.vin outputs_part),
    one_or_more (length tx.vout) (wire_outputs tx.vout (tx.lock_time ++ rest)),
    wire_inputs-ge tx.vin outputs_part,
    wire_outputs-ge tx.vout (tx.lock_time ++ rest),
  )

  drop-version : drop 4 (wire_tx tx rest) ≡ inputs_part
  unfolding wire_tx
  drop-version = drop-append_exact 4 tx.version inputs_part h.version_four

-- `ParseTxid` accepts the bytes of every transaction, and yields the double hash of all of them.
pub parse_txid-wire_tx :
    (tx : WireTx) → IsWireTx tx → parse_txid (wire_tx tx []) ≡ done (sha256d (wire_tx tx []))
unfolding parse_txid hash_whole
parse_txid-wire_tx tx h =
    rw
      (
        long,
        drop-version tx h [],
        read_compact_size-wired (length tx.vin) (wire_inputs tx.vin (outputs_part tx h []))
            h.inputs_few,
        skip_inputs-wired tx.vin (outputs_part tx h []) h.inputs,
        read_compact_size-wired (length tx.vout) (wire_outputs tx.vout (tx.lock_time ++ []))
            h.outputs_few,
        skip_outputs-wired tx.vout (tx.lock_time ++ []) h.outputs,
        ends,
      )
      refl
  where
    long : ltb (length (wire_tx tx [])) 10 ≡ false
    long = ground (arith, ten_or_more tx h [])

    ends : (length (tx.lock_time ++ []) == 4) ≡ true
    ends = ground (arith, length-append tx.lock_time [], h.lock_time_four)

-- A transaction of an unsound length: the version, a count of 1 to 2^63 inputs, one previous output,
-- and a length of its script of 2^63 or more, whatever follows. `ParseTxid` then adds the length to
-- its cursor before it compares it with the end, which is undefined behaviour.
pub parse_txid-undefined :
    (version prevout rest : Bytes) (count slen : ℕ)
    → length version ≡ 4
    → length prevout ≡ 36
    → count < 2 ^ 63
    → 2 ^ 63 ≤ slen
    → slen < 2 ^ 64
    → parse_txid (
        version
        ++ (write_compact_size (suc count) ++ (prevout ++ (write_compact_size slen ++ rest))))
      ≡ undefined
unfolding parse_txid skip_inputs skip_input
parse_txid-undefined version prevout rest count slen hv hp few large fits =
    rw
      (
        long,
        drop-append_exact 4 version
            (write_compact_size (suc count) ++ (prevout ++ (write_compact_size slen ++ rest))) hv,
        read_compact_size-wired (suc count) (prevout ++ (write_compact_size slen ++ rest))
            (omega arith),
        advance-append 36 prevout (write_compact_size slen ++ rest) hp (omega arith),
        read_compact_size-wired slen rest fits,
        beyond,
      )
      refl
  where
    long :
        ltb
          (length (
            version
            ++ (write_compact_size (suc count) ++ (prevout ++ (write_compact_size slen ++ rest)))))
          10
        ≡ false
    long = ground (
      arith,
      hv,
      hp,
      length-append version
          (write_compact_size (suc count) ++ (prevout ++ (write_compact_size slen ++ rest))),
      behind (write_compact_size (suc count)) (prevout ++ (write_compact_size slen ++ rest)),
      length-append prevout (write_compact_size slen ++ rest),
    )

    beyond : advance (slen + 4) rest ≡ undefined
    beyond = unfold advance in ground arith
