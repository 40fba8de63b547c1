-- ===== src/Demo/Base58/Address.antt =====
-- Addresses and their scripts.
use mvclight.Base.{
  ℕ, ◌+◌, ◌-◌, ◌^◌, ◌<◌, ◌≡◌, refl, sym, arith, false, [], ◌∷◌, ◌++◌, some, ltb, length, take, drop,
  All, replicate, length-append, length-take, take-append_exact, drop-append_exact,
}
use mvclight.Wire.{Bytes, IsByte}
use mvclight.Wire.BigEndian.{read_be}
use mvclight.Uint256.Order.{eq_self}
use mvclight.Sha256.{sha256d}
use mvclight.Sha256.Digest.{sha256d_shape}
use mvclight.Demo.Base58.{
  verified, checked, decode_base58_check, script_of, address_to_script_pubkey,
}
use mvclight.Demo.Base58.RoundTrip.{base58_digits, decode_base58-base58_digits}

-- A payload with its checksum.
unfoldable pub sealed : Bytes → Bytes
sealed payload = payload ++ take 4 (sha256d payload)

length-checksum : (payload : Bytes) → length (take 4 (sha256d payload)) ≡ 4
length-checksum payload = omega (arith, length-take 4 (sha256d payload), (sha256d_shape payload).0)

verified-append :
    (payload checksum : Bytes)
    → 0 < length payload
    → length checksum ≡ 4
    → take 4 (sha256d payload) ≡ checksum
    → verified (payload ++ checksum) ≡ some payload
unfolding verified
verified-append payload checksum h k e = rw (no_less, taken, dropped, e, eq_self checksum) refl
  where
    total : length (payload ++ checksum) ≡ length payload + 4
    total = omega (arith, length-append payload checksum)

    no_less : ltb (length (payload ++ checksum)) 5 ≡ false
    no_less = ground (arith, total)

    taken : take (length (payload ++ checksum) - 4) (payload ++ checksum) ≡ payload
    taken =
        take-append_exact (length (payload ++ checksum) - 4) payload checksum (omega (arith, total))

    dropped : drop (length (payload ++ checksum) - 4) (payload ++ checksum) ≡ checksum
    dropped =
        drop-append_exact (length (payload ++ checksum) - 4) payload checksum (omega (arith, total))

verified-sealed : (payload : Bytes) → 0 < length payload → verified (sealed payload) ≡ some payload
unfolding sealed
verified-sealed payload h =
    verified-append payload (take 4 (sha256d payload)) h (length-checksum payload) refl

-- The address of a hash of 20 bytes with version 0, in Base58Check, yields its P2PKH script: the
-- text has a `1` for each of its z leading zero bytes, and then its number in base 58, in at most
-- `k` digits. The number is not zero.
pub address_to_script_pubkey-sealed :
    (hash : Bytes) (z k b : ℕ) (bs : Bytes)
    → length hash ≡ 20
    → sealed (0 ∷ hash) ≡ replicate z 0 ++ b ∷ bs
    → All IsByte (b ∷ bs)
    → 0 < b
    → read_be (b ∷ bs) < 58 ^ k
    → address_to_script_pubkey (replicate z b'1' ++ base58_digits k (read_be (b ∷ bs)))
      ≡ some (0x76 ∷ 0xa9 ∷ 0x14 ∷ (hash ++ 0x88 ∷ 0xac ∷ []))
unfolding address_to_script_pubkey decode_base58_check checked script_of
address_to_script_pubkey-sealed hash z k b bs h e bytes p small =
    rw
      (
        decode_base58-base58_digits z k b bs bytes p small,
        sym e,
        verified-sealed (0 ∷ hash) (omega arith),
        h,
      )
      refl
