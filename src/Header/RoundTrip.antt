-- ===== src/Header/RoundTrip.antt =====
-- A header and its 80 bytes.
use mvclight.Base.{
  ℕ, ◌^◌, ◌<◌, ◌≡◌, refl, ap, ◌∙◌, [], ◌++◌, some, length, take, drop, arith, append_assoc,
  append-nil, length-append, take-append_exact, drop-append_exact,
}
use mvclight.Wire.{Bytes, write_le, read_le32}
use mvclight.Wire.Endian.{length-write_le, read_le32-write_le}
use mvclight.Header.{LightBlockHeader, IsHeader, header_size, serialize, deserialize}

-- A number and 32 bytes at an offset of a byte string.
field_number :
    (off v : ℕ) (p front rest : Bytes)
    → length front ≡ off
    → v < 2 ^ 32
    → p ≡ front ++ (write_le 4 v ++ rest)
    → read_le32 (drop off p) ≡ v
field_number off v p front rest h hv e =
    ap (λ (t : Bytes). read_le32 (drop off t)) e
    ∙ ap read_le32 (drop-append_exact off front (write_le 4 v ++ rest) h)
    ∙ read_le32-write_le v rest hv

field_bytes :
    (off n : ℕ) (p front x rest : Bytes)
    → length front ≡ off
    → length x ≡ n
    → p ≡ front ++ (x ++ rest)
    → take n (drop off p) ≡ x
field_bytes off n p front x rest h hx e =
    ap (λ (t : Bytes). take n (drop off t)) e
    ∙ ap (take n) (drop-append_exact off front (x ++ rest) h)
    ∙ take-append_exact n x rest hx

module _ (h : LightBlockHeader) (w : IsHeader h) where
  -- What `Serialize` writes before each field.
  before_root : Bytes
  before_root = write_le 4 h.n_version ++ h.hash_prev_block

  before_time : Bytes
  before_time = before_root ++ h.hash_merkle_root

  before_bits : Bytes
  before_bits = before_time ++ write_le 4 h.n_time

  before_nonce : Bytes
  before_nonce = before_bits ++ write_le 4 h.n_bits

  lengths :
      (length before_root ≡ 36)
      × (length before_time ≡ 68)
      × (length before_bits ≡ 72)
      × (length before_nonce ≡ 76)
      × (length (serialize h) ≡ 80)
  unfolding serialize before_root before_time before_bits before_nonce
  lengths = simp (length-append, length-write_le, w.prev_is.0, w.root_is.0) (omega arith)

  version_back : read_le32 (serialize h) ≡ h.n_version
  unfolding serialize
  version_back = field_number 0 h.n_version (serialize h) [] _ refl w.version_fits refl

  prev_back : take 32 (drop 4 (serialize h)) ≡ h.hash_prev_block
  unfolding serialize
  prev_back =
      field_bytes 4 32 (serialize h) (write_le 4 h.n_version) h.hash_prev_block _
        (length-write_le 4 h.n_version) w.prev_is.0 refl

  root_back : take 32 (drop 36 (serialize h)) ≡ h.hash_merkle_root
  unfolding serialize before_root
  root_back =
      field_bytes 36 32 (serialize h) before_root h.hash_merkle_root
        (write_le 4 h.n_time ++ (write_le 4 h.n_bits ++ write_le 4 h.n_nonce)) lengths.0 w.root_is.0
        (simp append_assoc)

  time_back : read_le32 (drop 68 (serialize h)) ≡ h.n_time
  unfolding serialize before_root before_time
  time_back =
      field_number 68 h.n_time (serialize h) before_time
        (write_le 4 h.n_bits ++ write_le 4 h.n_nonce) lengths.1 w.time_fits (simp append_assoc)

  bits_back : read_le32 (drop 72 (serialize h)) ≡ h.n_bits
  unfolding serialize before_root before_time before_bits
  bits_back =
      field_number 72 h.n_bits (serialize h) before_bits (write_le 4 h.n_nonce) lengths.2 w.bits_fit
        (simp append_assoc)

  nonce_back : read_le32 (drop 76 (serialize h)) ≡ h.n_nonce
  unfolding serialize before_root before_time before_bits before_nonce
  nonce_back =
      field_number 76 h.n_nonce (serialize h) before_nonce [] lengths.3 w.nonce_fits
        (simp (append_assoc, append-nil))

  -- `Deserialize` reads back every header from the bytes that `Serialize` wrote, and those are 80,
  -- for a header whose fields have their widths.
  pub deserialize-serialize :
      (deserialize (serialize h) ≡ some h) × (length (serialize h) ≡ header_size)
  unfolding deserialize
  deserialize-serialize = (
    ground (arith, lengths, version_back, prev_back, root_back, time_back, bits_back, nonce_back),
    lengths.4,
  )
