-- ===== src/Sha256/Sample.antt =====
-- One run of light_sha256.cpp: the checksum of a short text.
use mvclight.Base.{◌≡◌, refl, [], ◌∷◌, take}
use mvclight.Wire.{Bytes}
use mvclight.Sha256.{
  new, settle, write_loop, write, pad_zeros, write_be, finish, state_bytes, finalize, hash, sha256d,
  transform,
}

abbrev pub sample : Bytes
sample =
    0 ∷ 1 ∷ 2 ∷ 3 ∷ 4 ∷ 5 ∷ 6 ∷ 7 ∷ 8 ∷ 9 ∷ 10 ∷ 11 ∷ 12 ∷ 13 ∷ 14 ∷ 15 ∷ 16 ∷ 17 ∷ 18 ∷ 19 ∷ 20
    ∷ []

pub sample_checksum : take 4 (sha256d sample) ≡ 250 ∷ 85 ∷ 182 ∷ 74 ∷ []
unfolding sha256d hash finalize finish state_bytes write_be pad_zeros write write_loop settle
    transform new
sample_checksum = refl
