-- ===== src/Storage/Bytes/Words.antt =====
-- Little-endian numbers are read back.
use native.Mathlib.Numerals.{unary_clauses}
use plywise.Prelude.{ℕ, zero, suc, ◌*◌, ◌/◌, ◌^◌, ◌<◌, ◌≡◌, refl, ap, arith, ◌++◌, length}
use plywise.Storage.Bytes.{Bytes, append_little_endian, read_little_endian, checksum}

pub length-append_little_endian : (k value : ℕ) → length (append_little_endian k value) ≡ k
unfolding append_little_endian
length-append_little_endian zero value = refl
length-append_little_endian (suc k) value = ap suc (length-append_little_endian k (value / 256))

one_more : (k : ℕ) → 256 ^ suc k ≡ 256 * 256 ^ k
one_more k = simp unary_clauses (omega arith)

pub read-append_little_endian :
    (k value : ℕ) (rest : Bytes)
    → value < 256 ^ k
    → read_little_endian k (append_little_endian k value ++ rest) ≡ value
unfolding read_little_endian append_little_endian
read-append_little_endian zero value rest h = omega arith
read-append_little_endian (suc k) value rest h =
    let small : value / 256 < 256 ^ k = omega (arith, one_more k) in
    omega (arith, read-append_little_endian k (value / 256) rest small)

pub checksum-lt : (bytes : Bytes) → checksum bytes < 4294967296
unfolding checksum
checksum-lt bytes = omega arith
