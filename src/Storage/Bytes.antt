-- ===== src/Storage/Bytes.antt =====
-- Bytes and the little-endian numbers of src/storage/event_log.cpp. A byte is a number below 256.
pub mod Words
use Prim.Native.Nat.{bit_xor}
use plywise.Prelude.{ℕ, zero, suc, ◌+◌, ◌-◌, ◌*◌, ◌/◌, ◌%◌, List, [], ◌∷◌, ◌==◌, if◌then◌else◌}

abbrev pub Bytes : Type 0
Bytes = List ℕ

-- `append_little_endian`: this many bytes of the value, the lowest first.
unfoldable pub append_little_endian : ℕ → ℕ → Bytes
append_little_endian zero value = []
append_little_endian (suc k) value = (value % 256) ∷ append_little_endian k (value / 256)

-- `read_little_endian`: each byte stands above the bits of those before it.
unfoldable pub read_little_endian : ℕ → Bytes → ℕ
read_little_endian zero bytes = 0
read_little_endian (suc k) [] = 0
read_little_endian (suc k) (byte ∷ bytes) = byte + 256 * read_little_endian k bytes

-- The rounds of the inner loop of `checksum`; the mask is all ones or none.
unfoldable pub crc_bits : ℕ → ℕ → ℕ
crc_bits zero crc = crc
crc_bits (suc bits) crc = crc_bits bits (bit_xor (crc / 2) (if crc % 2 == 1 then 0xedb88320 else 0))

unfoldable pub crc_loop : Bytes → ℕ → ℕ
crc_loop [] crc = crc
crc_loop (byte ∷ bytes) crc = crc_loop bytes (crc_bits 8 (bit_xor crc byte))

-- `EventLog::checksum`; `~crc` on 32 bits.
unfoldable pub checksum : Bytes → ℕ
checksum bytes = 0xffffffff - crc_loop bytes 0xffffffff
