-- ===== src/Checksum.antt =====
-- LIB/checksum/checksum.c: the XOR of a run of bytes.
pub mod Laws
use smart_parking_system_nti.Prelude.{ℕ, zero, suc, bit_xor, Option, none, some, List, [], ◌∷◌}

-- `while (len--) checksum ^= *buf++;` A read past the listed bytes does not happen where the
-- length is that of the list.
unfoldable pub xor_loop : ℕ → List ℕ → ℕ → ℕ
xor_loop acc bytes zero = acc
xor_loop acc [] (suc len) = acc
xor_loop acc (b ∷ bytes) (suc len) = xor_loop (bit_xor acc b) bytes len

-- The buffer is `none` if NULL.
unfoldable pub xor_checksum : Option (List ℕ) → ℕ → ℕ
unfolding xor_loop
xor_checksum none len = 0
xor_checksum (some bytes) len = xor_loop 0 bytes len
