-- ===== src/Crc.antt =====
-- crc_check.cpp: the table-driven checksum of MODBUS RTU.
mod Tables
pub mod Reference
pub mod Detection
use modbus_scanner.Base.{ℕ, Bool, true, ◌&&◌, ◌≡◌, List, [], ◌∷◌, ◌==◌, ==_refl, bit_xor}
use modbus_scanner.Defs.{Buffer, contents}
unfoldable pub use Tables.{crchi, crclo, crchi_bytes, crclo_bytes}

-- The two local bytes of the loops.
pub record Crc : Type 0 where
  pub hi : ℕ
  pub lo : ℕ

-- One round of either loop. The index is the exclusive or of two bytes, so it lies in the tables.
unfoldable pub crc_step : Crc → ℕ → Crc
crc_step k uc =
    let index = bit_xor k.hi uc in record { hi = bit_xor k.lo (crchi index); lo = crclo index }

unfoldable pub crc_loop : Crc → List ℕ → Crc
crc_loop k [] = k
crc_loop k (uc ∷ buf) = crc_loop (crc_step k uc) buf

abbrev pub crc_start : Crc
crc_start = record { hi = 0xff; lo = 0xff }

unfoldable pub check_crc_rtu : List ℕ → ℕ → ℕ → Bool
check_crc_rtu buf received_crc_hi received_crc_lo =
    let calculated = crc_loop crc_start buf in
    received_crc_hi == calculated.hi && received_crc_lo == calculated.lo

unfoldable pub calc_crc_rtu : Buffer → Crc
calc_crc_rtu buf = crc_loop crc_start (contents buf)

-- A buffer's own checksum is accepted.
pub check_crc_rtu_own :
    (buf : List ℕ)
    → check_crc_rtu buf (crc_loop crc_start buf).hi (crc_loop crc_start buf).lo ≡ true
unfolding check_crc_rtu
check_crc_rtu_own buf =
    rw (==_refl (crc_loop crc_start buf).hi) (==_refl (crc_loop crc_start buf).lo)
