-- ===== src/Rtu/Frame.antt =====
-- The frames that a client sends to slave_rtu_scanner.cpp: device address, request, checksum.
use modbus_scanner.Base.{ℕ, List, [], ◌∷◌, ◌++◌}
use modbus_scanner.Crc.{crc_loop, crc_start}
use modbus_scanner.Request.{Request, print}

-- The two bytes of a checksum in the order in which they are sent.
abbrev pub crc_bytes : List ℕ → List ℕ
crc_bytes body = let k = crc_loop crc_start body in k.hi ∷ k.lo ∷ []

abbrev pub frame : ℕ → Request → List ℕ
frame address r = (address ∷ print r) ++ crc_bytes (address ∷ print r)
