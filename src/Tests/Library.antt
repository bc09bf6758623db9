-- ===== src/Tests/Library.antt =====
-- The library's interface and its printing at concrete inputs.
use modbus_scanner.Api.{rtu_scanner, rtu_old_scanner, session}
use modbus_scanner.Api.Agreement.{sessions_agree}
use modbus_scanner.Base.{◌≡◌, refl, [], ◌∷◌, some, arith}
use modbus_scanner.Crc.{crchi, crclo, crc_loop, crc_step}
use modbus_scanner.Defs.{slave_rtu, slave_rtu_old}
use modbus_scanner.HexUtils.{to_hex, from_hex, from_hex-to_hex}
use modbus_scanner.Coroutine
use modbus_scanner.Request.{short, told}
use modbus_scanner.Rtu
use modbus_scanner.RtuOld
use modbus_scanner.RtuOld.Stream.{scan_each}
use modbus_scanner.Scanner.{little_endian}
use modbus_scanner.Tests.{blank, chunks, items, chunk-IsChunk, chunk'-IsChunk}

-- The address 273 is 17 as a byte.
sessions_agree_example :
    (t : Rtu.Scanner) × (t' : RtuOld.Scanner) × (session little_endian slave_rtu 273 blank chunks
      ≡ some (rtu_scanner t))
    × (session little_endian slave_rtu_old 273 blank chunks ≡ some (rtu_old_scanner t'))
    × (Coroutine.scan_all (Rtu.machine little_endian) chunks (Rtu.new 273 blank) ≡ some t)
    × (scan_each little_endian chunks (RtuOld.new 273 blank) ≡ some t')
    × (told t.calls ≡ some (short 1 0x13 0x25) ∷ [])
    × (told t'.calls ≡ some (short 1 0x13 0x25) ∷ [])
unfolding crc_loop crc_step crchi crclo
sessions_agree_example =
    sessions_agree little_endian 273 blank blank items chunks
      (record { other = omega arith; fits = omega arith }, tt) (tt, tt)
      (chunk-IsChunk, (chunk'-IsChunk, tt)) refl

from_hex-to_hex_example : from_hex (to_hex (0x1f ∷ 0xa0 ∷ [])) ≡ some (0x1f ∷ 0xa0 ∷ [])
from_hex-to_hex_example = from_hex-to_hex (0x1f ∷ 0xa0 ∷ []) (omega arith)
