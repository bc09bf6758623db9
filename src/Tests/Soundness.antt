-- ===== src/Tests/Soundness.antt =====
-- What the scanners tell of streams, at concrete inputs.
use modbus_scanner.Base.{All, ◌<◌, ◌≡◌, [], ◌∷◌, some, arith}
use modbus_scanner.Coroutine.{scan_all}
use modbus_scanner.Defs.{Buffer, contents}
use modbus_scanner.Rtu
use modbus_scanner.InOrder.{InOrder}
use modbus_scanner.Rtu.Heard.{IsFrame}
use modbus_scanner.Rtu.Soundness.{only_frames_are_told}
use modbus_scanner.RtuOld
use modbus_scanner.RtuOld.Stream.{scan_each}
use modbus_scanner.RtuOld.Soundness.{IsDiagnostic, told_have_checksums}
use modbus_scanner.RtuOld.Heard
use modbus_scanner.Scanner.{little_endian}
use modbus_scanner.Tcp
use modbus_scanner.Tcp.Heard.{IsMessage}
use modbus_scanner.Tcp.Soundness.{only_messages_are_told}
use modbus_scanner.Tests.{
  chunk, blank, chunks, chunk-IsChunk, chunk'-IsChunk, message_3, message_3-IsChunk,
}

abbrev chunks-IsBytes : All (λ b. All (λ x. x < 256) (contents b)) chunks
chunks-IsBytes = (
  (omega arith, (omega arith, (omega arith, tt))),
  (
    (omega arith, (omega arith, (omega arith, (omega arith, (omega arith, (omega arith, tt)))))),
    tt,
  ),
)

-- The chunks above, for the scanner with address 17: what it tells is in them.
only_frames_are_told_example :
    (t : Rtu.Scanner) × (scan_all (Rtu.machine little_endian) chunks (Rtu.new 17 blank) ≡ some t)
    × InOrder
        (IsFrame 17)
        (0x55 ∷ 0x11 ∷ 0x01 ∷ 0x00 ∷ 0x13 ∷ 0x00 ∷ 0x25 ∷ 0x0e ∷ 0x84 ∷ [])
        t.calls
only_frames_are_told_example =
    only_frames_are_told little_endian 17 blank chunks (chunk-IsChunk, (chunk'-IsChunk, tt))
      chunks-IsBytes

told_have_checksums_example :
    (t : RtuOld.Scanner) × (scan_each little_endian chunks (RtuOld.new 17 blank) ≡ some t)
    × InOrder
        (RtuOld.Heard.IsFrame 17)
        (0x55 ∷ 0x11 ∷ 0x01 ∷ 0x00 ∷ 0x13 ∷ 0x00 ∷ 0x25 ∷ 0x0e ∷ 0x84 ∷ [])
        t.calls
    × (¬ IsDiagnostic t.current_state)
told_have_checksums_example =
    told_have_checksums little_endian 17 blank chunks (chunk-IsChunk, (chunk'-IsChunk, tt))
      chunks-IsBytes

-- The message above as one chunk.
abbrev message_chunk : Buffer
message_chunk = chunk message_3

only_messages_are_told_example :
    (t : Tcp.Scanner) × (scan_all (Tcp.machine little_endian) (message_chunk ∷ []) (Tcp.new 1 blank)
      ≡ some t)
    × InOrder (IsMessage 1) message_3 t.calls
only_messages_are_told_example =
    only_messages_are_told little_endian 1 blank (message_chunk ∷ []) (message_3-IsChunk, tt)
      (
        (
          omega arith,
          (
            omega arith,
            (
              omega arith,
              (
                omega arith,
                (
                  omega arith,
                  (
                    omega arith,
                    (
                      omega arith,
                      (omega arith, (omega arith, (omega arith, (omega arith, (omega arith, tt))))),
                    ),
                  ),
                ),
              ),
            ),
          ),
        ),
        tt,
      )
