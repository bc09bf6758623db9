-- ===== src/Tests/Silence.antt =====
-- The RTU server at bytes with no frame for it, and at bytes with one.
use modbus_scanner.Base.{
  ◌+◌, inr, false, List, none, ◌≤◌, ◌≡◌, refl, ap, [], ◌∷◌, ◌++◌, some, arith, length,
  length-append,
}
use modbus_scanner.Coroutine.Chunks.{IsChunk}
use modbus_scanner.Crc.{crc_loop, crc_step, crclo, crchi}
use modbus_scanner.Defs.{Buffer, Event, set_actual_size}
use modbus_scanner.InOrder.{InOrder}
use modbus_scanner.Rtu
use modbus_scanner.Rtu.Heard.{IsFrame}
use modbus_scanner.RtuServer.Answers.{register_writes_are_echoed}
use modbus_scanner.RtuServer.EachMethod.{pdu_count}
use modbus_scanner.RtuServer.Framed.{operations_have_frames}
use modbus_scanner.RtuServer.Replies.{handle_read}
use modbus_scanner.Request.{Request, short, write, read_write}
use modbus_scanner.Rtu.Frame.{frame}
use modbus_scanner.RtuServer.Monad.{Server}
use modbus_scanner.RtuServer.Silence.{IsSilent, handle_reads, silence_changes_nothing}
use modbus_scanner.Scanner.{little_endian}
use modbus_scanner.Tests.{blank, chunk}
use modbus_scanner.Tests.Server.{server, nonsense}

-- A frame has eight bytes at least.
length-frame : (r : Request) → 8 ≤ length (frame 17 r)
length-frame (short fc a b) = omega arith
length-frame (write fc a b bytes) = omega (arith, length-append bytes)
length-frame (read_write a b c d bytes) = omega arith

nonsense-IsSilent : IsSilent 17 (nonsense ++ (0x55 ∷ []) ++ [])
nonsense-IsSilent r before after e = omega (
  arith,
  ap length e,
  length-append before (frame 17 r ++ after),
  length-append (frame 17 r) after,
  length-frame r,
)

nonsense-IsChunk : IsChunk (chunk nonsense)
nonsense-IsChunk = record {
  buffer = record { whole = refl; fits = omega arith };
  not_empty = omega arith;
}

other-IsChunk : IsChunk (chunk (0x55 ∷ []))
other-IsChunk = record {
  buffer = record { whole = refl; fits = omega arith };
  not_empty = omega arith;
}

silence_changes_nothing_example :
    (t : Server) × (handle_reads little_endian (chunk nonsense ∷ chunk (0x55 ∷ []) ∷ []) server
      ≡ some t)
    × (t.coils ≡ server.coils)
    × (t.regs ≡ server.regs)
    × (t.ops ≡ [])
silence_changes_nothing_example =
    silence_changes_nothing little_endian 17 blank (chunk nonsense ∷ chunk (0x55 ∷ []) ∷ []) server
      refl (nonsense-IsChunk, (other-IsChunk, tt))
      ((omega arith, (omega arith, (omega arith, tt))), ((omega arith, tt), tt)) nonsense-IsSilent

-- A request to write a register, and the server behind it.
abbrev request : Buffer
request = chunk (frame 17 (short 6 7 3))

request-IsChunk : IsChunk request
request-IsChunk = record {
  buffer = record { whole = refl; fits = omega arith };
  not_empty = omega arith;
}

abbrev arrived : Server
arrived = record server { input_buffer = record (server.input_buffer) { bytes = request.bytes } }

arrived-IsChunk : IsChunk (set_actual_size arrived.input_buffer 8)
unfolding set_actual_size
arrived-IsChunk = record {
  buffer = record { whole = refl; fits = omega arith };
  not_empty = omega arith;
}

abbrev answered : (t : Server) × (handle_read little_endian false 8 arrived ≡ some (tt, t))
unfolding set_actual_size Rtu.new
answered =
    let (t, done, ops, out, regs, coils) =
      register_writes_are_echoed little_endian 8 7 3 [] arrived (inr (refl, refl)) arrived-IsChunk
        tt (omega arith, omega arith, omega arith, omega arith) refl in
    (t, done)

all_answered : handle_reads little_endian (request ∷ []) server ≡ some answered.0
all_answered =
    ap (λ o. elim o [ none ↦ none | some (a, t) ↦ handle_reads little_endian [] t ]) answered.1

operations_have_frames_example :
    (calls : List Event) × InOrder (IsFrame 17) (frame 17 (short 6 7 3)) calls
    × (length (answered.0).ops ≡ 0 + pdu_count calls)
unfolding crc_loop crc_step crclo crchi
operations_have_frames_example =
    operations_have_frames little_endian 17 blank (request ∷ []) server answered.0 refl
      (request-IsChunk, tt)
      (
        (
          omega arith,
          (
            omega arith,
            (
              omega arith,
              (omega arith, (omega arith, (omega arith, (omega arith, (omega arith, tt))))),
            ),
          ),
        ),
        tt,
      )
      all_answered
