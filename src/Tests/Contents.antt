-- ===== src/Tests/Contents.antt =====
-- The RTU server seen up to what is read in its maps, and two requests in one chunk.
use modbus_scanner.Base.{ℕ, ◌≡◌, refl, inr, true, false, List, [], ◌∷◌, ◌++◌, some, arith}
use modbus_scanner.Coroutine.Chunks.{IsChunk}
use modbus_scanner.Defs.{Pdu, on_pdu, set_actual_size}
use modbus_scanner.Request.{short, request_of}
use modbus_scanner.Rtu
use modbus_scanner.Rtu.Frame.{frame}
use modbus_scanner.RtuServer.Alike.{alike}
use modbus_scanner.RtuServer.Contents.{
  Ended, read_ended, write_ended, all_handled, all_handled-view, seen, view, Alike-view,
}
use modbus_scanner.RtuServer.Memory.{reg}
use modbus_scanner.RtuServer.Monad.{Server, find}
use modbus_scanner.RtuServer.Overlap.{Overlaps, replies_overlap}
use modbus_scanner.RtuServer.Replies.{handle_calls, handle_read}
use modbus_scanner.Scanner.{little_endian, get_hi_lo}
use modbus_scanner.Tests.{chunk}
use modbus_scanner.Tests.Server.{server, server_with}

-- Its registers in another order, with an entry for one that has only been read, and with a coil
-- that has been reset.
abbrev other : Server
other = record server {
  coils = (3, true) ∷ (4, false) ∷ [];
  regs = (9, 0) ∷ (8, 0xabcd) ∷ (7, 0x1234) ∷ [];
}

looks_same : view server ≡ view other
unfolding find
looks_same =
    Alike-view server other
      (alike server other.coils other.regs (λ i. ground arith) (λ i. ground arith))

abbrev ends : List Ended
ends =
    read_ended (chunk (frame 17 (short 3 7 2))).bytes false 8
    ∷ write_ended false
    ∷ read_ended (chunk (frame 17 (short 6 9 5))).bytes false 8
    ∷ []

all_handled-view_example :
    seen (all_handled little_endian ends server) ≡ seen (all_handled little_endian ends other)
all_handled-view_example = all_handled-view little_endian ends server other looks_same

abbrev two_requests : List ℕ
two_requests = frame 17 (short 3 7 1) ++ frame 17 (short 3 8 1)

two_requests-IsChunk : IsChunk (set_actual_size (server_with two_requests).input_buffer 16)
unfolding set_actual_size
two_requests-IsChunk = record {
  buffer = record { whole = refl; fits = omega arith };
  not_empty = omega arith;
}

-- The replies with register 7 and with register 8.
replies_overlap_example :
    let s = server_with two_requests in
    (p p' : Pdu) × (u m t : Server) × (request_of p ≡ short 3 7 1)
    × (request_of p' ≡ short 3 8 1)
    × (handle_read little_endian false 16 s
        ≡ handle_calls little_endian (on_pdu p ∷ on_pdu p' ∷ []) u)
    × (handle_read little_endian false 16 s ≡ some (tt, t))
    × (u.ops ≡ [])
    × Overlaps little_endian p p' 7
        (17 ∷ 3 ∷ 2 ∷ 0x12 ∷ 0x34 ∷ [])
        (17 ∷ 3 ∷ 2 ∷ 0xab ∷ 0xcd ∷ [])
        u
        m
        t
unfolding get_hi_lo reg find set_actual_size Rtu.new
replies_overlap_example =
    replies_overlap little_endian 16 7 8 1 (server_with two_requests) (inr (refl, refl))
      two_requests-IsChunk refl (omega arith, omega arith, omega arith, omega arith)
      (omega arith, omega arith, omega arith, omega arith) (omega arith) refl
