-- ===== src/Tests/Server.antt =====
-- The RTU server at concrete inputs.
use modbus_scanner.Base.{
  ◌≡◌, refl, true, false, inr, ◌++◌, ℕ, List, [], ◌∷◌, if◌then◌else◌, ◌==◌, none, some, arith,
  replicate,
}
use modbus_scanner.Defs.{Buffer, contents, set_actual_size, on_nonse}
use modbus_scanner.RtuServer.Memory.{reg, coil}
use modbus_scanner.RtuServer.Monad.{Server, find, async_write, m_output_buffer, m_input_buffer}
use modbus_scanner.RtuServer.Registers.{F3Outcome, reply_f3_lem}
use modbus_scanner.RtuServer.WriteReplies.{
  Written, reply_f16_fits, reply_f23_fits, reply_f23_reads_back, odd_count_overreads,
}
use modbus_scanner.RtuServer.Answers.{reads_are_answered, register_writes_are_echoed}
use modbus_scanner.RtuServer.Reading.{handle_read_nonsense}
use modbus_scanner.Coroutine.Chunks.{IsChunk}
use modbus_scanner.Rtu.Frame.{frame, crc_bytes}
use modbus_scanner.Request.{short}
use modbus_scanner.RtuServer.Replies.{reply_f16, reply_f23, handle_read}
use modbus_scanner.Rtu
use modbus_scanner.Scanner.{little_endian, get_hi_lo, valid_fc}
use modbus_scanner.Tests.{blank, chunk}

abbrev pub empty_buffer : Buffer
empty_buffer = record { bytes = replicate 1024 0; actual_size = 0 }

-- Two registers: 0x1234 at 7, and 0xabcd at 8.
abbrev pub server : Server
server = record {
  coils = (3, true) ∷ [];
  regs = (7, 0x1234) ∷ (8, 0xabcd) ∷ [];
  modbus_scanner = Rtu.new 17 blank;
  input_buffer = empty_buffer;
  output_buffer = empty_buffer;
  dev_address = 17;
  ops = [];
}

reply_f3_lem_example : F3Outcome little_endian 3 7 3 server
reply_f3_lem_example = reply_f3_lem little_endian 3 7 3 server refl

-- Functions 16 and 23: 0x1234 to register 65535 and 0xabcd to the one behind it, which is 0.
reply_f16_fits_example :
    (t : Server) × (reply_f16 little_endian 16 65535 2 4 (0x12 ∷ 0x34 ∷ 0xab ∷ 0xcd ∷ []) server
      ≡ some (tt, t))
    × Written server t (0x1234 ∷ 0xabcd ∷ []) 65535 (17 ∷ 16 ∷ 255 ∷ 255 ∷ 0 ∷ 2 ∷ [])
unfolding get_hi_lo
reply_f16_fits_example =
    reply_f16_fits little_endian 16 65535 (0x1234 ∷ 0xabcd ∷ []) server refl (omega arith)

reply_f23_fits_example :
    (t : Server) × (reply_f23 little_endian 23 65535 3 65535 2 4
        (0x12 ∷ 0x34 ∷ 0xab ∷ 0xcd ∷ [])
        server
      ≡ some (tt, t))
    × Written server t
        (0x1234 ∷ 0xabcd ∷ [])
        65535
        (17 ∷ 23 ∷ 6 ∷ 0x12 ∷ 0x34 ∷ 0xab ∷ 0xcd ∷ 0 ∷ 0 ∷ [])
unfolding get_hi_lo reg find
reply_f23_fits_example =
    reply_f23_fits little_endian 23 65535 3 65535 (0x1234 ∷ 0xabcd ∷ []) server refl (omega arith)
      (omega arith)

reply_f23_reads_back_example :
    (t : Server) × (reply_f23 little_endian 23 65535 2 65535 2 4
        (0x12 ∷ 0x34 ∷ 0xab ∷ 0xcd ∷ [])
        server
      ≡ some (tt, t))
    × Written server t (0x1234 ∷ 0xabcd ∷ []) 65535 (17 ∷ 23 ∷ 4 ∷ 0x12 ∷ 0x34 ∷ 0xab ∷ 0xcd ∷ [])
reply_f23_reads_back_example =
    reply_f23_reads_back 23 65535 (0x1234 ∷ 0xabcd ∷ []) server refl (omega arith) (omega arith)
      (omega arith, (omega arith, tt))

odd_count_overreads_example :
    (reply_f16 little_endian 16 7 2 3 (0x12 ∷ 0x34 ∷ 0xab ∷ []) server ≡ none)
    × (reply_f23 little_endian 23 9 1 7 2 3 (0x12 ∷ 0x34 ∷ 0xab ∷ []) server ≡ none)
odd_count_overreads_example =
    odd_count_overreads little_endian 16 23 7 9 1 (0x1234 ∷ []) 0xab 0 server refl (omega arith)

-- The server with a chunk in its input buffer.
abbrev pub server_with : List ℕ → Server
server_with xs = record server { input_buffer = chunk xs }

abbrev read_request : List ℕ
read_request = 0x55 ∷ frame 17 (short 3 7 2)

read_request-IsChunk : IsChunk (set_actual_size (server_with read_request).input_buffer 9)
unfolding set_actual_size
read_request-IsChunk = record {
  buffer = record { whole = refl; fits = omega arith };
  not_empty = omega arith;
}

reads_are_answered_example :
    let s = server_with read_request in
    let body : List ℕ = 17 ∷ 3 ∷ 4 ∷ 0x12 ∷ 0x34 ∷ 0xab ∷ 0xcd ∷ [] in
    (t : Server) × (handle_read little_endian false 9 s ≡ some (tt, t))
    × (contents t.output_buffer ≡ body ++ crc_bytes body)
    × (t.ops ≡ async_write m_output_buffer 9 ∷ [])
    × ((i : ℕ) → coil t i ≡ coil s i)
    × ((i : ℕ) → reg t i ≡ reg s i)
unfolding get_hi_lo reg find set_actual_size Rtu.new
reads_are_answered_example =
    reads_are_answered little_endian 9 7 2 (0x55 ∷ []) (server_with read_request) (inr (refl, refl))
      read_request-IsChunk refl (omega arith, tt)
      (omega arith, omega arith, omega arith, omega arith) (omega arith) refl

write_request-IsChunk :
    IsChunk (set_actual_size (server_with (frame 17 (short 6 7 3))).input_buffer 8)
unfolding set_actual_size
write_request-IsChunk = record {
  buffer = record { whole = refl; fits = omega arith };
  not_empty = omega arith;
}

register_writes_are_echoed_example :
    let s = server_with (frame 17 (short 6 7 3)) in
    (t : Server) × (handle_read little_endian false 8 s ≡ some (tt, t))
    × (t.ops ≡ async_write m_input_buffer 8 ∷ [])
    × (contents t.input_buffer ≡ frame 17 (short 6 7 3))
    × ((i : ℕ) → reg t i ≡ (if 7 == i then 3 else reg s i))
    × ((i : ℕ) → coil t i ≡ coil s i)
unfolding set_actual_size Rtu.new
register_writes_are_echoed_example =
    register_writes_are_echoed little_endian 8 7 3 [] (server_with (frame 17 (short 6 7 3)))
      (inr (refl, refl)) write_request-IsChunk tt
      (omega arith, omega arith, omega arith, omega arith) refl

-- A chunk with a function code that no slave has.
abbrev pub nonsense : List ℕ
nonsense = 17 ∷ 9 ∷ 1 ∷ []

nonsense-IsChunk : IsChunk (set_actual_size (server_with nonsense).input_buffer 3)
unfolding set_actual_size
nonsense-IsChunk = record {
  buffer = record { whole = refl; fits = omega arith };
  not_empty = omega arith;
}

handle_read_nonsense_example :
    (t : Server) × (handle_read little_endian false 3 (server_with nonsense) ≡ some (tt, t))
    × (t.ops ≡ [])
    × (t.coils ≡ server.coils)
    × (t.regs ≡ server.regs)
unfolding set_actual_size Rtu.new valid_fc
handle_read_nonsense_example =
    handle_read_nonsense little_endian 3 (server_with nonsense) (short 1 0 0) 0 0 9 (1 ∷ [])
      (inr (refl, refl)) nonsense-IsChunk (inr (refl, refl))

-- The server and its scanner behind the nonsense.
abbrev scanned_nonsense : Rtu.Scanner
scanned_nonsense = record (Rtu.new 17 blank) { calls = on_nonse ∷ [] }

abbrev pub behind_nonsense : Server
behind_nonsense = record (server_with nonsense) {
  modbus_scanner = scanned_nonsense;
  input_buffer = chunk nonsense;
}
