-- ===== src/Tests/TcpServer.antt =====
-- The TCP server at concrete inputs.
use modbus_scanner.InOrder.{InOrder}
use modbus_scanner.Tcp.Heard.{IsMessage}
use modbus_scanner.Base.{
  ◌++◌, ℕ, ◌%◌, Option, ◌≡◌, refl, inl, true, List, [], ◌∷◌, some, arith, length, replicate,
}
use modbus_scanner.Coroutine.Chunks.{IsChunk}
use Prim.Native.String.{String}
use modbus_scanner.Getopt.{Getopt, option_p}
use modbus_scanner.HexUtils.{to_hex}
use modbus_scanner.Request.{short, write, decoded, told}
use modbus_scanner.Scanner.{little_endian}
use modbus_scanner.TcpServer
use modbus_scanner.TcpServer.{
  Connection, new_connection, start_read, print_pdu, printed, start_accept, handle_accept,
}
use modbus_scanner.TcpServer.Accepting.{
  accept_ends, Steps, stop, then_step, IsServing, always_accepting,
}
use modbus_scanner.TcpServer.Program
use modbus_scanner.TcpServer.Printing.{value, hex, seen, print_pdu-decoded}
use modbus_scanner.TcpServer.Shown.{told_shown}
use modbus_scanner.TcpServer.Session.{handle_reads, connection_prints, connection_keeps_reading}
use modbus_scanner.Tests.{blank, chunk, header}

print_pdu-decoded_example :
    seen (print_pdu (decoded (write 15 0x13 10 (0xcd ∷ 0x01 ∷ [])) blank))
    ≡ value 15 ∷ value 0x13 ∷ value 10 ∷ value 2 ∷ hex (to_hex (0xcd ∷ 0x01 ∷ [])) ∷ []
print_pdu-decoded_example =
    print_pdu-decoded (write 15 0x13 10 (0xcd ∷ 0x01 ∷ [])) blank
      (inl refl, omega arith, omega arith, omega arith)

-- A message to unit 255, cut in two.
abbrev begun : List ℕ
begun = 0 ∷ 1 ∷ 0 ∷ 0 ∷ 0 ∷ 6 ∷ 255 ∷ []

abbrev ended : List ℕ
ended = 3 ∷ 0 ∷ 6 ∷ 0 ∷ 2 ∷ []

begun-IsChunk : IsChunk (chunk begun)
begun-IsChunk = record {
  buffer = record { whole = refl; fits = omega arith };
  not_empty = omega arith;
}

ended-IsChunk : IsChunk (chunk ended)
ended-IsChunk = record {
  buffer = record { whole = refl; fits = omega arith };
  not_empty = omega arith;
}

connection_prints_example :
    (c : Connection) × (handle_reads little_endian
        (chunk begun ∷ chunk ended ∷ [])
        (start_read (new_connection blank (replicate 1024 0)))
      ≡ some c)
    × (seen (printed c.modbus_scanner.calls) ≡ value 3 ∷ value 6 ∷ value 2 ∷ [])
    × (c.reads ≡ 1)
connection_prints_example =
    connection_prints little_endian (record { header = header; request = short 3 6 2 } ∷ [])
      (chunk begun ∷ chunk ended ∷ []) blank (replicate 1024 0) ((omega arith, tt), tt)
      (begun-IsChunk, (ended-IsChunk, tt)) refl

connection_keeps_reading_example :
    (c : Connection) × (handle_reads little_endian
        (chunk ended ∷ chunk begun ∷ [])
        (start_read (new_connection blank (replicate 1024 0)))
      ≡ some c)
    × InOrder (IsMessage 255) (ended ++ begun) c.modbus_scanner.calls
    × (seen (printed c.modbus_scanner.calls) ≡ told_shown (told c.modbus_scanner.calls))
    × (c.reads ≡ 1)
connection_keeps_reading_example =
    connection_keeps_reading little_endian (chunk ended ∷ chunk begun ∷ []) blank (replicate 1024 0)
      (ended-IsChunk, (begun-IsChunk, tt))
      (
        (omega arith, (omega arith, (omega arith, (omega arith, (omega arith, tt))))),
        (
          (
            omega arith,
            (
              omega arith,
              (omega arith, (omega arith, (omega arith, (omega arith, (omega arith, tt))))),
            ),
          ),
          tt,
        ),
      )

-- The program on the port 8502, and one client, whose accept has failed.
abbrev to_8502 : Getopt
to_8502 = record { o = some 112; optarg = "8502" }

abbrev stoi : String → Option ℕ
stoi s = some 8502

abbrev program : Program.Program
program = record { port = 8502; server = record { accepts = 1; connections = [] } }

abbrev one_client : TcpServer.TcpServer
one_client = handle_accept true blank [] (record { accepts = 0; connections = [] })

one_accepted : Steps little_endian program.server 1 one_client
one_accepted = then_step (stop program.server) (accept_ends program.server true blank [] 0 refl)

program_made : Program.main stoi (λ port. true) to_8502 ≡ some program
unfolding Program.main Program.chosen_port option_p start_accept
program_made = refl

always_accepting_example :
    IsServing one_client
    × (length one_client.connections ≡ 1)
    × (true ≡ true)
    × ((port : ℕ) × (Program.chosen_port stoi to_8502 ≡ some port)
        × (◌≡◌ {A = ℕ} 8502 (port % 65536)))
always_accepting_example =
    always_accepting little_endian stoi (λ port. true) to_8502 program program_made one_accepted
