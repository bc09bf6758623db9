-- ===== src/TcpServer/Program.antt =====
-- tcp_server/tcp_server.cpp: the program around the connections, up to `io_service.run`.
use Prim.Native.String.{String}
use modbus_scanner.Base.{ℕ, ◌%◌, Bool, [], Option, none, some, if◌then◌else◌}
use modbus_scanner.Getopt.{Getopt, option_p}
use modbus_scanner.TcpServer.{TcpServer, start_accept}

-- The port that the program listens on, and its accepts and connections.
pub record Program : Type 0 where
  pub port : ℕ
  pub server : TcpServer

-- `stoi` gives the int as its 32 bits, `none` where it throws.
unfoldable pub chosen_port : (String → Option ℕ) → Getopt → Option ℕ
chosen_port stoi g = if option_p g then stoi g.optarg else some 502

-- The acceptor for a port, which takes 16 bits: where `listens` says that it can open, bind and
-- listen it is made, and otherwise its constructor throws. An exception ends the program: `none`.
unfoldable pub main : (String → Option ℕ) → (ℕ → Bool) → Getopt → Option Program
unfolding chosen_port start_accept
main stoi listens g = elim (chosen_port stoi g) [
  | none ↦ none
  | some port ↦
      if listens (port % 65536)
      then some (record {
        port = port % 65536;
        server = start_accept (record { accepts = 0; connections = [] });
      })
      else none
]
