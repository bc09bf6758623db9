-- ===== src/TcpServer.antt =====
-- tcp_server/server_connection.cpp and tcp_server.cpp: the sample TCP server, which prints the
-- requests that it receives.
pub mod Printing
pub mod Shown
pub mod Session
pub mod Program
pub mod Accepting
use Prim.Native.String.{String}
use modbus_scanner.Base.{
  ℕ, ◌+◌, Bool, ◌||◌, List, [], ◌∷◌, ◌++◌, Option, none, some, ◌==◌, if◌then◌else◌,
}
use modbus_scanner.Defs.{Buffer, Pdu, Event, on_pdu, on_nonse, set_actual_size}
use modbus_scanner.HexUtils.{to_hex}
use modbus_scanner.Scanner.{Order}
use modbus_scanner.Tcp

-- What is put into `std::cout`. The string of `to_hex` is the list of its character codes.
pub data Out : Type 0 where
  text : String → Out
  number : ℕ → Out
  string : List ℕ → Out
  endl : Out

-- Two numbers, each behind its label.
abbrev pair : String → ℕ → String → ℕ → List Out
pair label n label' n' = text label ∷ number n ∷ text label' ∷ number n' ∷ []

abbrev values : List ℕ → List Out
values data_bytes = text "values: " ∷ string (to_hex data_bytes) ∷ endl ∷ []

-- The switch of `on_pdu`.
unfoldable pub pdu_fields : Pdu → List Out
pdu_fields pdu =
    if pdu.fc == 1
    then pair "\n F1_STARTING_ADDRESS  " pdu.i16_1 "\n F1_QUANTITY_OF_COILS " pdu.i16_2 ++ endl ∷ []
    else if pdu.fc == 2
    then pair "\n F2_REQ_STARTING_ADDRESS  " pdu.i16_1 "\n F2_REQ_QUANTITY_OF_INPUTS " pdu.i16_2
      ++ endl ∷ []
    else if pdu.fc == 3
    then pair "\n F3_REQ_STARTING_ADDRESS  " pdu.i16_1 "\n F3_REQ_QUANTITY_OF_REGS  " pdu.i16_2
      ++ endl ∷ []
    else if pdu.fc == 4
    then pair "\n F4_REQ_STARTING_ADDRESS " pdu.i16_1 "\n F4_REQ_QUANTITY_OF_REGS " pdu.i16_2
      ++ endl ∷ []
    else if pdu.fc == 5
    then pair "\n F5_REQ_OUTPUT_ADDRESS " pdu.i16_1 "\n F5_REQ_OUTPUT_VALUE " pdu.i16_2 ++ endl ∷ []
    else if pdu.fc == 6
    then pair "\n F6_REQ_REG_ADDRESS " pdu.i16_1 "\n F6_REQ_REG_VALUE " pdu.i16_2 ++ endl ∷ []
    else if pdu.fc == 15
    then pair "\n F15_REQ_STARTING_ADDRESS " pdu.i16_1 "\n F15_REQ_QUANTITY_OF_OUTPUTS " pdu.i16_2
      ++ text "\n F15_REQ_BYTE_COUNT " ∷ number pdu.i8_1 ∷ endl ∷ values pdu.payload
    else if pdu.fc == 16
    then pair "\n F16_REQ_STARTING_ADDRESS " pdu.i16_1 "\n F16_REQ_QUANTITY_OF_REGS " pdu.i16_2
      ++ text "\n F16_REQ_BYTE_COUNT " ∷ number pdu.i8_1 ∷ endl ∷ values pdu.payload
    else if pdu.fc == 23
    then pair "\n F23_REQ_READ_STARTING_ADDRESS " pdu.i16_1 "\n F23_REQ_QUANTITY_TO_READ " pdu.i16_2
      ++ (pair "\n F23_REQ_WRITE_STARTING_ADDRESS " pdu.i16_3 "\n F23_REQ_QUANTITY_TO_WRITE "
            pdu.i16_4
          ++ text "\n F23_REQ_WRITE_BYTE_COUNT " ∷ number pdu.i8_1 ∷ endl ∷ values pdu.payload)
    else []

unfoldable pub print_pdu : Pdu → List Out
unfolding pdu_fields
print_pdu pdu = text "server_connection_c::on_pdu f " ∷ number pdu.fc ∷ pdu_fields pdu

unfoldable pub print_nonse : List Out
print_nonse = text "user::on_nonsense " ∷ endl ∷ []

-- What the calls print, in order.
unfoldable pub printed : List Event → List Out
unfolding print_pdu print_nonse
printed [] = []
printed (on_pdu p ∷ calls) = print_pdu p ++ printed calls
printed (on_nonse ∷ calls) = print_nonse ++ printed calls

-- `server_connection_c`. The calls that its scanner has made stand for what has been printed; the
-- functions that it calls do nothing else. `reads` counts the pending reads of the socket.
pub record Connection : Type 0 where
  pub modbus_scanner : Tcp.Scanner
  pub buffer : Buffer
  pub reads : ℕ

-- The constructor. The array of the buffer and `m_pdu` hold what the memory holds.
unfoldable pub new_connection : Pdu → List ℕ → Connection
unfolding Tcp.new
new_connection pdu bytes = record {
  modbus_scanner = Tcp.new 255 pdu;
  buffer = record { bytes = bytes; actual_size = 0 };
  reads = 0;
}

unfoldable pub start_read : Connection → Connection
start_read c = record c { reads = c.reads + 1 }

-- `create_scanner` gives no null pointer here. `none` is a read outside the chunk's array.
unfoldable pub handle_read : Order → Bool → ℕ → Connection → Option Connection
unfolding Tcp.scan start_read
handle_read order error length c =
    if error || length == 0
    then some c
    else (let input = set_actual_size c.buffer length in
        elim (Tcp.scan order input c.modbus_scanner) [
          | none ↦ none
          | some t ↦ some (start_read (record c { buffer = input; modbus_scanner = t }))
        ])

-- The process: accepts that are pending, and the connections.
pub record TcpServer : Type 0 where
  pub accepts : ℕ
  pub connections : List Connection

unfoldable pub start_accept : TcpServer → TcpServer
start_accept s = record s { accepts = s.accepts + 1 }

-- The function that `start_accept` hands on, which does not look at `error`.
unfoldable pub handle_accept : Bool → Pdu → List ℕ → TcpServer → TcpServer
unfolding start_accept new_connection start_read
handle_accept error pdu bytes s =
    start_accept
      (record s { connections = s.connections ++ start_read (new_connection pdu bytes) ∷ [] })
