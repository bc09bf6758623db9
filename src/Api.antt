-- ===== src/Api.antt =====
-- modbus_scanner.cpp: the library's interface, over the three scanners.
pub mod Agreement
use modbus_scanner.Base.{ℕ, List, [], ◌∷◌, Option, none, some}
use modbus_scanner.Defs.{
  Buffer, Event, Pdu, Protocol, slave_rtu, slave_tcp, slave_rtu_old, master_rtu, master_ascii,
  master_tcp, slave_ascii,
}
use modbus_scanner.Rtu
use modbus_scanner.RtuOld
use modbus_scanner.Scanner.{Order}
use modbus_scanner.Tcp

-- What the `void*` of the interface points to: a scanner of one of the three classes.
pub data AnyScanner : Type 0 where
  rtu_scanner : Rtu.Scanner → AnyScanner
  rtu_old_scanner : RtuOld.Scanner → AnyScanner
  tcp_scanner : Tcp.Scanner → AnyScanner

-- `none` is the null pointer. The second number is what `m_pdu` holds before the first request.
unfoldable pub create_scanner : Protocol → ℕ → Pdu → Option AnyScanner
unfolding Rtu.new RtuOld.new Tcp.new
create_scanner slave_rtu address pdu = some (rtu_scanner (Rtu.new address pdu))
create_scanner slave_rtu_old address pdu = some (rtu_old_scanner (RtuOld.new address pdu))
create_scanner slave_tcp address pdu = some (tcp_scanner (Tcp.new address pdu))
create_scanner master_rtu address pdu = none
create_scanner master_ascii address pdu = none
create_scanner master_tcp address pdu = none
create_scanner slave_ascii address pdu = none

abbrev pub wrap : {S : Type 0} → (S → AnyScanner) → Option S → Option AnyScanner
wrap scanner none = none
wrap scanner (some s) = some (scanner s)

-- The virtual call. A null `p_input` is `none`: the old scanner returns at once, and the others
-- read through it, which is undefined.
unfoldable pub scan : Order → AnyScanner → Option Buffer → Option AnyScanner
unfolding Rtu.scan RtuOld.scan Tcp.scan
scan order (rtu_scanner s) none = none
scan order (rtu_scanner s) (some b) = wrap rtu_scanner (Rtu.scan order b s)
scan order (rtu_old_scanner s) p_input = wrap rtu_old_scanner (RtuOld.scan order p_input s)
scan order (tcp_scanner s) none = none
scan order (tcp_scanner s) (some b) = wrap tcp_scanner (Tcp.scan order b s)

-- The calls of the user's functions that a scanner has made.
abbrev pub calls_of : AnyScanner → List Event
calls_of (rtu_scanner s) = s.calls
calls_of (rtu_old_scanner s) = s.calls
calls_of (tcp_scanner s) = s.calls

-- A user's session: one scanner, handed one chunk after the other.
unfoldable pub scan_chunks : Order → List Buffer → AnyScanner → Option AnyScanner
unfolding scan
scan_chunks order [] scanner = some scanner
scan_chunks order (b ∷ bs) scanner = elim (scan order scanner (some b)) [
  | none ↦ none
  | some next ↦ scan_chunks order bs next
]

unfoldable pub session : Order → Protocol → ℕ → Pdu → List Buffer → Option AnyScanner
unfolding create_scanner scan_chunks
session order prot address pdu chunks = elim (create_scanner prot address pdu) [
  | none ↦ none
  | some scanner ↦ scan_chunks order chunks scanner
]
