-- ===== src/RtuServer/Reading.antt =====
-- `handle_read` of rtu_server_data_handler.cpp: what a chunk from the serial port leads to.
use mathlib.Core.Path.{subst}
use modbus_scanner.Base.{
  ◌⊎◌, ℕ, ◌+◌, ◌<◌, ◌≡◌, refl, sym, ap, ◌∙◌, false, List, [], ◌∷◌, ◌++◌, Option, some, arith,
  length,
}
use modbus_scanner.Coroutine.Chunks.{IsChunk}
use modbus_scanner.Defs.{Event, on_pdu, on_nonse, contents, set_actual_size}
use modbus_scanner.Request.{Request, IsRequest, print}
use modbus_scanner.Rtu
use modbus_scanner.Rtu.Stream.{scan_nonsense}
use modbus_scanner.Crc.{check_crc_rtu}
use modbus_scanner.RtuServer.Monad.{Server}
use modbus_scanner.RtuServer.EachMethod.{pdu_count}
use modbus_scanner.RtuServer.OneEach.{Always-handle_calls}
use modbus_scanner.RtuServer.Operations.{Starts, Started}
use modbus_scanner.RtuServer.Replies.{handle_calls, handle_read}
use modbus_scanner.Scanner.{Order, valid_fc}

-- The scanner as `handle_read` hands it the chunk, its log of calls empty.
abbrev pub fresh : Server → Rtu.Scanner
fresh s = record (s.modbus_scanner) { calls = [] }

from_outcome :
    (n : ℕ) (s t : Server) (o : Option (Unit {0} × Server))
    → Started n s o
    → o ≡ some (tt, t)
    → Starts n s t
from_outcome n s t o p e = subst (λ o. Started n s o) e p

-- The state in which the calls of a scan are answered.
abbrev pub scanned_to : Server → ℕ → Rtu.Scanner → Server
scanned_to s size u = record s {
  input_buffer = set_actual_size s.input_buffer size;
  modbus_scanner = u;
}

module _ (order : Order) where
  pub handle_read_lem :
      (size : ℕ) (s : Server) (u : Rtu.Scanner)
      → 0 < size
      → Rtu.scan order (set_actual_size s.input_buffer size) (fresh s) ≡ some u
      → handle_read order false size s ≡ handle_calls order u.calls (scanned_to s size u)
  unfolding handle_read
  handle_read_lem size s u some_bytes scanned = ground (arith, scanned)

  -- Where `handle_read` returns from a chunk that came without error, it has started as many
  -- asynchronous operations as the scanner has found requests in the chunk, and the scanner is as
  -- the scan has left it.
  pub handle_read_starts :
      (size : ℕ) (s t : Server) (u : Rtu.Scanner)
      → 0 < size
      → Rtu.scan order (set_actual_size s.input_buffer size) (fresh s) ≡ some u
      → handle_read order false size s ≡ some (tt, t)
      → (length t.ops ≡ length s.ops + pdu_count u.calls) × (t.modbus_scanner ≡ u)
  handle_read_starts size s t u some_bytes scanned done =
      let starts =
        from_outcome (pdu_count u.calls) (scanned_to s size u) t _
          (Always-handle_calls order u.calls (scanned_to s size u))
          (sym (handle_read_lem size s u some_bytes scanned) ∙ done) in
      (starts.many, starts.scanner)

  pub handle_calls-quiet :
      (calls : List Event) (s : Server)
      → pdu_count calls ≡ 0
      → handle_calls order calls s ≡ some (tt, s)
  unfolding handle_calls
  handle_calls-quiet [] s e = refl
  handle_calls-quiet (on_pdu p ∷ calls) s e = absurd (omega arith)
  handle_calls-quiet (on_nonse ∷ calls) s e = handle_calls-quiet calls s e

  -- A chunk that begins with a frame for the server whose checksum is refused, or with its
  -- address and a function code that is not valid: `handle_read` returns, and no asynchronous
  -- operation has been started, no further read of the port either; no coil and no register is
  -- changed.
  pub handle_read_nonsense :
      (size : ℕ) (s : Server) (r : Request) (hi lo fc : ℕ) (rest : List ℕ)
      → Rtu.Decode.IsReady s.modbus_scanner
      → IsChunk (set_actual_size s.input_buffer size)
      → let address = s.modbus_scanner.address in
        let received = contents (set_actual_size s.input_buffer size) in
        ((received ≡ (address ∷ print r) ++ hi ∷ lo ∷ rest)
            × IsRequest r
            × (check_crc_rtu (address ∷ print r) hi lo ≡ false))
          ⊎ ((received ≡ address ∷ fc ∷ rest) × (valid_fc fc ≡ false))
        → (t : Server) × (handle_read order false size s ≡ some (tt, t))
          × (t.ops ≡ s.ops)
          × (t.coils ≡ s.coils)
          × (t.regs ≡ s.regs)
  unfolding set_actual_size
  handle_read_nonsense size s r hi lo fc rest ready c cases =
      let b = set_actual_size s.input_buffer size in
      let (u, scanned, ready', called) =
        scan_nonsense order b (fresh s) r hi lo fc rest ready c cases in
      (
        scanned_to s size u,
        handle_read_lem size s u c.not_empty scanned
            ∙ handle_calls-quiet u.calls (scanned_to s size u) (ap pdu_count called),
        refl,
        refl,
        refl,
      )
