-- ===== src/RtuServer/Loop.antt =====
-- The life of the sample RTU server under `io_service.run`: asynchronous operations end in any
-- order, and each end calls its handler of rtu_server_data_handler.cpp.
use modbus_scanner.Base.{
  ℕ, suc, ◌+◌, ◌≡◌, Bool, ◌||◌, List, [], ◌∷◌, ◌++◌, none, some, ◌==◌, if◌then◌else◌,
}
use modbus_scanner.Defs.{set_actual_size}
use modbus_scanner.Rtu
use modbus_scanner.RtuServer.Monad.{Server, Op, async_read_some, async_write, Which}
use modbus_scanner.RtuServer.EachMethod.{pdu_count}
use modbus_scanner.RtuServer.Reading.{fresh}
use modbus_scanner.RtuServer.Replies.{handle_read, handle_writing}
use modbus_scanner.RtuServer.Starting.{Handler, handle_timer}
use modbus_scanner.Scanner.{Order}

-- The handler, and the operations on the port that have been started and have not ended. In
-- `handler`, `waits` counts the pending waits of the timer.
pub record Process : Type 0 where
  pub handler : Handler
  pub pending : List Op

-- The server as a handler finds it: nothing has been started by that handler yet.
abbrev pub idle : Process → Server
idle p = record (p.handler.server) { ops = [] }

-- The server when a read of the port has filled the input array.
abbrev pub filled : Process → List ℕ → Server
filled p bytes = record (idle p) {
  input_buffer = record (p.handler.server.input_buffer) { bytes = bytes };
}

-- Behind a handler that has left the server `t`, with the operations `others` still pending.
abbrev pub behind : Process → List Op → Server → Process
behind p others t = record {
  handler = record (p.handler) { server = t };
  pending = others ++ t.ops;
}

-- How many requests the scanner finds in a chunk that `handle_read` takes.
unfoldable pub found : Order → Bool → ℕ → Server → ℕ
unfolding Rtu.scan set_actual_size
found order error size s =
    if error || size == 0
    then 0
    else (elim (Rtu.scan order (set_actual_size s.input_buffer size) (fresh s)) [
      | none ↦ 0
      | some u ↦ pdu_count u.calls
    ])

-- One end of an operation. The numbers are the reads that end, 0 or 1, and the requests found.
pub data Step (order : Order) : Process → ℕ → ℕ → Process → Type 0 where
  read_ends :
      (p : Process) (before after : List Op) (bytes : List ℕ) (error : Bool) (size : ℕ) (t : Server)
      → p.pending ≡ before ++ async_read_some ∷ after
      → handle_read order error size (filled p bytes) ≡ some (tt, t)
      → Step order p 1 (found order error size (filled p bytes)) (behind p (before ++ after) t)
  write_ends :
      (p : Process) (before after : List Op) (which : Which) (size : ℕ) (error : Bool) (t : Server)
      → p.pending ≡ before ++ async_write which size ∷ after
      → handle_writing error (idle p) ≡ some (tt, t)
      → Step order p 0 0 (behind p (before ++ after) t)
  wait_ends :
      (p : Process) (error : Bool) (waits : ℕ)
      → p.handler.waits ≡ suc waits
      → Step order p 0 0
          (record p { handler = handle_timer error (record (p.handler) { waits = waits }) })

pub data Steps (order : Order) : Process → ℕ → ℕ → Process → Type 0 where
  stop : (p : Process) → Steps order p 0 0 p
  then_step :
      {p q r : Process} {reads requests more_reads more_requests : ℕ}
      → Steps order p reads requests q
      → Step order q more_reads more_requests r
      → Steps order p (reads + more_reads) (requests + more_requests) r
