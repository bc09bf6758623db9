-- ===== src/RtuServer/Balance.antt =====
-- rtu_server_data_handler.cpp under `io_service.run`: how many operations on the port are pending.
use mathlib.Core.Path.{subst}
use modbus_scanner.Base.{
  ℕ, suc, ◌+◌, ◌≤◌, ◌≡◌, refl, sym, ap, ◌∙◌, Bool, true, false, ◌||◌, List, [], ◌∷◌, ◌++◌, Option,
  none, some, arith, length, length-append, ◌==◌, if◌then◌else◌,
}
use modbus_scanner.Defs.{set_actual_size}
use modbus_scanner.Rtu
use modbus_scanner.RtuServer.Loop.{
  Process, idle, filled, found, Step, read_ends, write_ends, wait_ends, Steps, stop, then_step,
}
use modbus_scanner.RtuServer.Monad.{Server, Op, async_read_some, async_write, start_read}
use modbus_scanner.RtuServer.EachMethod.{pdu_count}
use modbus_scanner.RtuServer.OneEach.{Always-handle_calls}
use modbus_scanner.RtuServer.Operations.{Started}
use modbus_scanner.RtuServer.Reading.{fresh}
use modbus_scanner.RtuServer.Replies.{handle_read, handle_writing, handle_calls}
use modbus_scanner.RtuServer.Starting.{handle_timer, schedule_timer}
use modbus_scanner.Scanner.{Order}

-- An outcome, where there is one, has started `n` operations.
abbrev Counts : ℕ → Server → Option (Unit {0} × Server) → Type 0
Counts n s none = Unit
Counts n s (some (a, t)) = length t.ops ≡ length s.ops + n

Started-Counts :
    (n : ℕ) (s : Server) (o : Option (Unit {0} × Server)) → Started n s o → Counts n s o
Started-Counts n s none p = tt
Started-Counts n s (some (a, t)) p = p.many

outcome :
    (n : ℕ) (s t : Server) (o : Option (Unit {0} × Server))
    → Counts n s o
    → o ≡ some (tt, t)
    → length t.ops ≡ length s.ops + n
outcome n s t o p e = subst (Counts n s) e p

-- One operation more or less in the middle of a list.
taken :
    (before after ops : List Op) (op : Op)
    → length (before ++ op ∷ after) + length ops ≡ suc (length ((before ++ after) ++ ops))
taken before after ops op = omega (
  arith,
  length-append before (op ∷ after),
  length-append (before ++ after) ops,
  length-append before after,
)

module _ (order : Order) where
  handle_read-found :
      (error : Bool) (size : ℕ) (s : Server)
      → Counts (found order error size s) s (handle_read order error size s)
  unfolding found handle_read
  handle_read-found error size s =
      by_case (error || size == 0) (Rtu.scan order (set_actual_size s.input_buffer size) (fresh s))
    where
      input : Server
      input = record s { input_buffer = set_actual_size s.input_buffer size }

      by_case :
          (stopped : Bool) (o : Option Rtu.Scanner)
          → Counts (if stopped then 0 else (elim o [ none ↦ 0 | some u ↦ pdu_count u.calls ])) s (
              if stopped then some (tt, s) else (elim o [
                | none ↦ none
                | some u ↦ handle_calls order u.calls (record input { modbus_scanner = u })
              ]))
      by_case true o = omega arith
      by_case false none = tt
      by_case false (some u) =
          let after = record input { modbus_scanner = u } in
          Started-Counts (pdu_count u.calls) after (handle_calls order u.calls after)
            (Always-handle_calls order u.calls after)

  -- What one step does to the number of pending operations, and to the timer.
  Step-balance :
      {p q : Process} {reads requests : ℕ}
      → Step order p reads requests q
      → (length q.pending + reads ≡ length p.pending + requests)
        × (q.handler.waits ≤ p.handler.waits)
  unfolding handle_writing start_read handle_timer schedule_timer
  Step-balance (read_ends p before after bytes error size t e done) =
      let n = found order error size (filled p bytes) in
      let some_started =
        outcome n (filled p bytes) t (handle_read order error size (filled p bytes))
          (handle_read-found error size (filled p bytes)) done in
      (
        omega (arith, ap length e, some_started, taken before after t.ops async_read_some),
        omega arith,
      )
  Step-balance (write_ends p before after which size error t e done) =
      let one = outcome 1 (idle p) t (handle_writing error (idle p)) (omega arith) done in
      (
        omega (arith, ap length e, one, taken before after t.ops (async_write which size)),
        omega arith,
      )
  Step-balance (wait_ends p error waits e) = (omega arith, ground arith)

  -- From any state, however the operations end: the operations that are pending and the reads that
  -- have ended are together as many as those that were pending and the requests that were found in
  -- the chunks; and never are more waits of the timer pending than at first.
  pub pending_balance :
      {p q : Process} {reads requests : ℕ}
      → Steps order p reads requests q
      → (length q.pending + reads ≡ length p.pending + requests)
        × (q.handler.waits ≤ p.handler.waits)
  pending_balance (stop p) = (omega arith, omega arith)
  pending_balance (then_step first step) =
      let (balance, waits) = pending_balance first in
      let (one, wait) = Step-balance step in
      (omega (arith, balance, one), omega (arith, waits, wait))

  -- With nothing pending on the port, only the timer goes on.
  Step-deaf :
      {p q : Process} {reads requests : ℕ}
      → Step order p reads requests q
      → p.pending ≡ []
      → (q.pending ≡ []) × (q.handler.server ≡ p.handler.server) × (reads ≡ 0)
  unfolding handle_timer schedule_timer
  Step-deaf (read_ends p before after bytes error size t e done) none_left =
      absurd (
        omega
          (arith, ap length (sym e ∙ none_left), length-append before (async_read_some ∷ after)))
  Step-deaf (write_ends p before after which size error t e done) none_left = absurd (
      omega (
        arith,
        ap length (sym e ∙ none_left),
        length-append before (async_write which size ∷ after),
      ))
  Step-deaf (wait_ends p false waits e) none_left = (none_left, refl, refl)
  Step-deaf (wait_ends p true waits e) none_left = (none_left, refl, refl)

  Steps-deaf :
      {p q : Process} {reads requests : ℕ}
      → Steps order p reads requests q
      → p.pending ≡ []
      → (q.pending ≡ []) × (q.handler.server ≡ p.handler.server) × (reads ≡ 0)
  Steps-deaf (stop p) none_left = (none_left, refl, refl)
  Steps-deaf (then_step first step) none_left =
      let (left, same, no_reads) = Steps-deaf first none_left in
      let (left', same', no_more) = Step-deaf step left in
      (left', same' ∙ same, omega (arith, no_reads, no_more))

  no_ops : (ops : List Op) → length ops ≡ 0 → ops ≡ []
  no_ops [] e = refl
  no_ops (op ∷ ops) e = absurd (omega arith)

  -- Once as many reads of the port have ended as operations were pending at first and requests have
  -- been found since, as when a chunk has held no whole request, the server is deaf for good: from
  -- then on no operation on the port is pending, no read ends, and its state stays as it is,
  -- however long it runs.
  pub deaf_for_good :
      {p q r : Process} {reads requests more_reads more_requests : ℕ}
      → Steps order p reads requests q
      → reads ≡ length p.pending + requests
      → Steps order q more_reads more_requests r
      → (r.pending ≡ []) × (r.handler.server ≡ q.handler.server) × (more_reads ≡ 0)
  deaf_for_good {p} {q} first used_up later =
      let (balance, waits) = pending_balance first in
      Steps-deaf later (no_ops q.pending (omega (arith, balance, used_up)))
