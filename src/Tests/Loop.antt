-- ===== src/Tests/Loop.antt =====
-- The RTU server under `io_service.run` at concrete inputs: a chunk with no request makes it deaf.
use modbus_scanner.Base.{ℕ, ◌+◌, ◌≤◌, ◌≡◌, refl, false, [], ◌∷◌, length}
use modbus_scanner.Coroutine
use modbus_scanner.Defs.{set_actual_size}
use modbus_scanner.Rtu
use modbus_scanner.RtuServer.Balance.{pending_balance, deaf_for_good}
use modbus_scanner.RtuServer.Loop.{
  Process, read_ends, wait_ends, Steps, stop, then_step, found, behind,
}
use modbus_scanner.RtuServer.Monad.{async_read_some}
use modbus_scanner.RtuServer.Replies.{handle_read, handle_calls}
use modbus_scanner.RtuServer.Starting.{handle_timer, schedule_timer}
use modbus_scanner.Scanner.{little_endian, valid_fc}
use modbus_scanner.Tests.{chunk}
use modbus_scanner.Tests.Server.{server, nonsense, behind_nonsense}

abbrev process : Process
process = record {
  handler = record { server = server; descriptor = []; waits = 1 };
  pending = async_read_some ∷ [];
}

abbrev deaf : Process
deaf = behind process [] behind_nonsense

nonsense_read : Steps little_endian process 1 0 deaf
unfolding set_actual_size Rtu.new Rtu.scan Rtu.step_at valid_fc handle_read handle_calls found
    Coroutine.resume Coroutine.scan
nonsense_read =
    then_step (stop process)
      (read_ends process [] [] (chunk nonsense).bytes false 3 behind_nonsense refl refl)

a_tick : Steps little_endian deaf 0 0 deaf
unfolding handle_timer schedule_timer
a_tick = then_step (stop deaf) (wait_ends deaf false 0 refl)

pending_balance_example :
    (length deaf.pending + 1 ≡ length process.pending + 0)
    × (deaf.handler.waits ≤ process.handler.waits)
pending_balance_example = pending_balance little_endian nonsense_read

deaf_for_good_example :
    (deaf.pending ≡ []) × (deaf.handler.server ≡ deaf.handler.server) × (◌≡◌ {A = ℕ} 0 0)
deaf_for_good_example = deaf_for_good little_endian nonsense_read refl a_tick
