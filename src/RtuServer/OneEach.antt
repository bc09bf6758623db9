-- ===== src/RtuServer/OneEach.antt =====
-- Every request that rtu_server_data_handler.cpp answers starts one asynchronous operation.
use modbus_scanner.Base.{ℕ, refl, List, arith}
use modbus_scanner.Crc.{calc_crc_rtu}
use modbus_scanner.Defs.{Event, set_actual_size}
use modbus_scanner.RtuServer.EachMethod.{Laws, pdu_count, handle_calls_closed}
use modbus_scanner.RtuServer.Monad.{add}
use modbus_scanner.RtuServer.Operations.{
  Always, Starts, later, bind, quietly, branch, Always-pure, Always-add, Always-at, Always-get_coil,
  Always-get_reg, Always-set_coil, Always-set_reg, Always-start_read, Always-send_pdu,
  Always-mirror_pdu,
}
use modbus_scanner.RtuServer.Replies.{reply_header, add_crc, handle_calls}
use modbus_scanner.Scanner.{Order}

Always-reply_header : (fc : ℕ) → Always 0 (reply_header fc)
unfolding reply_header set_actual_size
Always-reply_header fc s =
    let empty = record s { output_buffer = set_actual_size s.output_buffer 0 } in
    let opened : Starts 0 s empty = record { many = omega arith; scanner = refl; input = refl } in
    later 0 0 opened _
      (quietly 0 (add s.dev_address) (add fc) (Always-add s.dev_address) (Always-add fc) empty)

Always-add_crc : Always 0 add_crc
unfolding add_crc
Always-add_crc s =
    let k = calc_crc_rtu s.output_buffer in
    quietly 0 (add k.hi) (add k.lo) (Always-add k.hi) (Always-add k.lo) s

Always-Laws : Laws (λ A n m. Always n m)
Always-Laws = record {
  bind = λ A B m n p k first next. bind m n p k first next;
  branch = λ A n b p q first second. branch n b p q first second;
  on_pure = λ A a. Always-pure a;
  on_add = Always-add;
  on_at = Always-at;
  on_get_coil = Always-get_coil;
  on_get_reg = Always-get_reg;
  on_set_coil = Always-set_coil;
  on_set_reg = Always-set_reg;
  on_start_read = Always-start_read;
  on_send_pdu = Always-send_pdu;
  on_mirror_pdu = Always-mirror_pdu;
  on_reply_header = Always-reply_header;
  on_add_crc = Always-add_crc;
}

-- A request, whatever its function, starts one operation where its reply returns.
pub Always-handle_calls :
    (order : Order) (calls : List Event) → Always (pdu_count calls) (handle_calls order calls)
Always-handle_calls order calls = handle_calls_closed order (λ A n m. Always n m) Always-Laws calls
