-- ===== src/RtuServer/AlikeReplies.antt =====
-- The replies and the handlers of rtu_server_data_handler.cpp do not see how its maps came about.
use modbus_scanner.Base.{
  ℕ, ◌||◌, Bool, true, false, List, [], Option, none, some, ◌==◌, if◌then◌else◌, refl,
}
use modbus_scanner.Crc.{calc_crc_rtu}
use modbus_scanner.Defs.{Event, set_actual_size}
use modbus_scanner.Rtu
use modbus_scanner.RtuServer.Alike.{
  alike, Blind, BothAlike, Blind-bind, Blind-then, Blind-branch, Blind-pure, Blind-add, Blind-at,
  Blind-get_coil, Blind-get_reg, Blind-set_coil, Blind-set_reg, Blind-start_read, Blind-send_pdu,
  Blind-mirror_pdu,
}
use modbus_scanner.RtuServer.EachMethod.{Laws, handle_calls_closed}
use modbus_scanner.RtuServer.Monad.{Server, add}
use modbus_scanner.RtuServer.Replies.{
  reply_header, add_crc, handle_calls, handle_read, handle_writing,
}
use modbus_scanner.Scanner.{Order}

Blind-reply_header : (fc : ℕ) → Blind (reply_header fc)
unfolding reply_header set_actual_size
Blind-reply_header fc s t (alike _ cs rs hc hr) =
    Blind-then (add s.dev_address) (add fc) (Blind-add s.dev_address) (Blind-add fc) _ _
      (alike (record s { output_buffer = set_actual_size s.output_buffer 0 }) cs rs hc hr)

Blind-add_crc : Blind add_crc
unfolding add_crc
Blind-add_crc s t (alike _ cs rs hc hr) =
    let k = calc_crc_rtu s.output_buffer in
    Blind-then (add k.hi) (add k.lo) (Blind-add k.hi) (Blind-add k.lo) s _ (alike s cs rs hc hr)

Blind-Laws : Laws (λ A n m. Blind m)
Blind-Laws = record {
  bind = λ A B m n p k first next. Blind-bind p k first next;
  branch = λ A n b p q first second. Blind-branch b p q first second;
  on_pure = λ A a. Blind-pure a;
  on_add = Blind-add;
  on_at = Blind-at;
  on_get_coil = Blind-get_coil;
  on_get_reg = Blind-get_reg;
  on_set_coil = Blind-set_coil;
  on_set_reg = Blind-set_reg;
  on_start_read = Blind-start_read;
  on_send_pdu = Blind-send_pdu;
  on_mirror_pdu = Blind-mirror_pdu;
  on_reply_header = Blind-reply_header;
  on_add_crc = Blind-add_crc;
}

module _ (order : Order) where
  Blind-handle_calls : (calls : List Event) → Blind (handle_calls order calls)
  Blind-handle_calls calls = handle_calls_closed order (λ A n m. Blind m) Blind-Laws calls

  pub Blind-handle_read : (error : Bool) (length : ℕ) → Blind (handle_read order error length)
  unfolding handle_read
  Blind-handle_read error length s t (alike _ cs rs hc hr) = by_case (error || length == 0) (
      Rtu.scan order (set_actual_size s.input_buffer length)
        (record (s.modbus_scanner) { calls = [] }))
    where
      scanned : Rtu.Scanner → Server
      scanned u = record s {
        input_buffer = set_actual_size s.input_buffer length;
        modbus_scanner = u;
      }

      by_case :
          (skipped : Bool) (o : Option Rtu.Scanner)
          → BothAlike
              (if skipped
                then some (tt {0}, s)
                else (elim o [ none ↦ none | some u ↦ handle_calls order u.calls (scanned u) ]))
              (if skipped then some (tt {0}, record s { coils = cs; regs = rs }) else (elim o [
                | none ↦ none
                | some u ↦ handle_calls order u.calls (record (scanned u) { coils = cs; regs = rs })
              ]))
      by_case true o = (refl, alike s cs rs hc hr)
      by_case false none = tt
      by_case false (some u) =
          Blind-handle_calls u.calls (scanned u) _ (alike (scanned u) cs rs hc hr)

  pub Blind-handle_writing : (error : Bool) → Blind (handle_writing error)
  unfolding handle_writing
  Blind-handle_writing error = Blind-start_read
