-- ===== src/RtuServer/Replies.antt =====
-- The replies of rtu_server/rtu_server_data_handler.cpp, one for each function code.
use modbus_scanner.Base.{
  ℕ, zero, suc, ◌+◌, ◌*◌, ◌/◌, ◌%◌, ◌^◌, Bool, ◌||◌, List, [], ◌∷◌, none, some, ◌==◌, ltb,
  if◌then◌else◌, bit_and, bit_or,
}
use modbus_scanner.Crc.{calc_crc_rtu}
use modbus_scanner.Defs.{Pdu, Event, on_pdu, on_nonse, set_actual_size}
use modbus_scanner.Rtu
use modbus_scanner.RtuServer.Monad.{
  M, pure, ◌>>=◌, ◌>>◌, add, get_coil, set_coil, get_reg, set_reg, start_read, send_pdu, mirror_pdu,
}
use modbus_scanner.Scanner.{Order, get_hi_lo, combine}

abbrev pub u8 : ℕ → ℕ
u8 n = n % 256

abbrev pub u16 : ℕ → ℕ
u16 n = n % 65536

-- `data[i]` of a `std::vector`.
unfoldable pub at : List ℕ → ℕ → M ℕ
at [] i s = none
at (x ∷ xs) zero s = some (x, s)
at (x ∷ xs) (suc i) s = at xs i s

unfoldable pub reply_header : ℕ → M (Unit {0})
reply_header fc s =
    (do add s.dev_address; add fc) (record s { output_buffer = set_actual_size s.output_buffer 0 })

unfoldable pub add_crc : M (Unit {0})
add_crc s = let k = calc_crc_rtu s.output_buffer in (do add k.hi; add k.lo) s

unfoldable pub add_hi_lo : Order → ℕ → M (Unit {0})
add_hi_lo order reg = let r = get_hi_lo order reg in do add r.hi; add r.lo

-- The end of a round of `reply_f1`: a full byte goes out. The results are `byte` and `bit_ix`.
unfoldable pub flush_byte : ℕ → ℕ → M (ℕ × ℕ)
flush_byte byte bit_ix = if bit_ix == 8 then (do add byte; pure (0, 0)) else pure (byte, bit_ix)

-- The loop of `reply_f1`, by the rounds that are left.
unfoldable pub f1_loop : ℕ → ℕ → ℕ → ℕ → M (ℕ × ℕ)
f1_loop zero byte bit_ix ix = pure (byte, bit_ix)
f1_loop (suc left) byte bit_ix ix = do
  coil ← get_coil ix
  next ← flush_byte (if coil then bit_or byte (u8 (2 ^ bit_ix)) else byte) (bit_ix + 1)
  f1_loop left next.0 next.1 (u16 (ix + 1))

unfoldable pub f1_byte_count : ℕ → ℕ
f1_byte_count quantity =
    if ltb 0 (quantity % 8) then u8 (u8 (quantity / 8) + 1) else u8 (quantity / 8)

unfoldable pub reply_f1 : ℕ → ℕ → ℕ → M (Unit {0})
reply_f1 fc starting_address quantity_of_coils = do
  reply_header fc
  add (f1_byte_count quantity_of_coils)
  last ← f1_loop quantity_of_coils 0 0 starting_address
  if ltb 0 last.1 then add last.0 else pure tt
  add_crc
  send_pdu

unfoldable pub reply_f2 : ℕ → ℕ → ℕ → M (Unit {0})
unfolding reply_f1
reply_f2 fc starting_address quantity_of_inputs = reply_f1 fc starting_address quantity_of_inputs

-- The loop of `reply_f3`, by the rounds that are left.
unfoldable pub f3_loop : Order → ℕ → ℕ → M (Unit {0})
f3_loop order zero ix = pure tt
f3_loop order (suc left) ix = do
  reg ← get_reg ix
  add_hi_lo order reg
  f3_loop order left (u16 (ix + 1))

unfoldable pub reply_f3 : Order → ℕ → ℕ → ℕ → M (Unit {0})
reply_f3 order fc starting_address quantity_of_regs = do
  reply_header fc
  add (u8 (quantity_of_regs * 2))
  f3_loop order quantity_of_regs starting_address
  add_crc
  send_pdu

unfoldable pub reply_f4 : Order → ℕ → ℕ → ℕ → M (Unit {0})
unfolding reply_f3
reply_f4 order fc starting_address quantity_of_regs =
    reply_f3 order 4 starting_address quantity_of_regs

unfoldable pub reply_f5 : ℕ → ℕ → ℕ → M (Unit {0})
reply_f5 fc output_address output_value = do set_coil output_address output_value; mirror_pdu

unfoldable pub reply_f6 : ℕ → ℕ → ℕ → M (Unit {0})
reply_f6 fc reg_address reg_value = do set_reg reg_address reg_value; mirror_pdu

-- The inner loop of `reply_f15`, by the bits of the byte that are left. The results are the
-- address of the next coil and the number of coils still to be set.
unfoldable pub f15_bits : ℕ → ℕ → ℕ → ℕ → ℕ → M (ℕ × ℕ)
f15_bits zero byte_val bit_mask address coils_left = pure (address, coils_left)
f15_bits (suc bits) byte_val bit_mask address zero = pure (address, 0)
f15_bits (suc bits) byte_val bit_mask address (suc coils_left) = do
  set_coil address (if bit_and byte_val bit_mask == 0 then 0 else 1)
  f15_bits bits byte_val (u8 (bit_mask * 2)) (u16 (address + 1)) coils_left

-- The outer loop, by the bytes that are left; `coils_left` is the quantity of outputs less
-- `coil_count`.
unfoldable pub f15_loop : List ℕ → ℕ → ℕ → ℕ → ℕ → M (Unit {0})
f15_loop payload zero byte_ix address coils_left = pure tt
f15_loop payload (suc bytes) byte_ix address zero = pure tt
f15_loop payload (suc bytes) byte_ix address (suc coils_left) = do
  byte_val ← at payload byte_ix
  next ← f15_bits 8 byte_val 1 address (suc coils_left)
  f15_loop payload bytes (u8 (byte_ix + 1)) next.0 next.1

-- The end that `reply_f15` and `reply_f16` share.
unfoldable pub confirm : Order → ℕ → ℕ → M (Unit {0})
confirm order starting_address quantity = do
  add_hi_lo order starting_address
  add_hi_lo order quantity
  add_crc
  send_pdu

unfoldable pub reply_f15 : Order → ℕ → ℕ → ℕ → ℕ → List ℕ → M (Unit {0})
unfolding confirm
reply_f15 order fc starting_address quantity_of_outputs byte_count payload = do
  reply_header fc
  f15_loop payload byte_count 0 starting_address quantity_of_outputs
  confirm order starting_address quantity_of_outputs

-- The loop that `reply_f16` and `reply_f23` share, by the registers that are left: the quantity
-- less `reg_count`. `byte_ix` is a uint8_t.
unfoldable pub write_regs : Order → List ℕ → ℕ → ℕ → ℕ → ℕ → M (Unit {0})
write_regs order payload byte_count zero byte_ix address = pure tt
write_regs order payload byte_count (suc left) byte_ix address =
    let rest = write_regs order payload byte_count left (u8 (byte_ix + 2)) (u16 (address + 1)) in
    if ltb byte_ix byte_count
    then (do
      hi ← at payload byte_ix
      lo ← at payload (u8 (byte_ix + 1))
      set_reg address (combine order hi lo)
      rest)
    else pure tt

unfoldable pub reply_f16 : Order → ℕ → ℕ → ℕ → ℕ → List ℕ → M (Unit {0})
unfolding confirm
reply_f16 order fc starting_address quantity_of_regs byte_count payload = do
  reply_header fc
  write_regs order payload byte_count quantity_of_regs 0 starting_address
  confirm order starting_address quantity_of_regs

unfoldable pub reply_f23 : Order → ℕ → ℕ → ℕ → ℕ → ℕ → ℕ → List ℕ → M (Unit {0})
unfolding reply_f3
reply_f23 order fc read_address quantity_to_read write_address quantity_to_write byte_count
      payload =
    do
      write_regs order payload byte_count quantity_to_write 0 write_address
      reply_f3 order fc read_address quantity_to_read

-- The switch of `on_pdu`.
unfoldable pub handle_pdu : Order → Pdu → M (Unit {0})
unfolding reply_f1 reply_f2 reply_f3 reply_f4 reply_f5 reply_f6 reply_f15 reply_f16 reply_f23
handle_pdu order p =
    if p.fc == 1
    then reply_f1 1 p.i16_1 p.i16_2
    else if p.fc == 2
    then reply_f2 2 p.i16_1 p.i16_2
    else if p.fc == 3
    then reply_f3 order 3 p.i16_1 p.i16_2
    else if p.fc == 4
    then reply_f4 order 4 p.i16_1 p.i16_2
    else if p.fc == 5
    then reply_f5 5 p.i16_1 p.i16_2
    else if p.fc == 6
    then reply_f6 6 p.i16_1 p.i16_2
    else if p.fc == 15
    then reply_f15 order 15 p.i16_1 p.i16_2 p.i8_1 p.payload
    else if p.fc == 16
    then reply_f16 order 16 p.i16_1 p.i16_2 p.i8_1 p.payload
    else if p.fc == 23
    then reply_f23 order 23 p.i16_1 p.i16_2 p.i16_3 p.i16_4 p.i8_1 p.payload
    else start_read

-- The calls that the scanner makes during one `scan`; `on_nonse` only prints.
unfoldable pub handle_calls : Order → List Event → M (Unit {0})
handle_calls order [] = pure tt
handle_calls order (on_pdu p ∷ calls) = do handle_pdu order p; handle_calls order calls
handle_calls order (on_nonse ∷ calls) = handle_calls order calls

-- `handle_read`. The replies do not touch the scanner or the input buffer, so the calls that it
-- makes are answered behind the scan, in order.
unfoldable pub handle_read : Order → Bool → ℕ → M (Unit {0})
unfolding handle_calls
handle_read order error length s =
    if error || length == 0
    then some (tt, s)
    else (let input = set_actual_size s.input_buffer length in
        let before = record (s.modbus_scanner) { calls = [] } in
        elim (Rtu.scan order input before) [
          | none ↦ none
          | some t ↦
              handle_calls order t.calls (record s { input_buffer = input; modbus_scanner = t })
        ])

unfoldable pub handle_writing : Bool → M (Unit {0})
handle_writing error = start_read
