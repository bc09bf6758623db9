-- ===== src/RtuServer/EachMethod.antt =====
-- What holds of each method of rtu_server_data_handler.cpp that answers a request, if it holds of
-- the methods that these are put together from.
use mathlib.Core.Path.{subst}
use modbus_scanner.Base.{
  ℕ, zero, suc, ◌+◌, ◌*◌, ◌^◌, ◌≡◌, Bool, List, [], ◌∷◌, arith, ◌==◌, ltb, if◌then◌else◌, bit_and,
  bit_or,
}
use modbus_scanner.Defs.{Event, on_pdu, on_nonse, Pdu}
use modbus_scanner.RtuServer.Monad.{
  M, pure, ◌>>=◌, ◌>>◌, add, get_coil, set_coil, get_reg, set_reg, start_read, send_pdu, mirror_pdu,
}
use modbus_scanner.RtuServer.Replies.{
  u8, u16, at, reply_header, add_crc, add_hi_lo, flush_byte, f1_byte_count, f1_loop, reply_f1,
  reply_f2, f3_loop, reply_f3, reply_f4, reply_f5, reply_f6, f15_bits, f15_loop, confirm, reply_f15,
  write_regs, reply_f16, reply_f23, handle_pdu, handle_calls,
}
use modbus_scanner.Scanner.{Order, get_hi_lo, combine}

-- A property of methods, with a number that adds up, such as that of the asynchronous operations
-- that they start.
pub record Laws (P : (A : Type 0) → ℕ → M A → Type 0) : Type 1 where
  pub bind :
      (A B : Type 0) (m n : ℕ) (p : M A) (k : A → M B)
      → P A m p
      → ((a : A) → P B n (k a))
      → P B (m + n) (p >>= k)
  pub branch :
      (A : Type 0) (n : ℕ) (b : Bool) (p q : M A) → P A n p → P A n q → P A n (if b then p else q)
  pub on_pure : (A : Type 0) (a : A) → P A 0 (pure a)
  pub on_add : (c : ℕ) → P (Unit {0}) 0 (add c)
  pub on_at : (xs : List ℕ) (i : ℕ) → P ℕ 0 (at xs i)
  pub on_get_coil : (i : ℕ) → P Bool 0 (get_coil i)
  pub on_get_reg : (i : ℕ) → P ℕ 0 (get_reg i)
  pub on_set_coil : (i v : ℕ) → P (Unit {0}) 0 (set_coil i v)
  pub on_set_reg : (i v : ℕ) → P (Unit {0}) 0 (set_reg i v)
  pub on_start_read : P (Unit {0}) 1 start_read
  pub on_send_pdu : P (Unit {0}) 1 send_pdu
  pub on_mirror_pdu : P (Unit {0}) 1 mirror_pdu
  pub on_reply_header : (fc : ℕ) → P (Unit {0}) 0 (reply_header fc)
  pub on_add_crc : P (Unit {0}) 0 add_crc

-- The requests among the calls that a scanner made.
abbrev pub pdu_count : List Event → ℕ
pdu_count [] = 0
pdu_count (on_pdu p ∷ calls) = 1 + pdu_count calls
pdu_count (on_nonse ∷ calls) = pdu_count calls

module _ (order : Order) (P : (A : Type 0) → ℕ → M A → Type 0) (laws : Laws P) where
  -- A method with the number 0, in front.
  quiet :
      {A B : Type 0} (n : ℕ) (p : M A) (k : A → M B)
      → P A 0 p
      → ((a : A) → P B n (k a))
      → P B n (p >>= k)
  quiet {A} {B} n p k first next =
      let e : 0 + n ≡ n = omega arith in
      subst (λ i. P B i (p >>= k)) e (laws.bind A B 0 n p k first next)

  quietly : {B : Type 0} (n : ℕ) (p : M (Unit {0})) (k : M B) → P _ 0 p → P B n k → P B n (p >> k)
  quietly n p k first next = quiet n p (λ _. k) first (λ _. next)

  ending_closed : P (Unit {0}) 1 (add_crc >> send_pdu)
  ending_closed = quietly 1 add_crc send_pdu laws.on_add_crc laws.on_send_pdu

  flush_byte_closed : (byte bit_ix : ℕ) → P _ 0 (flush_byte byte bit_ix)
  unfolding flush_byte
  flush_byte_closed byte bit_ix =
      laws.branch _ 0 (bit_ix == 8) _ _
        (quiet 0 (add byte) (λ _. pure {A = ℕ × ℕ} (0, 0)) (laws.on_add byte)
          (λ _. laws.on_pure (ℕ × ℕ) (0, 0)))
        (laws.on_pure (ℕ × ℕ) (byte, bit_ix))

  f1_loop_closed : (left byte bit_ix ix : ℕ) → P _ 0 (f1_loop left byte bit_ix ix)
  unfolding f1_loop
  f1_loop_closed zero byte bit_ix ix = laws.on_pure (ℕ × ℕ) (byte, bit_ix)
  f1_loop_closed (suc left) byte bit_ix ix = quiet 0 (get_coil ix) _ (laws.on_get_coil ix) (λ coil.
      quiet 0 (flush_byte (if coil then bit_or byte (u8 (2 ^ bit_ix)) else byte) (bit_ix + 1)) _
        (flush_byte_closed (if coil then bit_or byte (u8 (2 ^ bit_ix)) else byte) (bit_ix + 1))
        (λ next. f1_loop_closed left next.0 next.1 (u16 (ix + 1))))

  reply_f1_closed : (fc a n : ℕ) → P _ 1 (reply_f1 fc a n)
  unfolding reply_f1
  reply_f1_closed fc a n = quietly 1 (reply_header fc) _ (laws.on_reply_header fc) (
      quietly 1 (add (f1_byte_count n)) _ (laws.on_add (f1_byte_count n)) (
        quiet 1 (f1_loop n 0 0 a) _ (f1_loop_closed n 0 0 a) (λ last.
          quietly 1 (if ltb 0 last.1 then add last.0 else pure tt) (add_crc >> send_pdu)
            (laws.branch _ 0 (ltb 0 last.1) _ _ (laws.on_add last.0) (laws.on_pure _ tt))
            ending_closed)))

  add_hi_lo_closed : (reg : ℕ) → P _ 0 (add_hi_lo order reg)
  unfolding add_hi_lo
  add_hi_lo_closed reg =
      let r = get_hi_lo order reg in
      quietly 0 (add r.hi) (add r.lo) (laws.on_add r.hi) (laws.on_add r.lo)

  f3_loop_closed : (left ix : ℕ) → P _ 0 (f3_loop order left ix)
  unfolding f3_loop
  f3_loop_closed zero ix = laws.on_pure _ tt
  f3_loop_closed (suc left) ix = quiet 0 (get_reg ix) _ (laws.on_get_reg ix) (λ reg.
      quietly 0 (add_hi_lo order reg) _ (add_hi_lo_closed reg) (f3_loop_closed left (u16 (ix + 1))))

  reply_f3_closed : (fc a n : ℕ) → P _ 1 (reply_f3 order fc a n)
  unfolding reply_f3
  reply_f3_closed fc a n = quietly 1 (reply_header fc) _ (laws.on_reply_header fc) (
      quietly 1 (add (u8 (n * 2))) _ (laws.on_add (u8 (n * 2)))
        (quietly 1 (f3_loop order n a) _ (f3_loop_closed n a) ending_closed))

  confirm_closed : (a n : ℕ) → P _ 1 (confirm order a n)
  unfolding confirm
  confirm_closed a n =
      quietly 1 (add_hi_lo order a) _ (add_hi_lo_closed a)
        (quietly 1 (add_hi_lo order n) _ (add_hi_lo_closed n) ending_closed)

  f15_bits_closed :
      (bits byte_val bit_mask a left : ℕ) → P _ 0 (f15_bits bits byte_val bit_mask a left)
  unfolding f15_bits
  f15_bits_closed zero byte_val bit_mask a left = laws.on_pure (ℕ × ℕ) (a, left)
  f15_bits_closed (suc bits) byte_val bit_mask a zero = laws.on_pure (ℕ × ℕ) (a, 0)
  f15_bits_closed (suc bits) byte_val bit_mask a (suc left) =
      let v = if bit_and byte_val bit_mask == 0 then 0 else 1 in
      quietly 0 (set_coil a v) _ (laws.on_set_coil a v)
        (f15_bits_closed bits byte_val (u8 (bit_mask * 2)) (u16 (a + 1)) left)

  f15_loop_closed :
      (payload : List ℕ) (bytes ix a left : ℕ) → P _ 0 (f15_loop payload bytes ix a left)
  unfolding f15_loop
  f15_loop_closed payload zero ix a left = laws.on_pure _ tt
  f15_loop_closed payload (suc bytes) ix a zero = laws.on_pure _ tt
  f15_loop_closed payload (suc bytes) ix a (suc left) =
      quiet 0 (at payload ix) _ (laws.on_at payload ix) (λ byte_val.
        quiet 0 (f15_bits 8 byte_val 1 a (suc left)) _ (f15_bits_closed 8 byte_val 1 a (suc left))
          (λ next. f15_loop_closed payload bytes (u8 (ix + 1)) next.0 next.1))

  reply_f15_closed :
      (fc a n count : ℕ) (payload : List ℕ) → P _ 1 (reply_f15 order fc a n count payload)
  unfolding reply_f15
  reply_f15_closed fc a n count payload = quietly 1 (reply_header fc) _ (laws.on_reply_header fc) (
      quietly 1 (f15_loop payload count 0 a n) _ (f15_loop_closed payload count 0 a n)
        (confirm_closed a n))

  write_regs_closed :
      (payload : List ℕ) (count left ix a : ℕ) → P _ 0 (write_regs order payload count left ix a)
  unfolding write_regs
  write_regs_closed payload count zero ix a = laws.on_pure _ tt
  write_regs_closed payload count (suc left) ix a =
      laws.branch _ 0 (ltb ix count) _ _
        (quiet 0 (at payload ix) _ (laws.on_at payload ix) (λ hi.
          quiet 0 (at payload (u8 (ix + 1))) _ (laws.on_at payload (u8 (ix + 1))) (λ lo.
            quietly 0 (set_reg a (combine order hi lo)) _ (laws.on_set_reg a (combine order hi lo))
              (write_regs_closed payload count left (u8 (ix + 2)) (u16 (a + 1))))))
        (laws.on_pure _ tt)

  reply_f16_closed :
      (fc a n count : ℕ) (payload : List ℕ) → P _ 1 (reply_f16 order fc a n count payload)
  unfolding reply_f16
  reply_f16_closed fc a n count payload = quietly 1 (reply_header fc) _ (laws.on_reply_header fc) (
      quietly 1 (write_regs order payload count n 0 a) _ (write_regs_closed payload count n 0 a)
        (confirm_closed a n))

  reply_f23_closed :
      (fc ra q wa n count : ℕ) (payload : List ℕ)
      → P _ 1 (reply_f23 order fc ra q wa n count payload)
  unfolding reply_f23
  reply_f23_closed fc ra q wa n count payload =
      quietly 1 (write_regs order payload count n 0 wa) _ (write_regs_closed payload count n 0 wa)
        (reply_f3_closed fc ra q)

  -- A request, whatever its function, starts one operation where its reply returns.
  handle_pdu_closed : (p : Pdu) → P _ 1 (handle_pdu order p)
  unfolding handle_pdu reply_f2 reply_f4 reply_f5 reply_f6
  handle_pdu_closed p = laws.branch _ 1 (p.fc == 1) _ _ (reply_f1_closed 1 p.i16_1 p.i16_2) (
      laws.branch _ 1 (p.fc == 2) _ _ (reply_f1_closed 2 p.i16_1 p.i16_2) (
        laws.branch _ 1 (p.fc == 3) _ _ (reply_f3_closed 3 p.i16_1 p.i16_2) (
          laws.branch _ 1 (p.fc == 4) _ _ (reply_f3_closed 4 p.i16_1 p.i16_2) (
            laws.branch _ 1 (p.fc == 5) _ _
              (quietly 1 (set_coil p.i16_1 p.i16_2) mirror_pdu (laws.on_set_coil p.i16_1 p.i16_2)
                laws.on_mirror_pdu)
              (laws.branch _ 1 (p.fc == 6) _ _
                (quietly 1 (set_reg p.i16_1 p.i16_2) mirror_pdu (laws.on_set_reg p.i16_1 p.i16_2)
                  laws.on_mirror_pdu)
                (laws.branch _ 1 (p.fc == 15) _ _
                  (reply_f15_closed 15 p.i16_1 p.i16_2 p.i8_1 p.payload)
                  (laws.branch _ 1 (p.fc == 16) _ _
                    (reply_f16_closed 16 p.i16_1 p.i16_2 p.i8_1 p.payload)
                    (laws.branch _ 1 (p.fc == 23) _ _
                      (reply_f23_closed 23 p.i16_1 p.i16_2 p.i16_3 p.i16_4 p.i8_1 p.payload)
                      laws.on_start_read))))))))

  pub handle_calls_closed : (calls : List Event) → P _ (pdu_count calls) (handle_calls order calls)
  unfolding handle_calls
  handle_calls_closed [] = laws.on_pure _ tt
  handle_calls_closed (on_pdu p ∷ calls) =
      laws.bind _ _ 1 (pdu_count calls) (handle_pdu order p) (λ _. handle_calls order calls)
        (handle_pdu_closed p) (λ _. handle_calls_closed calls)
  handle_calls_closed (on_nonse ∷ calls) = handle_calls_closed calls
