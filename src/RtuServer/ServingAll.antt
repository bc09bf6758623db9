-- ===== src/RtuServer/ServingAll.antt =====
-- rtu_server_data_handler.cpp carries out every request as the abstract device does.
use mathlib.Core.Path.{subst}
use modbus_scanner.Base.{
  ℕ, zero, suc, ◌+◌, ◌*◌, ◌/◌, ◌%◌, ◌<◌, ◌≡◌, inl, inr, refl, sym, ap, ◌∙◌, not, List, [], ◌∷◌,
  ◌++◌, some, arith, ◌==◌, if◌then◌else◌, length, take, All, IsBytes,
}
use modbus_scanner.Defs.{Pdu, buf_size}
use modbus_scanner.Request.{Request, short, write, read_write, IsRequest, decoded}
use modbus_scanner.RtuServer.Bits.{unpack}
use modbus_scanner.RtuServer.Cells.{stored, stored-ext}
use modbus_scanner.RtuServer.CoilWrites.{reply_f15_fits}
use modbus_scanner.RtuServer.Device.{
  Device, confirmed, echo, regs_of, updated, answer_to, function_of, IsServed, payload_of-regs_of,
  stored-small,
}
use modbus_scanner.RtuServer.Memory.{coil, reg, coil-assign, reg-assign}
use modbus_scanner.RtuServer.Monad.{
  Server, async_write, m_input_buffer, m_output_buffer, assign, set_coil, set_reg, mirror_pdu,
}
use modbus_scanner.RtuServer.Registers.{reg_bytes, reg_bytes-ext}
use modbus_scanner.RtuServer.Replies.{
  u8, handle_pdu, reply_f2, reply_f4, reply_f5, reply_f6, reply_f16, reply_f23,
}
use modbus_scanner.RtuServer.WriteReplies.{Written, reply_f16_fits, reply_f23_fits}
use modbus_scanner.Scanner.{little_endian, get_hi_lo}
use modbus_scanner.RtuServer.Serving.{Holds, Replied, coils_read, shown_regs, regs_read}

module _ (s : Server) (d : Device) (h : Holds s d) where
  -- The confirmation of a write on the line.
  confirmation :
      (x y fc a q : ℕ)
      → x ≡ y
      → a < 65536
      → q < 65536
      → let start = get_hi_lo little_endian a in
        let many = get_hi_lo little_endian q in
        x ∷ fc ∷ start.hi ∷ start.lo ∷ many.hi ∷ many.lo ∷ []
        ≡ y ∷ fc ∷ a / 256 ∷ a % 256 ∷ q / 256 ∷ q % 256 ∷ []
  unfolding get_hi_lo
  confirmation x y fc a q same ha hq =
      let start : a / 256 % 256 ≡ a / 256 = omega arith in
      let many : q / 256 % 256 ≡ q / 256 = omega arith in rw (same, start, many)

  coils_written :
      (a q : ℕ) (bytes : List ℕ) (p : Pdu)
      → length s.output_buffer.bytes ≡ buf_size
      → IsRequest (write 15 a q bytes)
      → IsBytes bytes
      → (t : Server) × (handle_pdu little_endian (decoded (write 15 a q bytes) p) s ≡ some (tt, t))
        × Replied s t (updated (write 15 a q bytes) d) 15 (confirmed a q)
  unfolding handle_pdu
  coils_written a q bytes p whole r small =
      let (t, done, w) = reply_f15_fits little_endian 15 a q bytes s whole small r.3 in
      let vs = take q (unpack bytes) in
      (
        t,
        done,
        record {
          holds = record {
            coils = λ j. w.coils j ∙ stored-ext vs a (coil s) d.coils j h.coils;
            regs = λ j. w.regs j ∙ h.regs j;
            words = h.words;
          };
          op = async_write m_output_buffer 8;
          started = w.started;
          delivers = (
            _,
            refl,
            w.shown,
            confirmation s.dev_address t.dev_address 15 a q (sym w.address) r.1 r.2,
          );
          scanner = w.scanner;
          input = w.input;
          address = w.address;
          whole = w.whole;
        },
      )

  -- Registers that are written keep the server in step with the device.
  registers_held :
      (t : Server) (vs : List ℕ) (a : ℕ) (body : List ℕ)
      → All (λ v. v < 65536) vs
      → Written s t vs a body
      → Holds t (record d { regs = stored vs a d.regs })
  registers_held t vs a body words w = record {
    coils = λ j. w.coils j ∙ h.coils j;
    regs = λ j. w.regs j ∙ stored-ext vs a (reg s) d.regs j h.regs;
    words = stored-small vs a d.regs words h.words;
  }

  regs_written :
      (a q : ℕ) (bytes : List ℕ) (p : Pdu)
      → length s.output_buffer.bytes ≡ buf_size
      → IsRequest (write 16 a q bytes)
      → IsBytes bytes
      → length bytes ≡ 2 * q
      → (t : Server) × (handle_pdu little_endian (decoded (write 16 a q bytes) p) s ≡ some (tt, t))
        × Replied s t (updated (write 16 a q bytes) d) 16 (confirmed a q)
  unfolding handle_pdu
  regs_written a q bytes p whole r small count =
      let vs = regs_of bytes in
      let (many, same, words) = payload_of-regs_of q bytes count small in
      let (t, done, w) =
        reply_f16_fits little_endian 16 a vs s whole (omega (arith, many, count, r.3)) in
      let twice : 2 * length vs ≡ length bytes = omega (arith, many, count) in
      (
        t,
        ap (λ n. reply_f16 little_endian 16 a n (length bytes) bytes s) (sym many)
            ∙ ap (λ n. reply_f16 little_endian 16 a (length vs) n bytes s) (sym twice)
            ∙ ap (λ xs. reply_f16 little_endian 16 a (length vs) (2 * length vs) xs s) (sym same)
            ∙ done,
        record {
          holds = registers_held t vs a _ words w;
          op = async_write m_output_buffer 8;
          started = w.started;
          delivers = (
            _,
            refl,
            w.shown,
            confirmation s.dev_address t.dev_address 16 a (length vs) (sym w.address) r.1
                  (omega (arith, many, r.2))
                ∙ ap (λ n. t.dev_address ∷ 16 ∷ a / 256 ∷ a % 256 ∷ n / 256 ∷ n % 256 ∷ []) many,
          );
          scanner = w.scanner;
          input = w.input;
          address = w.address;
          whole = w.whole;
        },
      )

  regs_exchanged :
      (ra q wa n : ℕ) (bytes : List ℕ) (p : Pdu)
      → length s.output_buffer.bytes ≡ buf_size
      → IsRequest (read_write ra q wa n bytes)
      → IsServed (read_write ra q wa n bytes)
      → (t : Server) × (handle_pdu little_endian (decoded (read_write ra q wa n bytes) p) s
          ≡ some (tt, t))
        × Replied s t
            (updated (read_write ra q wa n bytes) d)
            23
            (answer_to (read_write ra q wa n bytes) d)
  unfolding handle_pdu
  regs_exchanged ra q wa n bytes p whole r served =
      let vs = regs_of bytes in
      let (many, same, words) = payload_of-regs_of n bytes served.1 served.0 in
      let (t, done, w) =
        reply_f23_fits little_endian 23 ra q wa vs s whole served.2
          (omega (arith, many, served.1, r.4)) in
      let twice : 2 * length vs ≡ length bytes = omega (arith, many, served.1) in
      let memory = stored vs wa d.regs in
      let body =
        s.dev_address ∷ 23 ∷ u8 (q * 2) ∷ reg_bytes little_endian (stored vs wa (reg s)) q ra in
      (
        t,
        ap (λ k. reply_f23 little_endian 23 ra q wa k (length bytes) bytes s) (sym many)
            ∙ ap (λ k. reply_f23 little_endian 23 ra q wa (length vs) k bytes s) (sym twice)
            ∙ ap (λ xs. reply_f23 little_endian 23 ra q wa (length vs) (2 * length vs) xs s)
                (sym same)
            ∙ done,
        record {
          holds = registers_held t vs wa body words w;
          op = async_write m_output_buffer (length body + 2);
          started = w.started;
          delivers = (
            body,
            refl,
            w.shown,
            ap (λ x. x ∷ 23 ∷ u8 (q * 2) ∷ reg_bytes little_endian (stored vs wa (reg s)) q ra)
                  (sym w.address)
                ∙ ap (λ ys. t.dev_address ∷ 23 ∷ u8 (q * 2) ∷ ys)
                    (reg_bytes-ext little_endian memory (stored vs wa (reg s)) q ra
                      (λ j. stored-ext vs wa (reg s) d.regs j h.regs))
                ∙ ap (λ ys. t.dev_address ∷ 23 ∷ ys)
                    (shown_regs s d h memory q ra (stored-small vs wa d.regs words h.words)),
          );
          scanner = w.scanner;
          input = w.input;
          address = w.address;
          whole = w.whole;
        },
      )

  -- A write that is answered with the request's own bytes.
  mirrored :
      (t : Server) (e : Device) (fc : ℕ)
      → Holds t e
      → t.ops ≡ s.ops ++ async_write m_input_buffer t.input_buffer.actual_size ∷ []
      → t.modbus_scanner ≡ s.modbus_scanner
      → t.input_buffer ≡ s.input_buffer
      → t.dev_address ≡ s.dev_address
      → length t.output_buffer.bytes ≡ buf_size
      → Replied s t e fc echo
  mirrored t e fc held started scanner input address whole = record {
    holds = held;
    op = async_write m_input_buffer t.input_buffer.actual_size;
    started = started;
    delivers = refl;
    scanner = scanner;
    input = input;
    address = address;
    whole = whole;
  }

  abbrev pub Outcome : Request → Pdu → Type 0
  Outcome r p =
      (t : Server) × (handle_pdu little_endian (decoded r p) s ≡ some (tt, t))
      × Replied s t (updated r d) (function_of r) (answer_to r d)

  handled_short :
      (fc a q : ℕ) (p : Pdu)
      → length s.output_buffer.bytes ≡ buf_size
      → IsRequest (short fc a q)
      → IsServed (short fc a q)
      → Outcome (short fc a q) p
  unfolding handle_pdu reply_f2 reply_f4 reply_f5 reply_f6 set_coil set_reg mirror_pdu coil reg
  handled_short zero a q p whole r room = absurd (omega (arith, r.0))
  handled_short (suc zero) a q p whole r room = coils_read s d h 1 a q whole room
  handled_short (suc (suc zero)) a q p whole r room = coils_read s d h 2 a q whole room
  handled_short (suc (suc (suc zero))) a q p whole r room = regs_read s d h 3 a q whole room
  handled_short (suc (suc (suc (suc zero)))) a q p whole r room = regs_read s d h 4 a q whole room
  handled_short (suc (suc (suc (suc (suc zero))))) a v p whole r room =
      let t = record s {
        coils = assign a (not (v == 0)) s.coils;
        ops = s.ops ++ async_write m_input_buffer s.input_buffer.actual_size ∷ [];
      } in
      (
        t,
        refl,
        mirrored t (updated (short 5 a v) d) 5
            (record {
              coils = λ j.
                  coil-assign s a j (not (v == 0))
                  ∙ ap (λ w. if a == j then not (v == 0) else w) (h.coils j);
              regs = h.regs;
              words = h.words;
            })
            refl refl refl refl whole,
      )
  handled_short (suc (suc (suc (suc (suc (suc zero)))))) a v p whole r room =
      let t = record s {
        regs = assign a v s.regs;
        ops = s.ops ++ async_write m_input_buffer s.input_buffer.actual_size ∷ [];
      } in
      (
        t,
        refl,
        mirrored t (updated (short 6 a v) d) 6
            (record {
              coils = h.coils;
              regs = λ j. reg-assign s a j v ∙ ap (λ w. if a == j then v else w) (h.regs j);
              words = stored-small (v ∷ []) a d.regs (r.3, tt) h.words;
            })
            refl refl refl refl whole,
      )
  handled_short (suc (suc (suc (suc (suc (suc (suc fc))))))) a q p whole r room =
      absurd (omega (arith, r.1))

  -- A request that the server has room for is carried out and answered as by the device.
  pub handled :
      (r : Request) (p : Pdu)
      → length s.output_buffer.bytes ≡ buf_size
      → IsRequest r
      → IsServed r
      → Outcome r p
  handled (short fc a q) p whole r room = handled_short fc a q p whole r room
  handled (write fc a q bytes) p whole r served = elim r.0 [
    | inl e ↦
        subst (λ f. Outcome (write f a q bytes) p) (sym e)
          (coils_written a q bytes p whole (inl refl, r.1, r.2, r.3) served.0)
    | inr e ↦
        subst (λ f. Outcome (write f a q bytes) p) (sym e)
          (regs_written a q bytes p whole (inr refl, r.1, r.2, r.3) served.0
            (subst (λ f. if f == 15 then Unit {0} else length bytes ≡ 2 * q) e served.1))
  ]
  handled (read_write ra q wa n bytes) p whole r served =
      regs_exchanged ra q wa n bytes p whole r served
