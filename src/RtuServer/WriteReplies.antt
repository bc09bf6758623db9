-- ===== src/RtuServer/WriteReplies.antt =====
-- The replies of rtu_server_data_handler.cpp to requests that write registers.
use mathlib.Core.Path.{subst}
use modbus_scanner.Base.{
  ℕ, suc, ◌+◌, ◌*◌, ◌≤◌, ◌<◌, ◌≡◌, ap, ◌∙◌, List, [], ◌∷◌, ◌++◌, some, none, arith, length, All,
}
use modbus_scanner.Defs.{contents, buf_size}
use modbus_scanner.Rtu.Frame.{crc_bytes}
use modbus_scanner.RtuServer.Memory.{Same, coil, reg}
use modbus_scanner.RtuServer.Monad.{Server, async_write, m_output_buffer, send_pdu, ◌>>◌}
use modbus_scanner.RtuServer.Output.{Holds-output, then_some, then_none}
use modbus_scanner.RtuServer.Registers.{reg_bytes, reg_bytes-ext, reply_f3_fits, Emits-hi_lo}
use modbus_scanner.RtuServer.Replies.{
  u8, reply_header, add_hi_lo, add_crc, confirm, write_regs, reply_f3, reply_f16, reply_f23,
}
use modbus_scanner.RtuServer.Sending.{Sent, Replies, Replies-then, Replies-end, header_lem}
use modbus_scanner.RtuServer.Cells.{stored, stored-ext}
use modbus_scanner.RtuServer.Writing.{
  payload_of, Stored, write_regs-Stored, write_regs-odd, reg_bytes-stored,
}
use modbus_scanner.Scanner.{Order, little_endian, get_hi_lo}

-- From `s` to `t`: the registers `vs` are written from address `a` on, `body` with its checksum
-- stands in the output buffer, a write of just that has been started, and the coils, the
-- scanner, the input and the address are as before, the output buffer has its size.
pub record Written (s t : Server) (vs : List ℕ) (a : ℕ) (body : List ℕ) : Type 0 where
  pub regs : (j : ℕ) → reg t j ≡ stored vs a (reg s) j
  pub shown : contents t.output_buffer ≡ body ++ crc_bytes body
  pub started : t.ops ≡ s.ops ++ async_write m_output_buffer (length body + 2) ∷ []
  pub coils : (i : ℕ) → coil t i ≡ coil s i
  pub scanner : t.modbus_scanner ≡ s.modbus_scanner
  pub input : t.input_buffer ≡ s.input_buffer
  pub address : t.dev_address ≡ s.dev_address
  pub whole : length t.output_buffer.bytes ≡ buf_size

Stored-Sent :
    {s t u : Server} {vs : List ℕ} {a : ℕ} (body : List ℕ)
    → Stored s t vs a
    → Sent t u body
    → Written s u vs a body
Stored-Sent body p q = record {
  regs = λ j. q.regs j ∙ p.regs j;
  shown = q.shown;
  started = q.started ∙ ap (λ ops. ops ++ async_write m_output_buffer (length body + 2) ∷ []) p.ops;
  coils = λ i. q.coils i ∙ p.coils i;
  scanner = q.scanner ∙ p.scanner;
  input = q.input ∙ p.input;
  address = q.address ∙ p.address;
  whole = q.whole;
}

Same-Written :
    {s t u : Server} {vs : List ℕ} {a : ℕ} (body : List ℕ)
    → Same s t
    → Written t u vs a body
    → Written s u vs a body
Same-Written {s} {t} {u} {vs} {a} body p q = record {
  regs = λ j. q.regs j ∙ stored-ext vs a (reg t) (reg s) j p.regs;
  shown = q.shown;
  started = q.started ∙ ap (λ ops. ops ++ async_write m_output_buffer (length body + 2) ∷ []) p.ops;
  coils = λ i. q.coils i ∙ p.coils i;
  scanner = q.scanner ∙ p.scanner;
  input = q.input ∙ p.input;
  address = q.address ∙ p.address;
  whole = q.whole;
}

module _ (order : Order) where
  -- A request of function 23 with as many payload bytes as its registers want: the registers are
  -- written first, addresses wrapping at 2 ^ 16, and the reply holds what the registers to read
  -- are after that; nothing else that a client can read is changed.
  pub reply_f23_fits :
      (fc read_address quantity write_address : ℕ) (vs : List ℕ) (s : Server)
      → length s.output_buffer.bytes ≡ buf_size
      → quantity ≤ 509
      → length vs ≤ 127
      → (t : Server) × (reply_f23 order fc read_address quantity write_address
            (length vs)
            (2 * length vs)
            (payload_of vs)
            s
          ≡ some (tt, t))
        × Written s t vs write_address (
            s.dev_address
            ∷ fc
            ∷ u8 (quantity * 2)
            ∷ reg_bytes order (stored vs write_address (reg s)) quantity read_address)
  unfolding reply_f23
  reply_f23_fits fc ra q wa vs s whole room few =
      let (u, wrote, p) =
        write_regs-Stored order vs [] (2 * length vs) wa s (omega arith) (omega arith) in
      let (t, replied, sent) =
        reply_f3_fits order fc ra q u (ap (λ b. length b.bytes) p.output ∙ whole) room in
      let values = reg_bytes-ext order (stored vs wa (reg s)) (reg u) q ra p.regs in
      let head = ap (λ x. x ∷ fc ∷ u8 (q * 2) ∷ reg_bytes order (reg u) q ra) p.address in
      let body = head ∙ ap (λ xs. s.dev_address ∷ fc ∷ u8 (q * 2) ∷ xs) values in
      (
        t,
        then_some (write_regs order (payload_of vs) (2 * length vs) (length vs) 0 wa)
              (λ _. reply_f3 order fc ra q) wrote
            ∙ replied,
        subst (Written s t vs wa) body (Stored-Sent _ p sent),
      )

  -- Functions 16 and 23 with an odd byte count and a payload of that many bytes, and with room
  -- in the quantity for the half register: `data[byte_ix]` is read behind the end of the vector.
  pub odd_count_overreads :
      (fc fc' address read_address quantity : ℕ) (vs : List ℕ) (x more : ℕ) (s : Server)
      → length s.output_buffer.bytes ≡ buf_size
      → length vs ≤ 127
      → let payload = payload_of vs ++ x ∷ [] in
        let n = length vs + suc more in
        (reply_f16 order fc address n (2 * length vs + 1) payload s ≡ none)
        × (reply_f23 order fc' read_address quantity address n (2 * length vs + 1) payload s ≡ none)
  unfolding reply_f16 reply_f23
  odd_count_overreads fc fc' a ra q vs x more s whole few =
      let count = 2 * length vs + 1 in
      let writes = write_regs order (payload_of vs ++ x ∷ []) count (length vs + suc more) 0 a in
      let fails =
        λ (t : Server). write_regs-odd order vs [] x count more a t (omega arith) (omega arith) in
      let (t, headed, ht, same) = header_lem fc s whole in
      (
        then_some (reply_header fc) (λ _. writes >> confirm order a (length vs + suc more)) headed
            ∙ then_none writes (λ _. confirm order a (length vs + suc more)) (fails t),
        then_none writes (λ _. reply_f3 order fc' ra q) (fails s),
      )

  pub Replies-confirm :
      (a q : ℕ) (s : Server)
      → let start = get_hi_lo order a in
        let many = get_hi_lo order q in
        Replies (confirm order a q) s (start.hi ∷ start.lo ∷ many.hi ∷ many.lo ∷ [])
  unfolding confirm
  Replies-confirm a q s =
      let start = get_hi_lo order a in
      let many = get_hi_lo order q in
      Replies-then (add_hi_lo order a) _ s (start.hi ∷ start.lo ∷ []) (many.hi ∷ many.lo ∷ [])
        (Emits-hi_lo order a s)
        (λ t _.
          Replies-then (add_hi_lo order q) (add_crc >> send_pdu) t (many.hi ∷ many.lo ∷ []) []
            (Emits-hi_lo order q t) (λ u _. Replies-end u))

  -- A request of function 16 with as many payload bytes as its registers want: the registers are
  -- written, addresses wrapping at 2 ^ 16, and the reply repeats the starting address and the
  -- quantity; nothing else that a client can read is changed.
  pub reply_f16_fits :
      (fc address : ℕ) (vs : List ℕ) (s : Server)
      → length s.output_buffer.bytes ≡ buf_size
      → length vs ≤ 127
      → let start = get_hi_lo order address in
        let many = get_hi_lo order (length vs) in
        (t : Server) × (reply_f16 order fc address (length vs) (2 * length vs) (payload_of vs) s
          ≡ some (tt, t))
        × Written s t vs address (s.dev_address ∷ fc ∷ start.hi ∷ start.lo ∷ many.hi ∷ many.lo ∷ [])
  unfolding reply_f16
  reply_f16_fits fc a vs s whole few =
      let n = length vs in
      let writes = write_regs order (payload_of vs) (2 * n) n 0 a in
      let (t, headed, ht, same) = header_lem fc s whole in
      let (u, wrote, p) = write_regs-Stored order vs [] (2 * n) a t (omega arith) (omega arith) in
      let (v, replied, sent) =
        (Replies-confirm a n u).fits (s.dev_address ∷ fc ∷ [])
          (Holds-output t u (s.dev_address ∷ fc ∷ []) p.output ht) (omega arith) in
      (
        v,
        then_some (reply_header fc) (λ _. writes >> confirm order a n) headed
            ∙ (then_some writes (λ _. confirm order a n) wrote ∙ replied),
        Same-Written _ same (Stored-Sent _ p sent),
      )

-- Functions 23 on a little-endian machine, writing registers and reading the same ones: the
-- reply is the device address, the function code, the byte count and the payload of the request.
pub reply_f23_reads_back :
    (fc address : ℕ) (vs : List ℕ) (s : Server)
    → length s.output_buffer.bytes ≡ buf_size
    → address < 65536
    → length vs ≤ 127
    → All (λ v. v < 65536) vs
    → (t : Server) × (reply_f23 little_endian fc address
          (length vs)
          address
          (length vs)
          (2 * length vs)
          (payload_of vs)
          s
        ≡ some (tt, t))
      × Written s t vs address (s.dev_address ∷ fc ∷ 2 * length vs ∷ payload_of vs)
reply_f23_reads_back fc a vs s whole small few words =
    let n = length vs in
    let (t, replied, w) = reply_f23_fits little_endian fc a n a vs s whole (omega arith) few in
    let count : u8 (n * 2) ≡ 2 * n = omega arith in
    let values = reg_bytes-stored vs a (reg s) small (omega arith) words in
    let body =
      ap (λ c. s.dev_address ∷ fc ∷ c ∷ reg_bytes little_endian (stored vs a (reg s)) n a) count
      ∙ ap (λ xs. s.dev_address ∷ fc ∷ 2 * n ∷ xs) values in
    (t, replied, subst (Written s t vs a) body w)
