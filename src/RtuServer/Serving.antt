-- ===== src/RtuServer/Serving.antt =====
-- rtu_server_data_handler.cpp answers requests to read as the abstract device does.
use modbus_scanner.Base.{
  ℕ, ◌+◌, ◌*◌, ◌≤◌, ◌<◌, ◌≡◌, refl, sym, ap, ◌∙◌, false, List, [], ◌∷◌, ◌++◌, some, arith, length,
  replicate,
}
use modbus_scanner.Defs.{contents, buf_size}
use modbus_scanner.Rtu.Frame.{crc_bytes}
use modbus_scanner.RtuServer.Bits.{padding}
use modbus_scanner.RtuServer.Cells.{window, window-ext, length-window}
use modbus_scanner.RtuServer.CoilReads.{reply_f1_fits}
use modbus_scanner.RtuServer.Device.{
  Device, Answer, coil_values, reg_values, echo, Shows, window-small,
}
use modbus_scanner.RtuServer.Memory.{coil, reg}
use modbus_scanner.RtuServer.Monad.{Server, Op, async_write, m_input_buffer, m_output_buffer}
use modbus_scanner.RtuServer.Registers.{reg_bytes, reply_f3_fits, reg_bytes-ext}
use modbus_scanner.RtuServer.Replies.{u8, reply_f1, reply_f3}
use modbus_scanner.RtuServer.Sending.{Sent}
use modbus_scanner.RtuServer.Writing.{payload_of, reg_bytes-window}
use modbus_scanner.Scanner.{little_endian}

-- The server's maps hold what the device holds, which are 16-bit numbers in its registers.
pub record Holds (s : Server) (d : Device) : Type 0 where
  pub coils : (i : ℕ) → coil s i ≡ d.coils i
  pub regs : (i : ℕ) → reg s i ≡ d.regs i
  pub words : (i : ℕ) → d.regs i < 65536

-- The operation that sends an answer: a write of the output buffer, which shows the answer and
-- its checksum, or of the input buffer.
abbrev pub Delivers : Server → ℕ → Answer → Op → Type 0
Delivers t fc echo op = op ≡ async_write m_input_buffer t.input_buffer.actual_size
Delivers t fc answer op =
    (body : List ℕ) × (op ≡ async_write m_output_buffer (length body + 2))
    × (contents t.output_buffer ≡ body ++ crc_bytes body)
    × Shows t.dev_address fc answer body

-- From `s` to `t` the server goes on to hold `d` and starts one operation, which delivers the
-- answer; its scanner, its input and its address stay.
pub record Replied (s t : Server) (d : Device) (fc : ℕ) (answer : Answer) : Type 0 where
  pub holds : Holds t d
  pub op : Op
  pub started : t.ops ≡ s.ops ++ op ∷ []
  pub delivers : Delivers t fc answer op
  pub scanner : t.modbus_scanner ≡ s.modbus_scanner
  pub input : t.input_buffer ≡ s.input_buffer
  pub address : t.dev_address ≡ s.dev_address
  pub whole : length t.output_buffer.bytes ≡ buf_size

module _ (s : Server) (d : Device) (h : Holds s d) where
  kept : (t : Server) (body : List ℕ) → Sent s t body → Holds t d
  kept t body p = record {
    coils = λ i. p.coils i ∙ h.coils i;
    regs = λ i. p.regs i ∙ h.regs i;
    words = h.words;
  }

  pub coils_read :
      (fc a q : ℕ)
      → length s.output_buffer.bytes ≡ buf_size
      → q ≤ 8152
      → (t : Server) × (reply_f1 fc a q s ≡ some (tt, t))
        × Replied s t d fc (coil_values (window d.coils q a))
  coils_read fc a q whole room =
      let (t, bytes, done, sent, small, bits) = reply_f1_fits fc a q s whole room in
      let seen = window-ext d.coils (coil s) q a h.coils in
      let body = s.dev_address ∷ fc ∷ u8 (length bytes) ∷ bytes in
      let n : q ≡ length (window d.coils q a) = omega (arith, length-window d.coils q a) in
      (
        t,
        done,
        record {
          holds = kept t body sent;
          op = async_write m_output_buffer (length body + 2);
          started = sent.started;
          delivers = (
            body,
            refl,
            sent.shown,
            (
              bytes,
              ap (λ x. x ∷ fc ∷ u8 (length bytes) ∷ bytes) (sym sent.address),
              small,
              bits
                  ∙ ap (λ bs. bs ++ replicate (padding q) false) seen
                  ∙ ap (λ m. window d.coils q a ++ replicate (padding m) false) n,
            ),
          );
          scanner = sent.scanner;
          input = sent.input;
          address = sent.address;
          whole = sent.whole;
        },
      )

  -- The registers of the device on the line.
  pub shown_regs :
      (memory : ℕ → ℕ) (q a : ℕ)
      → ((i : ℕ) → memory i < 65536)
      → u8 (q * 2) ∷ reg_bytes little_endian memory q a
        ≡ u8 (2 * length (window memory q a)) ∷ payload_of (window memory q a)
  shown_regs memory q a words =
      let n : u8 (q * 2) ≡ u8 (2 * length (window memory q a)) =
        omega (arith, length-window memory q a) in
      ap (λ c. c ∷ reg_bytes little_endian memory q a) n
      ∙ ap (λ ys. u8 (2 * length (window memory q a)) ∷ ys)
          (reg_bytes-window memory q a (window-small memory q a words))

  pub regs_read :
      (fc a q : ℕ)
      → length s.output_buffer.bytes ≡ buf_size
      → q ≤ 509
      → (t : Server) × (reply_f3 little_endian fc a q s ≡ some (tt, t))
        × Replied s t d fc (reg_values (window d.regs q a))
  regs_read fc a q whole room =
      let (t, done, sent) = reply_f3_fits little_endian fc a q s whole room in
      let body = s.dev_address ∷ fc ∷ u8 (q * 2) ∷ reg_bytes little_endian (reg s) q a in
      (
        t,
        done,
        record {
          holds = kept t body sent;
          op = async_write m_output_buffer (length body + 2);
          started = sent.started;
          delivers = (
            body,
            refl,
            sent.shown,
            ap (λ x. x ∷ fc ∷ u8 (q * 2) ∷ reg_bytes little_endian (reg s) q a) (sym sent.address)
                ∙ ap (λ ys. t.dev_address ∷ fc ∷ u8 (q * 2) ∷ ys)
                    (reg_bytes-ext little_endian d.regs (reg s) q a h.regs)
                ∙ ap (λ ys. t.dev_address ∷ fc ∷ ys) (shown_regs d.regs q a h.words),
          );
          scanner = sent.scanner;
          input = sent.input;
          address = sent.address;
          whole = sent.whole;
        },
      )
