-- ===== src/RtuServer/Answers.antt =====
-- Whole answers of rtu_server_data_handler.cpp: from the chunk that holds a request to the reply.
use modbus_scanner.Base.{
  ℕ, ◌+◌, ◌*◌, ◌≤◌, ◌<◌, ◌≡◌, ◌≢◌, refl, sym, ap, ◌∙◌, false, List, [], ◌∷◌, ◌++◌, Option, some,
  none, ◌==◌, if◌then◌else◌, length, All, append-nil,
}
use modbus_scanner.Coroutine
use modbus_scanner.Coroutine.Chunks.{IsChunk, stream}
use modbus_scanner.Defs.{Pdu, Buffer, on_pdu, contents, buf_size, set_actual_size}
use modbus_scanner.Request.{Request, short, IsRequest, decoded}
use modbus_scanner.Rtu
use modbus_scanner.Rtu.Frame.{frame, crc_bytes}
use modbus_scanner.Rtu.Stream.{Item, line, scan_all-line}
use modbus_scanner.RtuServer.Memory.{coil, reg, reg-assign}
use modbus_scanner.RtuServer.Monad.{
  Server, async_write, m_input_buffer, m_output_buffer, assign, set_reg, mirror_pdu,
}
use modbus_scanner.RtuServer.Reading.{fresh, scanned_to, handle_read_lem}
use modbus_scanner.RtuServer.Registers.{reg_bytes, reply_f3_fits}
use modbus_scanner.RtuServer.Replies.{u8, handle_calls, handle_read, handle_pdu, reply_f6}
use modbus_scanner.Scanner.{Order}

module _ (order : Order) where
  pub scan_all-one :
      (b : Buffer) (s t : Rtu.Scanner)
      → Coroutine.scan_all (Rtu.machine order) (b ∷ []) s ≡ some t
      → Rtu.scan order b s ≡ some t
  unfolding Coroutine.scan_all Rtu.scan
  scan_all-one b s t e = by_case (Coroutine.scan (Rtu.machine order) b s) e
    where
      by_case :
          (o : Option Rtu.Scanner) → elim o [ none ↦ none | some u ↦ some u ] ≡ some t → o ≡ some t
      by_case none p = p
      by_case (some u) p = p

  -- A chunk with one request in it, and any bytes but the address in front.
  scan-request :
      (b : Buffer) (noise : List ℕ) (r : Request) (s : Rtu.Scanner)
      → Rtu.Decode.IsReady s
      → IsChunk b
      → All (λ c. c ≢ s.address) noise
      → IsRequest r
      → contents b ≡ noise ++ frame s.address r
      → (u : Rtu.Scanner) × (Rtu.scan order b s ≡ some u)
        × (u.calls ≡ s.calls ++ on_pdu (decoded r s.pdu) ∷ [])
        × Rtu.Decode.IsReady u
        × (u.address ≡ s.address)
  scan-request b noise r s ready c other fits e =
      let item : Item = record { noise = noise; request = r } in
      let whole : stream (b ∷ []) ≡ line s.address (item ∷ []) =
        append-nil (contents b)
        ∙ e
        ∙ ap (λ xs. noise ++ xs) (sym (append-nil (frame s.address r))) in
      let (u, scanned, after, called, same_address) =
        scan_all-line order (item ∷ []) (b ∷ []) s ready (record { other = other; fits = fits }, tt)
          (c, tt) whole in
      (u, scan_all-one b s u scanned, called, after, same_address)

  only_call : (p : Pdu) (s : Server) → handle_calls order (on_pdu p ∷ []) s ≡ handle_pdu order p s
  unfolding handle_calls
  only_call p s = by_case (handle_pdu order p s)
    where
      by_case :
          (o : Option (Unit {0} × Server)) → elim o [ none ↦ none | some (a, t) ↦ some (tt, t) ] ≡ o
      by_case none = refl
      by_case (some (a, t)) = refl

  -- The request in the chunk is answered from the state the scan has left.
  pub answer :
      (size : ℕ) (noise : List ℕ) (r : Request) (s : Server)
      → Rtu.Decode.IsReady s.modbus_scanner
      → IsChunk (set_actual_size s.input_buffer size)
      → All (λ c. c ≢ s.modbus_scanner.address) noise
      → IsRequest r
      → contents (set_actual_size s.input_buffer size) ≡ noise ++ frame s.modbus_scanner.address r
      → (u : Rtu.Scanner) × (handle_read order false size s
          ≡ handle_pdu order (decoded r s.modbus_scanner.pdu) (scanned_to s size u))
        × Rtu.Decode.IsReady u
        × (u.address ≡ s.modbus_scanner.address)
  answer size noise r s ready c other fits e =
      let b = set_actual_size s.input_buffer size in
      let (u, scanned, called, after, same_address) =
        scan-request b noise r (fresh s) ready c other fits e in
      (
        u,
        handle_read_lem order size s u (size_positive c) scanned
            ∙ ap (λ calls. handle_calls order calls (scanned_to s size u)) called
            ∙ only_call (decoded r s.modbus_scanner.pdu) (scanned_to s size u),
        after,
        same_address,
      )
    where
      size_positive : IsChunk (set_actual_size s.input_buffer size) → 0 < size
      size_positive h = unfold set_actual_size in h.not_empty

  -- A chunk with a request to read at most 509 registers, behind any bytes but the address: a
  -- write of the reply is started, which has the registers from the address on, each as the two
  -- bytes that `get_hi_lo` calls `hi` and `lo`, in this order, and its checksum; no coil and no register is changed.
  pub reads_are_answered :
      (size address quantity : ℕ) (noise : List ℕ) (s : Server)
      → Rtu.Decode.IsReady s.modbus_scanner
      → IsChunk (set_actual_size s.input_buffer size)
      → length s.output_buffer.bytes ≡ buf_size
      → All (λ c. c ≢ s.modbus_scanner.address) noise
      → IsRequest (short 3 address quantity)
      → quantity ≤ 509
      → contents (set_actual_size s.input_buffer size)
        ≡ noise ++ frame s.modbus_scanner.address (short 3 address quantity)
      → let body =
          s.dev_address ∷ 3 ∷ u8 (quantity * 2) ∷ reg_bytes order (reg s) quantity address in
        (t : Server) × (handle_read order false size s ≡ some (tt, t))
        × (contents t.output_buffer ≡ body ++ crc_bytes body)
        × (t.ops ≡ s.ops ++ async_write m_output_buffer (length body + 2) ∷ [])
        × ((i : ℕ) → coil t i ≡ coil s i)
        × ((i : ℕ) → reg t i ≡ reg s i)
  unfolding handle_pdu coil reg
  reads_are_answered size a q noise s ready c whole other fits room e =
      let (u, read, after, same_address) = answer size noise (short 3 a q) s ready c other fits e in
      let (t, replied, sent) = reply_f3_fits order 3 a q (scanned_to s size u) whole room in
      (t, read ∙ replied, sent.shown, sent.started, sent.coils, sent.regs)

  -- A chunk with a request to write one register, behind any bytes but the address: the register
  -- is written, no other is, and a write of the whole chunk is started, these bytes included.
  pub register_writes_are_echoed :
      (size address value : ℕ) (noise : List ℕ) (s : Server)
      → Rtu.Decode.IsReady s.modbus_scanner
      → IsChunk (set_actual_size s.input_buffer size)
      → All (λ c. c ≢ s.modbus_scanner.address) noise
      → IsRequest (short 6 address value)
      → contents (set_actual_size s.input_buffer size)
        ≡ noise ++ frame s.modbus_scanner.address (short 6 address value)
      → (t : Server) × (handle_read order false size s ≡ some (tt, t))
        × (t.ops ≡ s.ops ++ async_write m_input_buffer size ∷ [])
        × (contents t.input_buffer
            ≡ noise ++ frame s.modbus_scanner.address (short 6 address value))
        × ((i : ℕ) → reg t i ≡ (if address == i then value else reg s i))
        × ((i : ℕ) → coil t i ≡ coil s i)
  unfolding handle_pdu reply_f6 set_reg mirror_pdu set_actual_size coil reg
  register_writes_are_echoed size a v noise s ready c other fits e =
      let (u, read, after, same_address) = answer size noise (short 6 a v) s ready c other fits e in
      let t = record (scanned_to s size u) {
        regs = assign a v s.regs;
        ops = s.ops ++ async_write m_input_buffer size ∷ [];
      } in
      (t, read ∙ refl, refl, e, (λ i. reg-assign s a i v), (λ i. refl))
