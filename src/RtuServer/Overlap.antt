-- ===== src/RtuServer/Overlap.antt =====
-- rtu_server_data_handler.cpp, where one chunk has two requests: both replies are built in the same
-- output buffer, and a write of it is started for each.
use mathlib.Core.Path.{ap₂}
use modbus_scanner.Base.{
  ℕ, ◌+◌, ◌*◌, ◌≤◌, ◌≡◌, refl, sym, ap, ◌∙◌, false, List, [], ◌∷◌, ◌++◌, none, some, arith, length,
  append-nil,
}
use modbus_scanner.Coroutine.Chunks.{IsChunk}
use modbus_scanner.Defs.{Pdu, on_pdu, buf_size, contents, set_actual_size}
use modbus_scanner.Request.{short, IsRequest, decoded, request_of, request_of-decoded}
use modbus_scanner.Rtu
use modbus_scanner.Rtu.Frame.{frame, crc_bytes}
use modbus_scanner.Rtu.Stream.{Item, scan_all-line}
use modbus_scanner.RtuServer.Answers.{scan_all-one}
use modbus_scanner.RtuServer.Memory.{reg}
use modbus_scanner.RtuServer.Monad.{Server, Op, async_write, m_output_buffer}
use modbus_scanner.RtuServer.Reading.{fresh, scanned_to, handle_read_lem}
use modbus_scanner.RtuServer.Registers.{reg_bytes, reg_bytes-ext, reply_f3_fits, length-reg_bytes}
use modbus_scanner.RtuServer.Replies.{u8, handle_pdu, handle_calls, handle_read}
use modbus_scanner.Scanner.{Order}

module _ (order : Order) where
  -- The reply to a request for registers, in front of its checksum.
  abbrev pub reply_body : Server → ℕ → ℕ → List ℕ
  reply_body s a q = s.dev_address ∷ 3 ∷ u8 (q * 2) ∷ reg_bytes order (reg s) q a

  length-reply_body : (s : Server) (a q : ℕ) → length (reply_body s a q) ≡ 2 * q + 3
  length-reply_body s a q = omega (arith, length-reg_bytes order (reg s) q a)

  -- Two requests are handed over one after the other. Where the first has been handled, the output
  -- buffer holds the one reply and a write of `n` bytes of it has been started; where the second has
  -- been handled, the same buffer holds the other reply and a second such write has been started.
  pub record Overlaps (p p' : Pdu) (n : ℕ) (body body' : List ℕ) (s m t : Server) : Type 0 where
    pub first : handle_pdu order p s ≡ some (tt, m)
    pub first_op : m.ops ≡ s.ops ++ async_write m_output_buffer n ∷ []
    pub first_reply : contents m.output_buffer ≡ body ++ crc_bytes body
    pub second : handle_pdu order p' m ≡ some (tt, t)
    pub second_op : t.ops ≡ m.ops ++ async_write m_output_buffer n ∷ []
    pub second_reply : contents t.output_buffer ≡ body' ++ crc_bytes body'

  two_pdus :
      (p q : Pdu) (s t u : Server)
      → handle_pdu order p s ≡ some (tt, t)
      → handle_pdu order q t ≡ some (tt, u)
      → handle_calls order (on_pdu p ∷ on_pdu q ∷ []) s ≡ some (tt, u)
  unfolding handle_calls
  two_pdus p q s t u first second =
      ap (λ o. elim o [ none ↦ none | some (a, v) ↦ handle_calls order (on_pdu q ∷ []) v ]) first
      ∙ ap (λ o. elim o [ none ↦ none | some (a, v) ↦ some (tt, v) ]) second

  -- The calls of the two requests, from the state that the scan has left.
  both_replied :
      (a a' q : ℕ) (p p' : Pdu) (s : Server)
      → length s.output_buffer.bytes ≡ buf_size
      → q ≤ 509
      → (m : Server) × (t : Server) × Overlaps
          (decoded (short 3 a q) p)
          (decoded (short 3 a' q) p')
          (2 * q + 5)
          (reply_body s a q)
          (reply_body s a' q)
          s
          m
          t
  unfolding handle_pdu
  both_replied a a' q p p' s whole room =
      let (m, first, sent) = reply_f3_fits order 3 a q s whole room in
      let (t, second, sent') = reply_f3_fits order 3 a' q m sent.whole room in
      let same : reply_body m a' q ≡ reply_body s a' q =
        ap₂ (λ (x : ℕ) (xs : List ℕ). x ∷ 3 ∷ u8 (q * 2) ∷ xs) sent.address
          (reg_bytes-ext order (reg s) (reg m) q a' sent.regs) in
      let size = λ (v : Server) (x : ℕ) (ops : List Op).
        let n : length (reply_body v x q) + 2 ≡ 2 * q + 5 =
          omega (arith, length-reply_body v x q) in
        ap (λ n. ops ++ async_write m_output_buffer n ∷ []) n in
      (
        m,
        t,
        record {
          first = first;
          first_op = sent.started ∙ size s a s.ops;
          first_reply = sent.shown;
          second = second;
          second_op = sent'.started ∙ size m a' m.ops;
          second_reply = sent'.shown ∙ ap (λ xs. xs ++ crc_bytes xs) same;
        },
      )

  -- A chunk with two requests to read equally many registers, at most 509, from `a` and from `a'`
  -- on: one call of `handle_read` hands over both, one after the other, and returns. When `on_pdu`
  -- has returned from the first, the output buffer holds the first reply and a write of all its
  -- bytes has been started; when it has returned from the second, the same buffer holds the second
  -- reply and a second write, equally long, has been started, with no end of the first in between.
  pub replies_overlap :
      (size a a' q : ℕ) (s : Server)
      → Rtu.Decode.IsReady s.modbus_scanner
      → IsChunk (set_actual_size s.input_buffer size)
      → length s.output_buffer.bytes ≡ buf_size
      → IsRequest (short 3 a q)
      → IsRequest (short 3 a' q)
      → q ≤ 509
      → contents (set_actual_size s.input_buffer size)
        ≡ frame s.modbus_scanner.address (short 3 a q)
          ++ frame s.modbus_scanner.address (short 3 a' q)
      → (p p' : Pdu) × (u m t : Server) × (request_of p ≡ short 3 a q)
        × (request_of p' ≡ short 3 a' q)
        × (handle_read order false size s ≡ handle_calls order (on_pdu p ∷ on_pdu p' ∷ []) u)
        × (handle_read order false size s ≡ some (tt, t))
        × (u.ops ≡ s.ops)
        × Overlaps p p' (2 * q + 5) (reply_body s a q) (reply_body s a' q) u m t
  unfolding set_actual_size reg
  replies_overlap size a a' q s ready c whole fits fits' room e =
      let b = set_actual_size s.input_buffer size in
      let p = s.modbus_scanner.pdu in
      let p' = decoded (short 3 a q) p in
      let items : List Item =
        record { noise = []; request = short 3 a q }
        ∷ record { noise = []; request = short 3 a' q }
        ∷ [] in
      let address = s.modbus_scanner.address in
      let (u, scanned, after, called, same_address) =
        scan_all-line order items (b ∷ []) (fresh s) ready
          (record { other = tt; fits = fits }, (record { other = tt; fits = fits' }, tt)) (c, tt)
          (append-nil (contents b)
            ∙ e
            ∙ ap (λ xs. frame address (short 3 a q) ++ xs)
                (sym (append-nil (frame address (short 3 a' q))))) in
      let v = scanned_to s size u in
      let (m, t, over) = both_replied a a' q p p' v whole room in
      let read =
        handle_read_lem order size s u c.not_empty (scan_all-one order b (fresh s) u scanned)
        ∙ ap (λ calls. handle_calls order calls v) called in
      (
        p',
        decoded (short 3 a' q) p',
        v,
        m,
        t,
        request_of-decoded (short 3 a q) p fits,
        request_of-decoded (short 3 a' q) p' fits',
        read,
        read ∙ two_pdus p' (decoded (short 3 a' q) p') v m t over.first over.second,
        refl,
        over,
      )
