-- ===== src/Tcp/Decode.antt =====
-- One message through slave_tcp_scanner.cpp: the piece behind each part of the message.
use modbus_scanner.Base.{
  ℕ, ◌+◌, ◌/◌, ◌%◌, ◌≤◌, ◌<◌, ◌≡◌, ◌⊎◌, refl, ◌∙◌, List, [], ◌∷◌, ◌++◌, append_assoc, arith, length,
}
use modbus_scanner.Coroutine.Chunks.{paused, run}
use modbus_scanner.Defs.{Pdu, on_pdu}
use modbus_scanner.Request.{
  Request, short, write, read_write, IsRequest, HasPayload, print, decoded, request_of,
}
use modbus_scanner.Scanner.{Order, combine, combine_lem, valid_fc}
use modbus_scanner.Tcp.{
  Scanner, pre_transact_state, transact_id_state, function_state, i8_1_state, data_state, finished,
  step_at, machine,
}

-- The coroutine is before a message: in `sink`, or behind a message.
abbrev pub IsReady : Scanner → Type 0
IsReady s = (s.point ≡ pre_transact_state) ⊎ (s.point ≡ transact_id_state)

-- The seven bytes in front of a request, but for the unit id, which is the device's address.
pub record Header : Type 0 where
  pub transact_id_1 : ℕ
  pub transact_id_2 : ℕ
  pub protocol_1 : ℕ
  pub protocol_2 : ℕ
  pub length_1 : ℕ
  pub length_2 : ℕ

abbrev pub header_bytes : Header → ℕ → List ℕ
header_bytes h unit =
    h.transact_id_1 ∷ h.transact_id_2 ∷ h.protocol_1 ∷ h.protocol_2 ∷ h.length_1 ∷ h.length_2 ∷ unit
    ∷ []

abbrev pub message : ℕ → Header → Request → List ℕ
message unit h r = header_bytes h unit ++ print r

abbrev pub stamped : Header → Pdu → Pdu
stamped h p = record p { transact_id_1 = h.transact_id_1; transact_id_2 = h.transact_id_2 }

module _ (order : Order) where
  abbrev pub opened : Scanner → Header → Scanner
  opened s h = record s {
    point = function_state;
    length_1 = h.length_1;
    length = combine order h.length_1 h.length_2;
    pdu = stamped h s.pdu;
  }

  pub run_header :
      (s : Scanner) (h : Header) (rest : List ℕ)
      → IsReady s
      → run (machine order) (header_bytes h s.address ++ rest) s
        ≡ run (machine order) rest (opened s h)
  unfolding run step_at
  run_header s h rest r = ground arith

  abbrev accepted : Scanner → Scanner
  accepted s = record s {
    point = transact_id_state;
    pdu = finished order s;
    calls = s.calls ++ on_pdu (finished order s) ∷ [];
  }

  abbrev numbered : Scanner → ℕ → ℕ → ℕ → Scanner
  numbered s fc a b = record s {
    fc = fc;
    i16_1_hi = a / 256;
    i16_1_lo = a % 256;
    i16_2_hi = b / 256;
    i16_2_lo = b % 256;
  }

  run_short :
      (s : Scanner) (fc a b : ℕ) (rest : List ℕ)
      → s.point ≡ function_state
      → 1 ≤ fc
      → fc ≤ 6
      → run (machine order) (print (short fc a b) ++ rest) s
        ≡ run (machine order) rest (accepted (numbered s fc a b))
  unfolding run step_at valid_fc
  run_short s fc a b rest p lo hi = ground arith

  run_write :
      (s : Scanner) (fc a b : ℕ) (rest : List ℕ)
      → s.point ≡ function_state
      → (fc ≡ 15) ⊎ (fc ≡ 16)
      → run (machine order) (fc ∷ a / 256 ∷ a % 256 ∷ b / 256 ∷ b % 256 ∷ rest) s
        ≡ run (machine order) rest (record (numbered s fc a b) { point = i8_1_state })
  unfolding run step_at valid_fc
  run_write s fc a b rest p h = ground arith

  abbrev widened : Scanner → ℕ → ℕ → Scanner
  widened s c d = record s {
    point = i8_1_state;
    i16_3_hi = c / 256;
    i16_3_lo = c % 256;
    i16_4_hi = d / 256;
    i16_4_lo = d % 256;
    pdu = record (s.pdu) {
      i16_3 = combine order (c / 256) (c % 256);
      i16_4 = combine order (d / 256) (d % 256);
    };
  }

  run_read_write :
      (s : Scanner) (a b c d : ℕ) (rest : List ℕ)
      → s.point ≡ function_state
      → run
          (machine order)
          (23
            ∷ a / 256
            ∷ a % 256
            ∷ b / 256
            ∷ b % 256
            ∷ c / 256
            ∷ c % 256
            ∷ d / 256
            ∷ d % 256
            ∷ rest)
          s
        ≡ run (machine order) rest (widened (numbered s 23 a b) c d)
  unfolding run step_at valid_fc
  run_read_write s a b c d rest p = ground arith

  run_data :
      (b : ℕ) (bytes : List ℕ) (s : Scanner) (rest : List ℕ)
      → s.point ≡ data_state
      → s.ix + length (b ∷ bytes) ≡ s.pdu.i8_1
      → run (machine order) (b ∷ (bytes ++ rest)) s
        ≡ run (machine order) rest (
            accepted (record s {
              ix = s.pdu.i8_1;
              pdu = record (s.pdu) { payload = s.pdu.payload ++ b ∷ bytes };
            }))
  unfolding run step_at
  run_data b [] s rest p e = ground arith
  run_data b (x ∷ bytes) s rest p e = ground (
    arith,
    append_assoc s.pdu.payload (b ∷ []) (x ∷ bytes),
    run_data x bytes
        (record s { ix = s.ix + 1; pdu = record (s.pdu) { payload = s.pdu.payload ++ b ∷ [] } })
        rest,
  )

  abbrev loaded : Scanner → List ℕ → Scanner
  loaded s bytes = record s {
    ix = length bytes;
    pdu = record (s.pdu) { i8_1 = length bytes; payload = bytes };
  }

  run_count :
      (s : Scanner) (n : ℕ) (rest : List ℕ)
      → s.point ≡ i8_1_state
      → run (machine order) (n ∷ rest) s
        ≡ run (machine order) rest (record s {
          point = data_state;
          ix = 0;
          pdu = record (s.pdu) { i8_1 = n; payload = [] };
        })
  unfolding run step_at
  run_count s n rest p = ground arith

  run_payload :
      (s : Scanner) (bytes rest : List ℕ)
      → s.point ≡ i8_1_state
      → 0 < length bytes
      → run (machine order) (length bytes ∷ (bytes ++ rest)) s
        ≡ run (machine order) rest (accepted (loaded s bytes))
  run_payload s [] rest p h = absurd (omega arith)
  run_payload s (b ∷ bytes) rest p h =
      run_count s (length (b ∷ bytes)) (b ∷ (bytes ++ rest)) p
      ∙ run_data b bytes _ rest refl (omega arith)

  combine_bytes : (n : ℕ) → combine order (n / 256) (n % 256) ≡ n
  combine_bytes n = omega (arith, combine_lem order (n / 256) (n % 256))

  -- `t` is `s` after the message of `r`.
  pub record Took (h : Header) (r : Request) (s t : Scanner) : Type 0 where
    pub behind : t.point ≡ transact_id_state
    pub same_address : t.address ≡ s.address
    pub pdu_lem : t.pdu ≡ decoded r (stamped h s.pdu)
    pub called : t.calls ≡ s.calls ++ on_pdu (decoded r (stamped h s.pdu)) ∷ []

  accepted-Took :
      (h : Header) (r : Request) (s t : Scanner)
      → t.address ≡ s.address
      → t.calls ≡ s.calls
      → finished order t ≡ decoded r (stamped h s.pdu)
      → Took h r s (accepted t)
  accepted-Took h r s t a c p = ground arith

  run_request :
      (h : Header) (r : Request) (s : Scanner) (rest : List ℕ)
      → IsRequest r
      → HasPayload r
      → (t : Scanner) × (run (machine order) (print r ++ rest) (opened s h)
          ≡ run (machine order) rest t)
        × Took h r s t
  run_request h (short fc a b) s rest (lo, hi, ha, hb) g = (
    accepted (numbered (opened s h) fc a b),
    run_short (opened s h) fc a b rest refl lo hi,
    accepted-Took h (short fc a b) s (numbered (opened s h) fc a b) refl refl
        (rw (combine_bytes a, combine_bytes b)),
  )
  run_request h (write fc a b bytes) s rest (f, ha, hb, hn) g =
      let s1 = record (numbered (opened s h) fc a b) { point = i8_1_state } in
      (
        accepted (loaded s1 bytes),
        run_write (opened s h) fc a b (length bytes ∷ (bytes ++ rest)) refl f
            ∙ run_payload s1 bytes rest refl g,
        accepted-Took h (write fc a b bytes) s (loaded s1 bytes) refl refl
            (rw (combine_bytes a, combine_bytes b)),
      )
  run_request h (read_write a b c d bytes) s rest (ha, hb, hc, hd, hn) g =
      let s1 = widened (numbered (opened s h) 23 a b) c d in
      (
        accepted (loaded s1 bytes),
        run_read_write (opened s h) a b c d (length bytes ∷ (bytes ++ rest)) refl
            ∙ run_payload s1 bytes rest refl g,
        accepted-Took h (read_write a b c d bytes) s (loaded s1 bytes) refl refl
            (rw (combine_bytes a, combine_bytes b, combine_bytes c, combine_bytes d)),
      )

  pub run-message :
      (h : Header) (r : Request) (s : Scanner) (rest : List ℕ)
      → IsReady s
      → IsRequest r
      → HasPayload r
      → (t : Scanner) × (run (machine order) (message s.address h r ++ rest) s
          ≡ run (machine order) rest t)
        × Took h r s t
  run-message h r s rest i g p =
      let (t, done, took) = run_request h r s rest g p in
      (t, run_header s h (print r ++ rest) i ∙ done, took)

  run_leave :
      (s : Scanner) (c : ℕ) (rest : List ℕ)
      → s.point ≡ data_state
      → s.ix ≡ 0
      → s.pdu.i8_1 ≡ 0
      → run (machine order) (c ∷ rest) s ≡ run (machine order) rest (accepted s)
  unfolding run step_at
  run_leave s c rest p e f = ground arith

  run_nil : (s : Scanner) → run (machine order) [] s ≡ paused s
  unfolding run
  run_nil s = refl

  empty_write :
      (p : Pdu) (fc a b : ℕ)
      → (fc ≡ 15) ⊎ (fc ≡ 16)
      → request_of (record p {
        fc = fc;
        i16_1 = combine order (a / 256) (a % 256);
        i16_2 = combine order (b / 256) (b % 256);
        i8_1 = 0;
        payload = [];
      })
        ≡ write fc a b []
  unfolding request_of
  empty_write p fc a b f = rw (combine_bytes a, combine_bytes b) (ground (arith, f))

  -- A write request with the byte count 0 (functions 15 and 16), whose message has been read to its
  -- end, has not been handed out. It is handed out, with its own numbers, an empty payload and the
  -- transaction id of its header, only when one more byte has come, whatever it is; that byte is
  -- lost, and the scanner takes the byte behind it for the start of the next message.
  pub empty_write_swallows :
      (h : Header) (fc a b next : ℕ) (s : Scanner) (rest : List ℕ)
      → IsReady s
      → (fc ≡ 15) ⊎ (fc ≡ 16)
      → let body = message s.address h (write fc a b []) in
        ((t : Scanner) × (run (machine order) body s ≡ paused t) × (t.calls ≡ s.calls))
        × ((t : Scanner) × (run (machine order) (body ++ next ∷ rest) s
              ≡ run (machine order) rest t)
            × (t.point ≡ transact_id_state)
            × (t.calls ≡ s.calls ++ on_pdu t.pdu ∷ [])
            × (request_of t.pdu ≡ write fc a b [])
            × (t.pdu.transact_id_1 ≡ h.transact_id_1)
            × (t.pdu.transact_id_2 ≡ h.transact_id_2))
  empty_write_swallows h fc a b next s rest i f =
      let s1 = record (numbered (opened s h) fc a b) { point = i8_1_state } in
      let s2 = record s1 {
        point = data_state;
        ix = 0;
        pdu = record (s1.pdu) { i8_1 = 0; payload = [] };
      } in
      let head = λ (ys : List ℕ).
        run_header s h (fc ∷ a / 256 ∷ a % 256 ∷ b / 256 ∷ b % 256 ∷ 0 ∷ ys) i
        ∙ run_write (opened s h) fc a b (0 ∷ ys) refl f
        ∙ run_count s1 0 ys refl in
      (
        (s2, head [] ∙ run_nil s2, refl),
        (
          accepted s2,
          head (next ∷ rest) ∙ run_leave s2 next rest refl refl refl,
          refl,
          refl,
          empty_write (stamped h s.pdu) fc a b f,
          refl,
          refl,
        ),
      )
