-- ===== src/RtuOld/Decode.antt =====
-- One frame through slave_rtu_old.cpp: the piece behind each part of the frame.
use mathlib.Core.Path.{ap₂}
use modbus_scanner.Base.{
  ℕ, ◌+◌, ◌/◌, ◌%◌, ◌≤◌, ◌<◌, ◌≡◌, ◌≢◌, ◌⊎◌, refl, ap, ◌∙◌, true, false, List, [], ◌∷◌, ◌++◌,
  append_assoc, arith, length, some,
}
use modbus_scanner.Crc.{crc_loop, crc_start, check_crc_rtu, check_crc_rtu_own}
use modbus_scanner.Defs.{on_pdu, on_nonse}
use modbus_scanner.Request.{
  Request, short, write, read_write, IsRequest, HasPayload, print, decoded, request_of,
  request_of-decoded, told, told-append,
}
use modbus_scanner.Rtu.Frame.{crc_bytes, frame}
use modbus_scanner.RtuOld.{
  Scanner, m_init_state, m_i16_3_hi_state, m_i8_1_state, m_data_state, m_cs_1_state, state_object,
  after_i16_2, finished, on_char, on_char_at,
}
use modbus_scanner.Scanner.{Order, combine, combine_lem, valid_fc}

-- The scanner is before a frame, with an empty checksum buffer and the data index at 0.
pub record IsReady (s : Scanner) : Type 0 where
  pub at_init : s.current_state ≡ m_init_state
  pub no_crc : s.crc_buffer ≡ []
  pub no_index : s.index ≡ 0

module _ (order : Order) where
  -- The loop of `scan` over a list of bytes.
  unfoldable pub on_chars : List ℕ → Scanner → Scanner
  on_chars [] s = s
  on_chars (c ∷ cs) s = on_chars cs (on_char order s c)

  pub on_chars-append :
      (xs ys : List ℕ) (s : Scanner) → on_chars (xs ++ ys) s ≡ on_chars ys (on_chars xs s)
  unfolding on_chars
  on_chars-append [] ys s = refl
  on_chars-append (x ∷ xs) ys s = on_chars-append xs ys (on_char order s x)

  abbrev pub headed : Scanner → ℕ → ℕ → ℕ → Scanner
  headed s fc a b = record s {
    current_state = state_object (after_i16_2 fc);
    fc = fc;
    i16_1_hi = a / 256;
    i16_1_lo = a % 256;
    i16_2_hi = b / 256;
    i16_2_lo = b % 256;
    crc_buffer = s.address ∷ fc ∷ a / 256 ∷ a % 256 ∷ b / 256 ∷ b % 256 ∷ [];
  }

  pub run_head :
      (s : Scanner) (fc a b : ℕ) (rest : List ℕ)
      → IsReady s
      → valid_fc fc ≡ true
      → fc ≢ 8
      → on_chars (s.address ∷ fc ∷ a / 256 ∷ a % 256 ∷ b / 256 ∷ b % 256 ∷ rest) s
        ≡ on_chars rest (headed s fc a b)
  unfolding on_chars on_char_at
  run_head s fc a b rest h v n = ground arith

  abbrev widened : Scanner → ℕ → ℕ → Scanner
  widened s c d = record s {
    current_state = m_i8_1_state;
    i16_3_hi = c / 256;
    i16_3_lo = c % 256;
    i16_4_hi = d / 256;
    i16_4_lo = d % 256;
    crc_buffer = s.crc_buffer ++ c / 256 ∷ c % 256 ∷ d / 256 ∷ d % 256 ∷ [];
  }

  run_wide :
      (s : Scanner) (c d : ℕ) (rest : List ℕ)
      → s.current_state ≡ m_i16_3_hi_state
      → on_chars (c / 256 ∷ c % 256 ∷ d / 256 ∷ d % 256 ∷ rest) s ≡ on_chars rest (widened s c d)
  unfolding on_chars on_char_at
  run_wide s c d rest p = ground (
    arith,
    append_assoc s.crc_buffer (c / 256 ∷ []) (c % 256 ∷ []),
    append_assoc s.crc_buffer (c / 256 ∷ c % 256 ∷ []) (d / 256 ∷ []),
    append_assoc s.crc_buffer (c / 256 ∷ c % 256 ∷ d / 256 ∷ []) (d % 256 ∷ []),
  )

  abbrev taken : Scanner → List ℕ → Scanner
  taken s bytes = record s {
    current_state = m_cs_1_state;
    index = 0;
    crc_buffer = s.crc_buffer ++ bytes;
    pdu = record (s.pdu) { payload = s.pdu.payload ++ bytes };
  }

  abbrev one_taken : Scanner → ℕ → Scanner
  one_taken s b = record s {
    index = s.index + 1;
    crc_buffer = s.crc_buffer ++ b ∷ [];
    pdu = record (s.pdu) { payload = s.pdu.payload ++ b ∷ [] };
  }

  data_last :
      (b : ℕ) (s : Scanner)
      → s.current_state ≡ m_data_state
      → s.index + 1 ≡ s.i8_1
      → s.i8_1 < 256
      → on_char order s b ≡ taken s (b ∷ [])
  unfolding on_char_at
  data_last b s p e l = ground arith

  data_more :
      (b : ℕ) (s : Scanner)
      → s.current_state ≡ m_data_state
      → s.index + 1 < s.i8_1
      → s.i8_1 < 256
      → on_char order s b ≡ one_taken s b
  unfolding on_char_at
  data_more b s p e l = ground arith

  taken-cons :
      (s : Scanner) (b x : ℕ) (bytes : List ℕ)
      → taken (one_taken s b) (x ∷ bytes) ≡ taken s (b ∷ x ∷ bytes)
  taken-cons s b x bytes = rw (
    append_assoc s.pdu.payload (b ∷ []) (x ∷ bytes),
    append_assoc s.crc_buffer (b ∷ []) (x ∷ bytes),
  )

  run_data :
      (b : ℕ) (bytes : List ℕ) (s : Scanner) (rest : List ℕ)
      → s.current_state ≡ m_data_state
      → s.index + length (b ∷ bytes) ≡ s.i8_1
      → s.i8_1 < 256
      → on_chars (b ∷ (bytes ++ rest)) s ≡ on_chars rest (taken s (b ∷ bytes))
  unfolding on_chars
  run_data b [] s rest p e l = ap (on_chars rest) (data_last b s p (omega arith) l)
  run_data b (x ∷ bytes) s rest p e l =
      ap (on_chars (x ∷ (bytes ++ rest))) (data_more b s p (omega arith) l)
      ∙ run_data x bytes (one_taken s b) rest p (omega arith) l
      ∙ ap (on_chars rest) (taken-cons s b x bytes)

  pub run_count :
      (s : Scanner) (n : ℕ) (rest : List ℕ)
      → s.current_state ≡ m_i8_1_state
      → on_chars (n ∷ rest) s
        ≡ on_chars rest (record s {
          current_state = m_data_state;
          i8_1 = n;
          crc_buffer = s.crc_buffer ++ n ∷ [];
          pdu = record (s.pdu) { payload = [] };
        })
  unfolding on_chars on_char_at
  run_count s n rest p = ground arith

  abbrev loaded : Scanner → List ℕ → Scanner
  loaded s bytes = record s {
    current_state = m_cs_1_state;
    i8_1 = length bytes;
    index = 0;
    crc_buffer = (s.crc_buffer ++ length bytes ∷ []) ++ bytes;
    pdu = record (s.pdu) { payload = bytes };
  }

  run_payload :
      (s : Scanner) (bytes rest : List ℕ)
      → s.current_state ≡ m_i8_1_state
      → s.index ≡ 0
      → 0 < length bytes
      → length bytes < 256
      → on_chars (length bytes ∷ (bytes ++ rest)) s ≡ on_chars rest (loaded s bytes)
  run_payload s [] rest p z h l = absurd (omega arith)
  run_payload s (b ∷ bytes) rest p z h l =
      run_count s (length (b ∷ bytes)) (b ∷ (bytes ++ rest)) p
      ∙ run_data b bytes _ rest refl (omega arith) l

  abbrev pub judged : Scanner → ℕ → ℕ → Scanner
  judged s hi lo = record s { crc1 = hi; crc2 = lo; crc_buffer = []; current_state = m_init_state }

  pub run_good_crc :
      (s : Scanner) (hi lo : ℕ) (rest : List ℕ)
      → s.current_state ≡ m_cs_1_state
      → check_crc_rtu s.crc_buffer hi lo ≡ true
      → on_chars (hi ∷ lo ∷ rest) s
        ≡ on_chars rest (record (judged s hi lo) {
          pdu = finished order s;
          calls = s.calls ++ on_pdu (finished order s) ∷ [];
        })
  unfolding on_chars on_char_at
  run_good_crc s hi lo rest p good = ground arith

  run_bad_crc :
      (s : Scanner) (hi lo : ℕ) (rest : List ℕ)
      → s.current_state ≡ m_cs_1_state
      → check_crc_rtu s.crc_buffer hi lo ≡ false
      → on_chars (hi ∷ lo ∷ rest) s
        ≡ on_chars rest (record (judged s hi lo) { calls = s.calls ++ on_nonse ∷ [] })
  unfolding on_chars on_char_at
  run_bad_crc s hi lo rest p bad = ground arith

  pub combine_bytes : (n : ℕ) → combine order (n / 256) (n % 256) ≡ n
  combine_bytes n = omega (arith, combine_lem order (n / 256) (n % 256))

  -- `t` is `s` with the body of a frame read, before the checksum.
  record Read (r : Request) (s t : Scanner) : Type 0 where
    at_crc : t.current_state ≡ m_cs_1_state
    same_address : t.address ≡ s.address
    same_calls : t.calls ≡ s.calls
    no_index : t.index ≡ 0
    summed : t.crc_buffer ≡ s.address ∷ print r
    fields : finished order t ≡ decoded r (finished order t)

  codes_short :
      (fc : ℕ)
      → 1 ≤ fc
      → fc ≤ 6
      → (valid_fc fc ≡ true) × (fc ≢ 8) × (state_object (after_i16_2 fc) ≡ m_cs_1_state)
  unfolding valid_fc after_i16_2
  codes_short fc lo hi = ground arith

  pub codes_write :
      (fc : ℕ)
      → (fc ≡ 15) ⊎ (fc ≡ 16)
      → (valid_fc fc ≡ true) × (fc ≢ 8) × (state_object (after_i16_2 fc) ≡ m_i8_1_state)
  unfolding valid_fc after_i16_2
  codes_write fc h = ground arith

  codes_read_write :
      (valid_fc 23 ≡ true) × (◌≢◌ {A = ℕ} 23 8) × (state_object (after_i16_2 23) ≡ m_i16_3_hi_state)
  unfolding valid_fc after_i16_2
  codes_read_write = (refl, omega arith, refl)

  run_body :
      (r : Request) (s : Scanner) (rest : List ℕ)
      → IsReady s
      → IsRequest r
      → HasPayload r
      → (t : Scanner) × (on_chars ((s.address ∷ print r) ++ rest) s ≡ on_chars rest t) × Read r s t
  run_body (short fc a b) s rest h (lo, hi, ha, hb) g =
      let (v, n, w) = codes_short fc lo hi in
      (
        headed s fc a b,
        run_head s fc a b rest h v n,
        record {
          at_crc = w;
          same_address = refl;
          same_calls = refl;
          no_index = h.no_index;
          summed = refl;
          fields = rw (combine_bytes a, combine_bytes b);
        },
      )
  run_body (write fc a b bytes) s rest h (f, ha, hb, hn) g =
      let (v, n, w) = codes_write fc f in
      let s1 = headed s fc a b in
      (
        loaded s1 bytes,
        run_head s fc a b (length bytes ∷ (bytes ++ rest)) h v n
            ∙ run_payload s1 bytes rest w h.no_index g hn,
        record {
          at_crc = refl;
          same_address = refl;
          same_calls = refl;
          no_index = refl;
          summed = refl;
          fields = rw (combine_bytes a, combine_bytes b);
        },
      )
  run_body (read_write a b c d bytes) s rest h (ha, hb, hc, hd, hn) g =
      let (v, n, w) = codes_read_write in
      let s1 = headed s 23 a b in
      let s2 = widened s1 c d in
      let data_part = length bytes ∷ (bytes ++ rest) in
      (
        loaded s2 bytes,
        run_head s 23 a b (c / 256 ∷ c % 256 ∷ d / 256 ∷ d % 256 ∷ data_part) h v n
            ∙ run_wide s1 c d data_part w
            ∙ run_payload s2 bytes rest refl h.no_index g hn,
        record {
          at_crc = refl;
          same_address = refl;
          same_calls = refl;
          no_index = refl;
          summed = refl;
          fields = rw (combine_bytes a, combine_bytes b, combine_bytes c, combine_bytes d);
        },
      )

  -- `t` is `s` after the frame of `r`.
  pub record Took (r : Request) (s t : Scanner) : Type 0 where
    pub ready : IsReady t
    pub same_address : t.address ≡ s.address
    pub called : told t.calls ≡ told s.calls ++ some r ∷ []

  pub run-frame :
      (r : Request) (s : Scanner) (rest : List ℕ)
      → IsReady s
      → IsRequest r
      → HasPayload r
      → (t : Scanner) × (on_chars (frame s.address r ++ rest) s ≡ on_chars rest t) × Took r s t
  run-frame r s rest h g p =
      let sum = crc_bytes (s.address ∷ print r) in
      let k = crc_loop crc_start (s.address ∷ print r) in
      let (u, body, read) = run_body r s (sum ++ rest) h g p in
      let good : check_crc_rtu u.crc_buffer k.hi k.lo ≡ true =
        rw read.summed (check_crc_rtu_own (s.address ∷ print r)) in
      let q = finished order u in
      (
        record (judged u k.hi k.lo) { pdu = q; calls = u.calls ++ on_pdu q ∷ [] },
        ap (λ (xs : List ℕ). on_chars (s.address ∷ xs) s) (append_assoc (print r) sum rest)
            ∙ body
            ∙ run_good_crc u k.hi k.lo rest read.at_crc good,
        record {
          ready = record { at_init = refl; no_crc = refl; no_index = read.no_index };
          same_address = read.same_address;
          called =
              told-append u.calls (on_pdu q ∷ [])
              ∙ ap₂ (λ c x. told c ++ some x ∷ []) read.same_calls
                  (ap request_of read.fields ∙ request_of-decoded r q g);
        },
      )
