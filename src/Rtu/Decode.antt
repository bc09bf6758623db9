-- ===== src/Rtu/Decode.antt =====
-- One frame through slave_rtu_scanner.cpp: the piece behind each part of the frame.
use modbus_scanner.Base.{
  ℕ, ◌+◌, ◌/◌, ◌%◌, ◌≤◌, ◌≡◌, ◌⊎◌, inr, refl, ap, ◌∙◌, true, false, List, [], ◌∷◌, ◌++◌, append-nil,
  append_assoc, arith, length,
}
use modbus_scanner.Coroutine.Chunks.{dropped, run, After}
use modbus_scanner.Crc.{crc_loop, crc_start, check_crc_rtu_own, check_crc_rtu}
use modbus_scanner.Defs.{on_pdu, on_nonse}
use modbus_scanner.Request.{Request, short, write, read_write, IsRequest, print, decoded}
use modbus_scanner.Rtu.Frame.{crc_bytes, frame}
use modbus_scanner.Rtu.{
  Scanner, pre_address_state, pdu_done, crc_hi_state, i8_1_state, i16_3_hi_state, initial_state,
  after_i16_2, data_loop, finished, step_at, machine,
}
use modbus_scanner.Scanner.{Order, combine, combine_lem, valid_fc}

-- The coroutine is before a frame: in `sink` with an empty checksum buffer, or behind a frame.
abbrev pub IsReady : Scanner → Type 0
IsReady s = (s.point ≡ pdu_done) ⊎ ((s.point ≡ pre_address_state) × (s.crc_buf ≡ []))

-- The checksum buffer is empty wherever the coroutine looks for an address.
abbrev pub Inv : Scanner → Type 0
Inv s = s.point ≡ pre_address_state → s.crc_buf ≡ []

pub step_at-After :
    (order : Order) (s : Scanner) (c : ℕ)
    → Inv s
    → After (machine order) Inv (step_at order s.point s c)
unfolding step_at
step_at-After order s c h = ground arith

abbrev headed : Scanner → ℕ → ℕ → ℕ → ℕ → ℕ → Scanner
headed s fc h1 l1 h2 l2 = record s {
  point = after_i16_2 fc;
  fc = fc;
  i16_1_hi = h1;
  i16_1_lo = l1;
  i16_2_hi = h2;
  i16_2_lo = l2;
  crc_buf = s.address ∷ fc ∷ h1 ∷ l1 ∷ h2 ∷ l2 ∷ [];
}

module _ (order : Order) where
  run_head :
      (s : Scanner) (fc h1 l1 h2 l2 : ℕ) (rest : List ℕ)
      → IsReady s
      → valid_fc fc ≡ true
      → run (machine order) (s.address ∷ fc ∷ h1 ∷ l1 ∷ h2 ∷ l2 ∷ rest) s
        ≡ run (machine order) rest (headed s fc h1 l1 h2 l2)
  unfolding run step_at
  run_head s fc h1 l1 h2 l2 rest r v = ground arith

  run_data :
      (bytes : List ℕ) (s : Scanner) (rest : List ℕ)
      → s.point ≡ data_loop s.ix s.pdu.i8_1
      → s.ix + length bytes ≡ s.pdu.i8_1
      → run (machine order) (bytes ++ rest) s
        ≡ run (machine order) rest (record s {
          point = crc_hi_state;
          ix = s.pdu.i8_1;
          crc_buf = s.crc_buf ++ bytes;
          pdu = record (s.pdu) { payload = s.pdu.payload ++ bytes };
        })
  unfolding run step_at
  run_data [] s rest p e = ground (arith, append-nil s.crc_buf, append-nil s.pdu.payload)
  run_data (b ∷ bytes) s rest p e = ground (
    arith,
    append_assoc s.crc_buf (b ∷ []) bytes,
    append_assoc s.pdu.payload (b ∷ []) bytes,
    run_data bytes
        (record s {
          point = data_loop (s.ix + 1) s.pdu.i8_1;
          ix = s.ix + 1;
          crc_buf = s.crc_buf ++ b ∷ [];
          pdu = record (s.pdu) { payload = s.pdu.payload ++ b ∷ [] };
        })
        rest,
  )

  run_count :
      (s : Scanner) (n : ℕ) (rest : List ℕ)
      → s.point ≡ i8_1_state
      → run (machine order) (n ∷ rest) s
        ≡ run (machine order) rest (record s {
          point = data_loop 0 n;
          ix = 0;
          crc_buf = s.crc_buf ++ n ∷ [];
          pdu = record (s.pdu) { i8_1 = n; payload = [] };
        })
  unfolding run step_at
  run_count s n rest p = ground arith

  abbrev loaded : Scanner → List ℕ → Scanner
  loaded s bytes = record s {
    point = crc_hi_state;
    ix = length bytes;
    crc_buf = (s.crc_buf ++ length bytes ∷ []) ++ bytes;
    pdu = record (s.pdu) { i8_1 = length bytes; payload = bytes };
  }

  run_payload :
      (s : Scanner) (bytes rest : List ℕ)
      → s.point ≡ i8_1_state
      → run (machine order) (length bytes ∷ (bytes ++ rest)) s
        ≡ run (machine order) rest (loaded s bytes)
  run_payload s bytes rest p =
      run_count s (length bytes) (bytes ++ rest) p ∙ run_data bytes _ rest refl (omega arith)

  abbrev widened : Scanner → ℕ → ℕ → ℕ → ℕ → Scanner
  widened s h3 l3 h4 l4 = record s {
    point = i8_1_state;
    i16_3_hi = h3;
    i16_3_lo = l3;
    i16_4_hi = h4;
    i16_4_lo = l4;
    crc_buf = s.crc_buf ++ h3 ∷ l3 ∷ h4 ∷ l4 ∷ [];
    pdu = record (s.pdu) { i16_3 = combine order h3 l3; i16_4 = combine order h4 l4 };
  }

  run_wide :
      (s : Scanner) (h3 l3 h4 l4 : ℕ) (rest : List ℕ)
      → s.point ≡ i16_3_hi_state
      → run (machine order) (h3 ∷ l3 ∷ h4 ∷ l4 ∷ rest) s
        ≡ run (machine order) rest (widened s h3 l3 h4 l4)
  unfolding run step_at
  run_wide s h3 l3 h4 l4 rest p = ground (
    arith,
    append_assoc s.crc_buf (h3 ∷ []) (l3 ∷ []),
    append_assoc s.crc_buf (h3 ∷ l3 ∷ []) (h4 ∷ []),
    append_assoc s.crc_buf (h3 ∷ l3 ∷ h4 ∷ []) (l4 ∷ []),
  )

  combine_bytes : (n : ℕ) → combine order (n / 256) (n % 256) ≡ n
  combine_bytes n = omega (arith, combine_lem order (n / 256) (n % 256))

  short-valid_fc :
      (fc : ℕ) → 1 ≤ fc → fc ≤ 6 → (valid_fc fc ≡ true) × (after_i16_2 fc ≡ crc_hi_state)
  unfolding valid_fc after_i16_2
  short-valid_fc fc lo hi = ground arith

  write-valid_fc :
      (fc : ℕ) → (fc ≡ 15) ⊎ (fc ≡ 16) → (valid_fc fc ≡ true) × (after_i16_2 fc ≡ i8_1_state)
  unfolding valid_fc after_i16_2
  write-valid_fc fc h = ground arith

  read_write-valid_fc : (valid_fc 23 ≡ true) × (after_i16_2 23 ≡ i16_3_hi_state)
  unfolding valid_fc after_i16_2
  read_write-valid_fc = (refl, refl)

  -- `t` is `s` with the body of a frame read, before the checksum.
  pub record Read (r : Request) (s t : Scanner) : Type 0 where
    pub at_crc : t.point ≡ crc_hi_state
    pub same_address : t.address ≡ s.address
    pub same_calls : t.calls ≡ s.calls
    pub summed : t.crc_buf ≡ s.address ∷ print r
    pub fields : finished order t ≡ decoded r s.pdu

  pub run_body :
      (r : Request) (s : Scanner) (rest : List ℕ)
      → IsReady s
      → IsRequest r
      → (t : Scanner) × (run (machine order) ((s.address ∷ print r) ++ rest) s
          ≡ run (machine order) rest t)
        × Read r s t
  run_body (short fc a b) s rest h (lo, hi, ha, hb) =
      let (v, w) = short-valid_fc fc lo hi in
      (
        headed s fc (a / 256) (a % 256) (b / 256) (b % 256),
        run_head s fc _ _ _ _ rest h v,
        record {
          at_crc = w;
          same_address = refl;
          same_calls = refl;
          summed = refl;
          fields = rw (combine_bytes a, combine_bytes b);
        },
      )
  run_body (write fc a b bytes) s rest h (f, ha, hb, hn) =
      let (v, w) = write-valid_fc fc f in
      let s1 = headed s fc (a / 256) (a % 256) (b / 256) (b % 256) in
      (
        loaded s1 bytes,
        run_head s fc _ _ _ _ (length bytes ∷ (bytes ++ rest)) h v ∙ run_payload s1 bytes rest w,
        record {
          at_crc = refl;
          same_address = refl;
          same_calls = refl;
          summed = refl;
          fields = rw (combine_bytes a, combine_bytes b);
        },
      )
  run_body (read_write a b c d bytes) s rest h (ha, hb, hc, hd, hn) =
      let (v, w) = read_write-valid_fc in
      let s1 = headed s 23 (a / 256) (a % 256) (b / 256) (b % 256) in
      let s2 = widened s1 (c / 256) (c % 256) (d / 256) (d % 256) in
      let data_part = length bytes ∷ (bytes ++ rest) in
      (
        loaded s2 bytes,
        run_head s 23 _ _ _ _ (c / 256 ∷ c % 256 ∷ d / 256 ∷ d % 256 ∷ data_part) h v
            ∙ run_wide s1 _ _ _ _ data_part w
            ∙ run_payload s2 bytes rest refl,
        record {
          at_crc = refl;
          same_address = refl;
          same_calls = refl;
          summed = refl;
          fields = rw (combine_bytes a, combine_bytes b, combine_bytes c, combine_bytes d);
        },
      )

  -- `t` is `s` after the frame of `r`.
  pub record Took (r : Request) (s t : Scanner) : Type 0 where
    pub behind : t.point ≡ pdu_done
    pub same_address : t.address ≡ s.address
    pub pdu_lem : t.pdu ≡ decoded r s.pdu
    pub called : t.calls ≡ s.calls ++ on_pdu (decoded r s.pdu) ∷ []

  abbrev accepted : Scanner → ℕ → Scanner
  accepted s hi = record s {
    crc_hi = hi;
    pdu = finished order s;
    calls = s.calls ++ on_pdu (finished order s) ∷ [];
    point = pdu_done;
  }

  abbrev refused : Scanner → ℕ → Scanner
  refused s hi = initial_state (record s { crc_hi = hi; calls = s.calls ++ on_nonse ∷ [] })

  run_good_crc :
      (s : Scanner) (hi lo : ℕ) (rest : List ℕ)
      → s.point ≡ crc_hi_state
      → check_crc_rtu s.crc_buf hi lo ≡ true
      → run (machine order) (hi ∷ lo ∷ rest) s ≡ run (machine order) rest (accepted s hi)
  unfolding run step_at
  run_good_crc s hi lo rest p good = ground arith

  run_bad_crc :
      (s : Scanner) (hi lo : ℕ) (rest : List ℕ)
      → s.point ≡ crc_hi_state
      → check_crc_rtu s.crc_buf hi lo ≡ false
      → run (machine order) (hi ∷ lo ∷ rest) s ≡ dropped (refused s hi)
  unfolding run step_at
  run_bad_crc s hi lo rest p bad = ground arith

  pub run-frame :
      (r : Request) (s : Scanner) (rest : List ℕ)
      → IsReady s
      → IsRequest r
      → (t : Scanner) × (run (machine order) (frame s.address r ++ rest) s
          ≡ run (machine order) rest t)
        × Took r s t
  run-frame r s rest h g =
      let sum = crc_bytes (s.address ∷ print r) in
      let (u, body, read) = run_body r s (sum ++ rest) h g in
      let good : check_crc_rtu u.crc_buf _ _ ≡ true =
        rw read.summed (check_crc_rtu_own (s.address ∷ print r)) in
      (
        accepted u (crc_loop crc_start (s.address ∷ print r)).hi,
        ap (λ (xs : List ℕ). run (machine order) (s.address ∷ xs) s)
              (append_assoc (print r) sum rest)
            ∙ body
            ∙ run_good_crc u _ _ rest read.at_crc good,
        record {
          behind = refl;
          same_address = read.same_address;
          pdu_lem = read.fields;
          called = rw (read.fields, read.same_calls);
        },
      )

  -- A request to this device whose two checksum bytes are refused by `check_crc_rtu`, read when
  -- the coroutine is before a frame: the scanner calls `m_nonse_cb` once and `m_pdu_cb` never,
  -- drops what is left of the chunk, and is before a frame again.
  pub run_frame_bad :
      (r : Request) (s : Scanner) (hi lo : ℕ) (rest : List ℕ)
      → IsReady s
      → IsRequest r
      → check_crc_rtu (s.address ∷ print r) hi lo ≡ false
      → (t : Scanner) × (run (machine order) ((s.address ∷ print r) ++ hi ∷ lo ∷ rest) s
          ≡ dropped t)
        × IsReady t
        × (t.calls ≡ s.calls ++ on_nonse ∷ [])
  run_frame_bad r s hi lo rest h g bad =
      let (u, body, read) = run_body r s (hi ∷ lo ∷ rest) h g in
      (
        refused u hi,
        body ∙ run_bad_crc u hi lo rest read.at_crc (rw read.summed bad),
        inr (refl, refl),
        rw read.same_calls,
      )
